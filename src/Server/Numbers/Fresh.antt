-- ===== src/Server/Numbers/Fresh.antt =====
-- getNextTransactionId returns, and its id is new.
use qdocdb.Prelude.{
  ℕ, zero, suc, ◌+◌, ◌%◌, ◌^◌, ◌≤◌, ◌<◌, ◌≡◌, ◌≢◌, true, none, some, List, [], ◌∷◌, leb, length, at,
  remove_at, at-remove_at, arith, inl, inr, Bool-cases, Option-cases,
}
use qdocdb.Server.Numbers.{has_key_at, next_id, enough, get_next_transaction_id}

module _ {ℓ} {V : Type ℓ} where
  length-remove_at : (k : ℕ) (m : List (ℕ × V)) → length (remove_at k m) ≤ length m
  unfolding remove_at
  length-remove_at k [] = omega arith
  length-remove_at k ((j, v) ∷ m) = ground (arith, length-remove_at k m)

  length-remove_at_key :
      (k : ℕ) (m : List (ℕ × V)) → has_key_at k m ≡ true → length (remove_at k m) < length m
  unfolding remove_at has_key_at at
  length-remove_at_key k [] h = cc
  length-remove_at_key k ((j, v) ∷ m) h =
      ground (arith, length-remove_at_key k m, length-remove_at k m)

  -- The keys of `m` from `n` on that are no negative ints are in `rest`.
  abbrev Covers : ℕ → List (ℕ × V) → List (ℕ × V) → Type 0
  Covers n m rest = (k : ℕ) → n ≤ k → has_key_at k m ≡ true → has_key_at k rest ≡ true

  Covers-step :
      (n : ℕ) (m rest : List (ℕ × V)) → Covers n m rest → Covers (suc n) m (remove_at n rest)
  unfolding has_key_at
  Covers-step n m rest h k le e = ground (arith, h k, at-remove_at n k rest)

  -- From a number that has room above it for all keys, the walk ends without a wrap.
  walk_ends :
      (fuel : ℕ) (m rest : List (ℕ × V)) (n : ℕ)
      → length rest < fuel
      → n + length rest < 2 ^ 31
      → Covers n m rest
      → next_id fuel m n ≢ none
  unfolding next_id
  walk_ends zero m rest n h room c = absurd (omega (arith, h))
  walk_ends (suc fuel) m rest n h room c = elim (Bool-cases (has_key_at n m)) [
    | inl busy ↦
        let less = length-remove_at_key n rest (c n (omega arith) busy) in
        ground (
          arith,
          busy,
          less,
          walk_ends fuel m (remove_at n rest) (suc n) (omega (arith, less, h))
              (omega (arith, less, room)) (Covers-step n m rest c),
        )
    | inr free ↦ ground (arith, free)
  ]

  walk_returns :
      (fuel : ℕ) (m rest : List (ℕ × V)) (n : ℕ)
      → length rest + suc (length m) < fuel
      → length m < 2 ^ 31
      → Covers n m rest
      → n ≤ 2 ^ 31
      → next_id fuel m n ≢ none
  unfolding next_id
  walk_returns zero m rest n h small c le = absurd (omega (arith, h))
  walk_returns (suc fuel) m rest n h small c le = elim (Bool-cases (leb (2 ^ 31) n)) [
    | inl wraps ↦
        ground (
          arith,
          wraps,
          walk_ends fuel m m 0 (omega (arith, h)) (omega (arith, small)) (λ k l e. e),
        )
    | inr stays ↦ elim (Bool-cases (has_key_at n m)) [
      | inl busy ↦
          let less = length-remove_at_key n rest (c n (omega arith) busy) in
          ground (
            arith,
            stays,
            busy,
            less,
            walk_returns fuel m (remove_at n rest) (suc n) (omega (arith, less, h)) small
                (Covers-step n m rest c),
          )
      | inr free ↦ ground (arith, stays, free)
    ]
  ]

  -- Every id that the loop answers is new and a positive int, and so is the next counter.
  next_id-fresh :
      (fuel : ℕ) (m : List (ℕ × V)) (n id next : ℕ)
      → next_id fuel m n ≡ some (id, next)
      → (at id m ≡ none) × (id < 2 ^ 31) × (next ≡ suc id)
  unfolding next_id has_key_at
  next_id-fresh zero m n id next e = cc
  next_id-fresh (suc fuel) m n id next e = elim (Bool-cases (leb (2 ^ 31) n)) [
    | inl wraps ↦ ground (arith, wraps, next_id-fresh fuel m 0 id next)
    | inr stays ↦ ground (arith, stays, next_id-fresh fuel m ((n + 1) % 2 ^ 32) id next)
  ]

  -- While fewer than 2 ^ 31 transactions are open, and the counter has not passed the greatest int by
  -- more than one, getNextTransactionId returns: with an id that is no negative int and that no open
  -- transaction has, and with a counter that is again within that bound.
  pub get_next_transaction_id-fresh :
      (m : List (ℕ × V)) (n : ℕ)
      → length m < 2 ^ 31
      → n ≤ 2 ^ 31
      → (id : ℕ) × (next : ℕ) × (get_next_transaction_id m n ≡ some (id, next))
        × (at id m ≡ none)
        × (id < 2 ^ 31)
        × (next ≤ 2 ^ 31)
  unfolding get_next_transaction_id
  get_next_transaction_id-fresh m n small le = elim (Option-cases (next_id (enough m) m n)) [
    | inl e ↦ absurd (walk_returns (enough m) m m n (omega arith) small (λ k l h. h) le e)
    | inr ((id, next), e) ↦
        let f = next_id-fresh (enough m) m n id next e in
        (id, next, e, f.0, f.1, omega (arith, f.1, f.2))
  ]
