-- ===== src/Server/Numbers.antt =====
-- qdocdb/qdocdbserver.cpp: getNextTransactionId. The int `transactionId` is its 32-bit pattern, so
-- that an id from 2 ^ 31 on is negative.
pub mod Fresh
use qdocdb.Prelude.{
  ℕ, zero, suc, ◌+◌, ◌%◌, ◌^◌, Bool, true, false, Option, none, some, List, leb, length, at,
  if◌then◌else◌,
}

module _ {ℓ} {V : Type ℓ} where
  -- `contains`
  unfoldable pub has_key_at : ℕ → List (ℕ × V) → Bool
  has_key_at k m = elim (at k m) [ none ↦ false | some v ↦ true ]

  -- The loop, on fuel: the id and the next value of `transactionId`; none if the fuel runs out.
  unfoldable pub next_id : ℕ → List (ℕ × V) → ℕ → Option (ℕ × ℕ)
  next_id zero m n = none
  next_id (suc fuel) m n =
      let next = (n + 1) % 2 ^ 32 in
      let again = next_id fuel m 0 in
      let rest = next_id fuel m next in
      if leb (2 ^ 31) n then again else if has_key_at n m then rest else some (n, next)

  -- Fuel for a walk over all keys, once up to the wrap and once from 0 on.
  abbrev pub enough : List (ℕ × V) → ℕ
  enough m = suc (length m) + suc (length m)

  unfoldable pub get_next_transaction_id : List (ℕ × V) → ℕ → Option (ℕ × ℕ)
  get_next_transaction_id m n = next_id (enough m) m n
