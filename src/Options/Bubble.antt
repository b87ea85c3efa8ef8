-- ===== src/Options/Bubble.antt =====
-- The loops of `applyOptions` that order a reply: passes that swap neighbours, until one swaps none.
use mathlib.Core.List.{Perm}
use mathlib.Core.List.Perm
use qdocdb.Prelude.{
  ℕ, zero, suc, ◌+◌, ◌*◌, ◌≤◌, ◌<◌, ◌≡◌, refl, sym, ◌∙◌, Bool, true, false, ◌||◌, List, [], ◌∷◌,
  length, arith, if◌then◌else◌, Bool-cases, inl, inr,
}

-- No neighbours are in the wrong order.
abbrev pub IsOrdered : {A : Type 0} → (A → A → Bool) → List A → Type 0
IsOrdered gt [] = Unit {0}
IsOrdered gt (x ∷ []) = Unit {0}
IsOrdered gt (x ∷ y ∷ l) = (gt x y ≡ false) × IsOrdered gt (y ∷ l)

-- A property of each element.
abbrev pub All : {A : Type 0} → (A → Type 0) → List A → Type 0
All P [] = Unit {0}
All P (x ∷ l) = P x × All P l

module _ {A : Type 0} (gt : A → A → Bool) where
  -- One pass: `x` is the element at `it`, and `swapped` the flag so far.
  pub pass : A → List A → Bool → List A × Bool
  pass x [] swapped = (x ∷ [], swapped)
  pass x (y ∷ l) swapped =
      let turn = gt x y in
      let (l', swapped') = pass (if turn then x else y) l (swapped || turn) in
      ((if turn then y else x) ∷ l', swapped')

  pub passes : ℕ → List A → List A
  passes zero l = l
  passes (suc fuel) [] = []
  passes (suc fuel) (x ∷ l) =
      let (l', swapped) = pass x l false in
      let rest = passes fuel l' in if swapped then rest else l'

  -- Each pass but the last undoes an inversion, of which there are at most the square of the length.
  unfoldable pub bubble_sort : List A → List A
  unfolding pass passes
  bubble_sort l = passes (suc (length l * length l)) l

  pass-perm : (x : A) (l : List A) (s : Bool) → Perm (pass x l s).0 (x ∷ l)
  unfolding pass
  pass-perm x [] s = Perm.refl (x ∷ [])
  pass-perm x (y ∷ l) s = elim (Bool-cases (gt x y)) [
    | inl e ↦ rw e (Perm.trans (Perm.cons y (pass-perm x l (s || true))) (Perm.swap x y l))
    | inr e ↦ rw e (Perm.cons x (pass-perm y l (s || false)))
  ]

  passes-perm : (fuel : ℕ) (l : List A) → Perm (passes fuel l) l
  unfolding passes
  passes-perm zero l = Perm.refl l
  passes-perm (suc fuel) [] = Perm.refl []
  passes-perm (suc fuel) (x ∷ l) = elim (Bool-cases (pass x l false).1) [
    | inl e ↦ rw e (Perm.trans (passes-perm fuel (pass x l false).0) (pass-perm x l false))
    | inr e ↦ rw e (pass-perm x l false)
  ]

  -- The elements of `l` that `x` is greater than.
  below : A → List A → ℕ
  below x [] = 0
  below x (y ∷ l) = (if gt x y then 1 else 0) + below x l

  -- The pairs that stand in the wrong order.
  inversions : List A → ℕ
  inversions [] = 0
  inversions (x ∷ l) = below x l + inversions l

  below-pass : (z x : A) (l : List A) (s : Bool) → below z (pass x l s).0 ≡ below z (x ∷ l)
  unfolding pass below
  below-pass z x [] s = refl
  below-pass z x (y ∷ l) s =
      ground (arith, below-pass z x l (s || true), below-pass z y l (s || false))

  below-le : (x : A) (l : List A) → below x l ≤ length l
  unfolding below
  below-le x [] = omega arith
  below-le x (y ∷ l) = ground (arith, below-le x l)

  inversions-le : (l : List A) → inversions l ≤ length l * length l
  unfolding inversions
  inversions-le [] = omega arith
  inversions-le (x ∷ l) = omega (arith, below-le x l, inversions-le l)

  pass-swapped : (x : A) (l : List A) → (pass x l true).1 ≡ true
  unfolding pass
  pass-swapped x [] = refl
  pass-swapped x (y ∷ l) = ground (arith, pass-swapped x l, pass-swapped y l)

  pass-IsOrdered :
      (x : A) (l : List A)
      → (pass x l false).1 ≡ false
      → ((pass x l false).0 ≡ x ∷ l) × IsOrdered gt (x ∷ l)
  unfolding pass
  pass-IsOrdered x [] h = (refl, tt)
  pass-IsOrdered x (y ∷ l) h = ground (arith, pass-swapped x l, pass-IsOrdered y l)

  module _ (asym : (x y : A) → gt x y ≡ true → gt y x ≡ false) where
    pass-inversions :
        (x : A) (l : List A) (s : Bool) → inversions (pass x l s).0 ≤ inversions (x ∷ l)
    unfolding pass inversions below
    pass-inversions x [] s = omega arith
    pass-inversions x (y ∷ l) s = ground (
      arith,
      asym x y,
      below-pass y x l (s || true),
      below-pass x y l (s || false),
      pass-inversions x l (s || true),
      pass-inversions y l (s || false),
    )

    pass-falls :
        (x : A) (l : List A)
        → (pass x l false).1 ≡ true
        → inversions (pass x l false).0 < inversions (x ∷ l)
    unfolding pass inversions below
    pass-falls x [] h = cc
    pass-falls x (y ∷ l) h = ground (
      arith,
      asym x y,
      below-pass y x l true,
      below-pass x y l false,
      pass-inversions x l true,
      pass-falls y l,
    )

    passes-IsOrdered : (fuel : ℕ) (l : List A) → inversions l < fuel → IsOrdered gt (passes fuel l)
    unfolding passes
    passes-IsOrdered zero l h = absurd (omega arith)
    passes-IsOrdered (suc fuel) [] h = tt
    passes-IsOrdered (suc fuel) (x ∷ l) h = elim (Bool-cases (pass x l false).1) [
      | inl e ↦ rw e (passes-IsOrdered fuel (pass x l false).0 (omega (arith, pass-falls x l e)))
      | inr e ↦ rw (e, (pass-IsOrdered x l e).0) (pass-IsOrdered x l e).1
    ]

    -- The loop ends with neighbours in order, and it has moved elements only.
    pub bubble_sort-IsOrdered : (l : List A) → IsOrdered gt (bubble_sort l) × Perm (bubble_sort l) l
    unfolding bubble_sort
    bubble_sort-IsOrdered l = (
      passes-IsOrdered (suc (length l * length l)) l (omega (arith, inversions-le l)),
      passes-perm (suc (length l * length l)) l,
    )

  module _ (P : A → Type 0) where
    pass-All : (x : A) (l : List A) (s : Bool) → P x → All P l → All P (pass x l s).0
    unfolding pass
    pass-All x [] s p a = (p, tt)
    pass-All x (y ∷ l) s p (q, a) = elim (Bool-cases (gt x y)) [
      | inl e ↦ rw e (q, pass-All x l (s || true) p a)
      | inr e ↦ rw e (p, pass-All y l (s || false) q a)
    ]

    passes-All : (fuel : ℕ) (l : List A) → All P l → All P (passes fuel l)
    unfolding passes
    passes-All zero l a = a
    passes-All (suc fuel) [] a = tt
    passes-All (suc fuel) (x ∷ l) (p, a) =
        let passed = pass-All x l false p a in
        elim (Bool-cases (pass x l false).1) [
          | inl e ↦ rw e (passes-All fuel (pass x l false).0 passed)
          | inr e ↦ rw e passed
        ]

    -- What holds of all elements holds of them after the loop.
    pub bubble_sort-All : (l : List A) → All P l → All P (bubble_sort l)
    unfolding bubble_sort
    bubble_sort-All l a = passes-All (suc (length l * length l)) l a

    -- Two tests that agree on the elements order them alike.
    pub IsOrdered-agree :
        (other : A → A → Bool)
        → ((x y : A) → P x → P y → gt x y ≡ other x y)
        → (l : List A) → All P l
        → IsOrdered gt l
        → IsOrdered other l
    IsOrdered-agree other same [] a o = tt
    IsOrdered-agree other same (x ∷ []) a o = tt
    IsOrdered-agree other same (x ∷ y ∷ l) (p, (q, a)) (h, o) =
        (sym (same x y p q) ∙ h, IsOrdered-agree other same (y ∷ l) (q, a) o)
