-- ===== src/Prelude/IntMap.antt =====
-- QMap<int, V> and QHash<int, V> as association lists.
use Prim.Native.Nat.{ℕ}
use mathlib.Core.Path.{◌≡◌, refl}
use mathlib.Core.List.{List, [], ◌∷◌}
use mathlib.Core.Option.{Option, none, some}
use native.Mathlib.Omega.{arith}
use qdocdb.Prelude.Tests.{eqb, if◌then◌else◌}

module _ {ℓ} {V : Type ℓ} where
  unfoldable pub at : ℕ → List (ℕ × V) → Option V
  at k [] = none
  at k ((j, v) ∷ m) = if eqb j k then some v else at k m

  unfoldable pub put_at : ℕ → V → List (ℕ × V) → List (ℕ × V)
  put_at k v [] = (k, v) ∷ []
  put_at k v ((j, w) ∷ m) = if eqb j k then (k, v) ∷ m else (j, w) ∷ put_at k v m

  unfoldable pub remove_at : ℕ → List (ℕ × V) → List (ℕ × V)
  remove_at k [] = []
  remove_at k ((j, w) ∷ m) = let rest = remove_at k m in if eqb j k then rest else (j, w) ∷ rest

  pub at-put_at :
      (k j : ℕ) (v : V) (m : List (ℕ × V))
      → at j (put_at k v m) ≡ (if eqb k j then some v else at j m)
  unfolding at put_at
  at-put_at k j v [] = refl
  at-put_at k j v ((i, w) ∷ m) = ground (arith, at-put_at k j v m)

  pub at-remove_at :
      (k j : ℕ) (m : List (ℕ × V)) → at j (remove_at k m) ≡ (if eqb k j then none else at j m)
  unfolding at remove_at
  at-remove_at k j [] = ground arith
  at-remove_at k j ((i, w) ∷ m) = ground (arith, at-remove_at k j m)
