-- ===== src/Prelude/Keys.antt =====
-- Association lists that hold a key once, as a QHash or a QMap does.
use mathlib.Core.Path.{◌≡◌}
use mathlib.Core.List.{List, [], ◌∷◌}
use mathlib.Core.Option.{none}
use Prim.Native.Nat.{ℕ}
use native.Mathlib.Omega.{arith}
use qdocdb.Prelude.ByteList.{==_iff, assoc, assoc_put, assoc-assoc_put}

module _ {ℓ} {V : Type ℓ} where
  abbrev pub Distinct : List (List ℕ × V) → Type ℓ
  Distinct [] = Unit
  Distinct ((k, v) ∷ m) = (assoc k m ≡ none) × Distinct m

  pub assoc_put-Distinct :
      (k : List ℕ) (v : V) (m : List (List ℕ × V)) → Distinct m → Distinct (assoc_put k v m)
  unfolding assoc assoc_put
  assoc_put-Distinct k v [] d = ground arith
  assoc_put-Distinct k v ((j, w) ∷ m) d =
      ground (arith, ==_iff j k, ==_iff k j, assoc-assoc_put k j v m, assoc_put-Distinct k v m d.1)
