-- ===== src/Prelude/ByteList.antt =====
-- QByteArray and QString as lists of numbers (bytes; code units), with the operations that the
-- sources use, and association lists for QHash and QMap.
use Prim.Native.Nat.{ℕ}
use Prim.Native.Char.{code}
use Prim.Native.String.{String}
use mathlib.Core.Path.{◌≡◌, refl}
use mathlib.Core.Logic.{◌↔◌}
use mathlib.Core.Bool.{Bool, true, false, ◌&&◌, ◌||◌}
use mathlib.Core.List.{List, [], ◌∷◌, ◌++◌}
use mathlib.Core.Option.{Option, none, some}
use native.Mathlib.Omega.{arith}
use qdocdb.Prelude.Tests.{eqb, ltb, if◌then◌else◌}

abbrev pub Bytes : Type 0
Bytes = List ℕ

abbrev pub Text : Type 0
Text = List ℕ

-- The code units of a literal.
abbrev pub codes : String → List ℕ
codes String.[] = []
codes (String.◌∷◌ c s) = code c ∷ codes s

infix 50 ◌==◌
unfoldable pub ◌==◌ : List ℕ → List ℕ → Bool
[] == [] = true
[] == (y ∷ ys) = false
(x ∷ xs) == [] = false
(x ∷ xs) == (y ∷ ys) = eqb x y && xs == ys

pub ==_iff : (xs ys : List ℕ) → (xs == ys ≡ true) ↔ (xs ≡ ys)
unfolding ◌==◌
==_iff [] [] = (λ _. refl, λ _. refl)
==_iff [] (y ∷ ys) = (λ h. cc, λ h. cc)
==_iff (x ∷ xs) [] = (λ h. cc, λ h. cc)
==_iff (x ∷ xs) (y ∷ ys) = ground (arith, ==_iff xs ys)

-- The order of keys: bytewise, a proper prefix first.
unfoldable pub list_lt : List ℕ → List ℕ → Bool
list_lt [] [] = false
list_lt [] (y ∷ ys) = true
list_lt (x ∷ xs) [] = false
list_lt (x ∷ xs) (y ∷ ys) = ltb x y || (eqb x y && list_lt xs ys)

pub list_lt-asym : (xs ys : List ℕ) → list_lt xs ys ≡ true → list_lt ys xs ≡ false
unfolding list_lt
list_lt-asym [] [] h = cc
list_lt-asym [] (y ∷ ys) h = refl
list_lt-asym (x ∷ xs) [] h = cc
list_lt-asym (x ∷ xs) (y ∷ ys) h = ground (arith, list_lt-asym xs ys)

-- `s.mid(0, p.size()) == p`
unfoldable pub starts_with : List ℕ → List ℕ → Bool
starts_with [] s = true
starts_with (x ∷ p) [] = false
starts_with (x ∷ p) (y ∷ s) = eqb x y && starts_with p s

pub starts_with_append : (p s : List ℕ) → starts_with p (p ++ s) ≡ true
unfolding starts_with
starts_with_append [] s = refl
starts_with_append (x ∷ p) s = ground (arith, starts_with_append p s)

-- QList<QByteArray>::contains and removeAll
unfoldable pub contains : Bytes → List Bytes → Bool
contains k [] = false
contains k (x ∷ xs) = x == k || contains k xs

unfoldable pub remove_all : Bytes → List Bytes → List Bytes
remove_all k [] = []
remove_all k (x ∷ xs) = let rest = remove_all k xs in if x == k then rest else x ∷ rest

module _ {ℓ} {V : Type ℓ} where
  -- `map.contains(k)` and `map[k]` in one; `map[k] = v`; `map.remove(k)`
  unfoldable pub assoc : List ℕ → List (List ℕ × V) → Option V
  assoc k [] = none
  assoc k ((j, v) ∷ m) = if j == k then some v else assoc k m

  unfoldable pub assoc_put : List ℕ → V → List (List ℕ × V) → List (List ℕ × V)
  assoc_put k v [] = (k, v) ∷ []
  assoc_put k v ((j, w) ∷ m) = if j == k then (k, v) ∷ m else (j, w) ∷ assoc_put k v m

  unfoldable pub assoc_remove : List ℕ → List (List ℕ × V) → List (List ℕ × V)
  assoc_remove k [] = []
  assoc_remove k ((j, w) ∷ m) =
      let rest = assoc_remove k m in if j == k then rest else (j, w) ∷ rest

  pub assoc-assoc_put :
      (k j : List ℕ) (v : V) (m : List (List ℕ × V))
      → assoc j (assoc_put k v m) ≡ (if k == j then some v else assoc j m)
  unfolding assoc assoc_put
  assoc-assoc_put k j v [] = refl
  assoc-assoc_put k j v ((i, w) ∷ m) =
      ground (arith, ==_iff k j, ==_iff i k, ==_iff i j, assoc-assoc_put k j v m)

  pub assoc-assoc_remove :
      (k j : List ℕ) (m : List (List ℕ × V))
      → assoc j (assoc_remove k m) ≡ (if k == j then none else assoc j m)
  unfolding assoc assoc_remove
  assoc-assoc_remove k j [] = ground arith
  assoc-assoc_remove k j ((i, w) ∷ m) =
      ground (arith, ==_iff k j, ==_iff i k, ==_iff i j, assoc-assoc_remove k j m)
