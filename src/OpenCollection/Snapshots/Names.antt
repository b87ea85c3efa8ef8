-- ===== src/OpenCollection/Snapshots/Names.antt =====
-- The list of snapshots: what newSnapshot makes of it, and the ids that names then have.
use qdocdb.Prelude.{
  ℕ, zero, suc, ◌<◌, ◌≡◌, refl, none, some, List, [], ◌∷◌, ◌++◌, Text, ==_iff, length, arith,
}
use qdocdb.Find.{index_of}
use qdocdb.OpenCollection.Snapshots.{current, rename_last}

-- The list that newSnapshot writes.
abbrev pub added : Text → List Text → List Text
added name snapshots = rename_last name snapshots ++ current ∷ []

pub index_of-added :
    (name t : Text) (l : List Text)
    → index_of name (t ∷ l) ≡ none
    → index_of name (added name (t ∷ l)) ≡ some (length l)
unfolding index_of rename_last
index_of-added name t [] h = ground (arith, ==_iff name name)
index_of-added name t (u ∷ l) h = ground (arith, index_of-added name u l)

index_of-older :
    (name m t : Text) (l : List Text) (i : ℕ)
    → index_of m (t ∷ l) ≡ some i
    → i < length l
    → index_of m (added name (t ∷ l)) ≡ some i
unfolding index_of rename_last
index_of-older name m t [] i h k = absurd (omega arith)
index_of-older name m t (u ∷ l) zero h k = ground arith
index_of-older name m t (u ∷ l) (suc i) h k = ground (arith, index_of-older name m u l i)

length-added : (name t : Text) (l : List Text) → length (added name (t ∷ l)) ≡ suc (suc (length l))
unfolding rename_last
length-added name t [] = refl
length-added name t (u ∷ l) = ground (arith, length-added name u l)

-- The list that newSnapshot writes for a name that is not in the list: it is longer by one, the name
-- has the index that the last entry had, and a name that stood before the last entry keeps its index.
pub added-index_of :
    (name t m : Text) (l : List Text) (i : ℕ)
    → index_of name (t ∷ l) ≡ none
    → index_of m (t ∷ l) ≡ some i
    → i < length l
    → (length (added name (t ∷ l)) ≡ suc (length (t ∷ l)))
      × (index_of name (added name (t ∷ l)) ≡ some (length l))
      × (index_of m (added name (t ∷ l)) ≡ some i)
added-index_of name t m l i h k b =
    (length-added name t l, index_of-added name t l h, index_of-older name m t l i k b)
