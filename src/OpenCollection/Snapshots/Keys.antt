-- ===== src/OpenCollection/Snapshots/Keys.antt =====
-- Keys of documents, of index values and of the list of snapshots are different.
use qdocdb.Prelude.{
  ℕ, ◌≡◌, refl, true, false, [], ◌∷◌, ◌++◌, Text, Bytes, codes, ◌==◌, starts_with, arith,
}
use qdocdb.Qt.{Qt, QtLaws}
use qdocdb.Collection.{index_value_start_key}

pub not_snapshots : (j : Bytes) → starts_with (codes "d:") j ≡ true → codes "s:" == j ≡ false
unfolding starts_with ◌==◌
not_snapshots [] h = cc
not_snapshots (x ∷ j) h = ground arith

pub document-other :
    (j : Bytes) → starts_with (codes "d:") j ≡ true → starts_with (codes "iv:") j ≡ false
unfolding starts_with
document-other [] h = cc
document-other (x ∷ j) h = ground arith

-- A key that does not start with "iv:" is no key of an index value.
pub start_key-other :
    (qt : Qt) (laws : QtLaws qt) (n : Text) (s : ℕ) (j : Bytes)
    → starts_with (codes "iv:") j ≡ false
    → starts_with (index_value_start_key qt n s) j ≡ false
unfolding index_value_start_key starts_with
start_key-other qt laws n s [] h = rw (laws.local8bit_ascii (n ++ b':' ∷ [])) refl
start_key-other qt laws n s (x ∷ []) h = rw (laws.local8bit_ascii (n ++ b':' ∷ [])) (ground arith)
start_key-other qt laws n s (x ∷ y ∷ []) h =
    rw (laws.local8bit_ascii (n ++ b':' ∷ [])) (ground arith)
start_key-other qt laws n s (x ∷ y ∷ z ∷ j) h =
    rw (laws.local8bit_ascii (n ++ b':' ∷ [])) (ground arith)
