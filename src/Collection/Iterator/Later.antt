-- ===== src/Collection/Iterator/Later.antt =====
-- Which documents have been modified after a snapshot.
use qdocdb.Prelude.{
  ℕ, ◌≡◌, refl, Bool, true, false, ◌&&◌, ◌||◌, List, [], ◌∷◌, ◌++◌, Bytes, ltb, starts_with_append,
  length-append, arith,
}
use qdocdb.Qt.{Qt}
use qdocdb.Kv.{Entry}
use qdocdb.Kv.Interface.{KvInterface}
use qdocdb.Collection.Iterator.{DocIterator, scan_later, is_modified_later}
use qdocdb.Collection.Iterator.Visible.{
  Versions, version_entries, document_entries, is_boundary, last?-colon,
}

-- Is there a version above `own`?
abbrev pub any_later : ℕ → Versions → Bool
any_later own [] = false
any_later own ((s, v) ∷ vs) = ltb own s || any_later own vs

-- Versions below 128, whose bytes are no negative characters.
abbrev pub all_small : Versions → Bool
all_small [] = true
all_small ((s, v) ∷ vs) = ltb s 128 && all_small vs

scan_later-versions :
    (p : Bytes) (own : ℕ) (vs : Versions) (rest : List Entry)
    → is_boundary p rest ≡ true
    → all_small vs ≡ true
    → scan_later p own (version_entries p vs ++ rest) ≡ any_later own vs
unfolding scan_later
scan_later-versions p own [] [] b h = refl
scan_later-versions p own [] ((k, v) ∷ rest) b h = ground arith
scan_later-versions p own ((s, v) ∷ vs) rest b h = ground (
  arith,
  starts_with_append p (b':' ∷ s ∷ []),
  last?-colon p b':' s,
  length-append p (b':' ∷ s ∷ []),
  scan_later-versions p own vs rest b,
)

-- At a document whose versions are all below 128, `isModifiedLater` is true exactly when there is a
-- version above the iterator's snapshot.
pub is_modified_later-any_later :
    (kv : KvInterface) (qt : Qt) (db : kv.Db) (it : DocIterator) (e : Bytes) (vs : Versions)
    (rest : List Entry)
    → kv.seek it.begin_key db ≡ document_entries it.prefix e vs ++ rest
    → is_boundary it.prefix rest ≡ true
    → all_small vs ≡ true
    → is_modified_later kv qt db it ≡ any_later it.snapshot_id vs
unfolding is_modified_later scan_later
is_modified_later-any_later kv qt db it e vs rest at b h = ground (
  arith,
  at,
  starts_with_append it.prefix (b':' ∷ []),
  length-append it.prefix (b':' ∷ []),
  scan_later-versions it.prefix it.snapshot_id vs rest b h,
)
