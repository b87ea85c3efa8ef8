-- ===== src/OpenCollection/Snapshots/Dropped.antt =====
-- QDocCollection::revertToSnapshot: which versions of documents its loop takes out.
use qdocdb.Prelude.{
  ℕ, ◌≡◌, ◌≢◌, refl, Bool, true, false, ◌&&◌, ◌||◌, none, some, List, [], ◌∷◌, Text, Bytes, codes,
  ◌==◌, ==_iff, last?, starts_with, if◌then◌else◌, arith,
}
use qdocdb.Qt.{QtLaws}
use qdocdb.Serialize.{marshal_snapshots_value}
use qdocdb.Find.{get_indexes}
use qdocdb.Kv.{Entry}
use qdocdb.Kv.Interface.{KvInterface, KvLaws}
use qdocdb.Collection.{ok, index_value_start_key}
use qdocdb.Transaction.{Transaction, Context, delete_value, put_value, source, put_snapshots_value}
use qdocdb.Transaction.Reads.{
  put_value-eq, holds-put_value, holds, delete_value-eq, holds-delete_value,
}
use qdocdb.OpenCollection.Snapshots.Keys.{not_snapshots, document-other, start_key-other}
use qdocdb.OpenCollection.Snapshots.{
  is_version_key, has_id, delete_single, drop_versions, delete_prefixed, drop_index, drop_indexes,
  revert,
}

-- Is a key that of a version of one of the snapshots?
abbrev pub is_version_of : List ℕ → Bytes → Bool
is_version_of s_ids k =
    is_version_key k && elim (last? k) [ none ↦ false | some s ↦ has_id s s_ids ]

-- Is it among the keys that the loop comes upon, those before the first that does not start with "d:"?
abbrev pub is_reached : List Entry → Bytes → Bool
is_reached [] j = false
is_reached ((k, v) ∷ rest) j = starts_with (codes "d:") k && (k == j || is_reached rest j)

last?-cons : (x : ℕ) (k : Bytes) → last? (x ∷ k) ≢ none
last?-cons x [] = λ e. cc
last?-cons x (y ∷ k) = last?-cons y k

version_key-last : (k : Bytes) → is_version_key k ≡ true → last? k ≢ none
unfolding is_version_key
version_key-last [] h = λ e. cc
version_key-last (x ∷ []) h = λ e. cc
version_key-last (x ∷ y ∷ k) h = last?-cons y k

module _ (kv : KvInterface) (laws : KvLaws kv) (c : Context kv) where
  -- A start key that goes is no key of a version.
  delete_single-frame :
      (start_key : Bytes) (single : Bool) (s : Transaction kv) (j : Bytes)
      → is_version_key j ≡ true
      → is_version_key start_key ≡ false
      → ((delete_single kv c start_key single s).0 ≡ ok tt)
        × (holds kv c (delete_single kv c start_key single s).1 j ≡ holds kv c s j)
  unfolding delete_single
  delete_single-frame start_key single s j h k = ground (
    arith,
    h,
    k,
    ==_iff start_key j,
    delete_value-eq kv laws c start_key s,
    holds-delete_value kv laws c start_key j s,
  )

  drop_versions-reached :
      (s_ids : List ℕ) (l : List Entry) (start_key : Bytes) (single : Bool) (s : Transaction kv)
      (j : Bytes)
      → is_version_key j ≡ true
      → is_version_key start_key ≡ false
      → ((drop_versions kv c s_ids l start_key single s).0 ≡ ok tt)
        × (holds kv c (drop_versions kv c s_ids l start_key single s).1 j
            ≡ (if is_reached l j && is_version_of s_ids j then none else holds kv c s j))
  unfolding drop_versions
  drop_versions-reached s_ids [] start_key single s j h k =
      delete_single-frame start_key single s j h k
  drop_versions-reached s_ids ((key, v) ∷ rest) start_key single s j h k = ground (
    arith,
    h,
    k,
    ==_iff key j,
    version_key-last key,
    delete_single-frame start_key single s j h k,
    delete_value-eq kv laws c key s,
    holds-delete_value kv laws c key j s,
    drop_versions-reached s_ids rest start_key single (delete_value kv c key s).1 j h k,
    drop_versions-reached s_ids rest start_key false s j h k,
    drop_versions-reached s_ids rest key true (delete_single kv c start_key single s).1 j h,
  )

  delete_prefixed-frame :
      (p : Bytes) (l : List Entry) (s : Transaction kv) (j : Bytes)
      → starts_with p j ≡ false
      → ((delete_prefixed kv c p l s).0 ≡ ok tt)
        × (holds kv c (delete_prefixed kv c p l s).1 j ≡ holds kv c s j)
  unfolding delete_prefixed
  delete_prefixed-frame p [] s j h = (refl, refl)
  delete_prefixed-frame p ((k, v) ∷ l) s j h = ground (
    arith,
    h,
    ==_iff k j,
    delete_value-eq kv laws c k s,
    holds-delete_value kv laws c k j s,
    delete_prefixed-frame p l (delete_value kv c k s).1 j h,
  )

  module _ (qt_laws : QtLaws c.qt) where
    drop_index-frame :
        (n : Text) (s_ids : List ℕ) (s : Transaction kv) (j : Bytes)
        → starts_with (codes "d:") j ≡ true
        → ((drop_index kv c n s_ids s).0 ≡ ok tt)
          × (holds kv c (drop_index kv c n s_ids s).1 j ≡ holds kv c s j)
    unfolding drop_index
    drop_index-frame n [] s j h = (refl, refl)
    drop_index-frame n (i ∷ s_ids) s j h =
        let key = index_value_start_key c.qt n i in
        ground (
          arith,
          delete_prefixed-frame key (kv.seek key c.db) s j
              (start_key-other c.qt qt_laws n i j (document-other j h)),
          drop_index-frame n s_ids (delete_prefixed kv c key (kv.seek key c.db) s).1 j h,
        )

    drop_indexes-frame :
        (indexes : List (Text × Text)) (s_ids : List ℕ) (s : Transaction kv) (j : Bytes)
        → starts_with (codes "d:") j ≡ true
        → ((drop_indexes kv c indexes s_ids s).0 ≡ ok tt)
          × (holds kv c (drop_indexes kv c indexes s_ids s).1 j ≡ holds kv c s j)
    unfolding drop_indexes
    drop_indexes-frame [] s_ids s j h = (refl, refl)
    drop_indexes-frame ((f, n) ∷ indexes) s_ids s j h = ground (
      arith,
      drop_index-frame n s_ids s j h,
      drop_indexes-frame indexes s_ids (drop_index kv c n s_ids s).1 j h,
    )

    -- The writes of revertToSnapshot succeed. Then the transaction finds nothing at a key of a version
    -- of one of the snapshots that go, if the loop over the documents comes upon it, and at every
    -- other key of a version what it found before.
    pub revert-reached :
        (snapshots : List Text) (s_ids : List ℕ) (s : Transaction kv) (j : Bytes)
        → starts_with (codes "d:") j ≡ true
        → is_version_key j ≡ true
        → ((revert kv c snapshots s_ids s).0 ≡ ok tt)
          × (holds kv c (revert kv c snapshots s_ids s).1 j ≡ (
              if is_reached (kv.seek_to_first c.db) j && is_version_of s_ids j
              then none
              else holds kv c s j))
    unfolding revert put_snapshots_value
    revert-reached snapshots s_ids s j d h =
        let b = marshal_snapshots_value c.qt snapshots in
        let s1 = (put_value kv c (codes "s:") b s).1 in
        let l = kv.seek_to_first c.db in
        let s2 = (drop_versions kv c s_ids l [] false s1).1 in
        ground (
          arith,
          put_value-eq kv laws c (codes "s:") b s,
          holds-put_value kv laws c (codes "s:") b j s,
          not_snapshots j d,
          drop_versions-reached s_ids l [] false s1 j h (unfold is_version_key in refl),
          drop_indexes-frame (get_indexes kv c.qt (source kv c s2)) s_ids s2 j d,
        )
