-- ===== src/Transaction/Erased.antt =====
-- What QDocCollectionTransaction::removeById answers and writes, on every branch.
use qdocdb.Prelude.{
  ◌≡◌, refl, ◌∙◌, Bool, true, false, not, ◌&&◌, Option, none, some, List, [], ◌∷◌, Text, Bytes,
  codes, ◌==◌, ==_iff, starts_with, if◌then◌else◌, arith, Option-cases, inl, inr,
}
use qdocdb.Json.{Json, Fields, object, undefined, is_object}
use qdocdb.Qt.{Qt, QtLaws}
use qdocdb.Serialize.{marshal, unmarshal}
use qdocdb.Utils.{get_json_value_by_path}
use qdocdb.Kv.{found}
use qdocdb.Kv.Interface.{KvInterface, KvLaws}
use qdocdb.Collection.{
  ok, err, error_database, error_object_is_read_only, document_start_key, document_link_key,
}
use qdocdb.Collection.Iterator.{Scan, get_scan, get_json_value, scanned_value}
use qdocdb.Find.{get_indexes, get_json_value_by_link_key}
use qdocdb.Transaction.{Transaction, Context, Exec, ◌>>◌, remove_index_value, delete_value, source}
use qdocdb.Transaction.Reads.{holds, delete_value-eq, holds-delete_value}
use qdocdb.Transaction.Links.{remove_index_value-frame}
use qdocdb.Transaction.Stored.{link_key-starts}
use qdocdb.Transaction.Insert.{is_read_only, notify}
use qdocdb.Transaction.Remove.{
  remove_values, values_of, remove_from_indexes, observe_remove, put_marker, erase_document,
  is_alone, version_of, remove_document, remove_by_id,
}

-- The value that stands for what a transaction finds at a link key.
abbrev json_in : Qt → Option Bytes → Json
json_in qt none = undefined
json_in qt (some b) = unmarshal qt b

unmarshal_undefined : (qt : Qt) → unmarshal qt (marshal qt undefined) ≡ undefined
unfolding marshal unmarshal
unmarshal_undefined qt = refl

module _ (kv : KvInterface) (laws : KvLaws kv) (c : Context kv) (qt_laws : QtLaws c.qt) where
  read-holds :
      (s : Transaction kv) (k : Bytes)
      → get_json_value_by_link_key kv c.qt (source kv c s) k ≡ json_in c.qt (holds kv c s k)
  unfolding get_json_value_by_link_key found
  read-holds s k = ground arith

  remove_values-frame :
      (index_name : Text) (vs : List Json) (link : Bytes) (s : Transaction kv) (j : Bytes)
      → starts_with (codes "d:") j ≡ true
      → holds kv c (remove_values kv c index_name vs link s).1 j ≡ holds kv c s j
  unfolding remove_values
  remove_values-frame n [] link s j h = refl
  remove_values-frame n (v ∷ vs) link s j h = ground (
    arith,
    remove_index_value-frame kv laws c qt_laws n v link s j h,
    remove_values-frame n vs link (remove_index_value kv c n v link s).1 j h,
  )

  remove_from_indexes-frame :
      (indexes : List (Text × Text)) (doc : Fields) (link : Bytes) (s : Transaction kv) (j : Bytes)
      → starts_with (codes "d:") j ≡ true
      → holds kv c (remove_from_indexes kv c indexes doc link s).1 j ≡ holds kv c s j
  unfolding remove_from_indexes
  remove_from_indexes-frame [] doc link s j h = refl
  remove_from_indexes-frame ((f, n) ∷ indexes) doc link s j h =
      let vs = values_of kv c (get_json_value_by_path c.qt (object doc) f) in
      unfold values_of in
      ground (
        arith,
        remove_values-frame n vs link s j h,
        remove_from_indexes-frame indexes doc link (remove_values kv c n vs link s).1 j h,
      )

  put_marker-holds :
      (k j : Bytes) (s : Transaction kv)
      → ((put_marker kv c k s).0 ≡ ok tt)
        × (holds kv c (put_marker kv c k s).1 j
            ≡ (if k == j then some (marshal c.qt undefined) else holds kv c s j))
  unfolding put_marker
  put_marker-holds k j s = ground (
    arith,
    laws.put-ok k (marshal c.qt undefined) s.tx,
    laws.get-put k (marshal c.qt undefined) j s.tx c.db,
  )

  -- The document's own version is gone, or it is a marker.
  erase_document-holds :
      (id : Bytes) (alone : Bool) (s : Transaction kv)
      → ((erase_document kv c id alone s).0 ≡ ok tt)
        × (json_in c.qt
              (holds kv c (erase_document kv c id alone s).1 (document_link_key id c.snapshot_id))
            ≡ undefined)
  unfolding erase_document
  erase_document-holds id true s =
      let link = document_link_key id c.snapshot_id in
      let s1 = (delete_value kv c link s).1 in
      ground (
        arith,
        delete_value-eq kv laws c link s,
        delete_value-eq kv laws c (document_start_key id) s1,
        holds-delete_value kv laws c link link s,
        holds-delete_value kv laws c (document_start_key id) link s1,
        ==_iff link link,
      )
  erase_document-holds id false s =
      let link = document_link_key id c.snapshot_id in
      ground (arith, put_marker-holds link link s, ==_iff link link, unmarshal_undefined c.qt)

  -- What `removeById` does with a document once it may be removed.
  take_document : Bytes → Scan → Fields → Exec kv (Unit {0})
  take_document id a doc = do
    erase_document kv c id (is_alone kv c a)
    (λ s.
        remove_from_indexes kv c (get_indexes kv c.qt (source kv c s)) doc
          (document_link_key id (version_of kv c a)) s)
    notify kv c (observe_remove kv c doc)

  take_document-holds :
      (id : Bytes) (a : Scan) (doc : Fields) (s : Transaction kv)
      → json_in c.qt (holds kv c (take_document id a doc s).1 (document_link_key id c.snapshot_id))
        ≡ undefined
  unfolding take_document notify
  take_document-holds id a doc s =
      let s1 = (erase_document kv c id (is_alone kv c a) s).1 in
      ground (
        arith,
        erase_document-holds id (is_alone kv c a) s,
        remove_from_indexes-frame (get_indexes kv c.qt (source kv c s1)) doc
            (document_link_key id (version_of kv c a)) s1 (document_link_key id c.snapshot_id)
            (link_key-starts id c.snapshot_id),
      )

  remove_document-cases :
      (id : Bytes) (ignore : Bool) (a : Scan) (v : Json) (s : Transaction kv)
      → let r = remove_document kv c id ignore a v s in
        (is_object v ≡ false → (r.0 ≡ err error_database) × (r.1.tx ≡ s.tx))
        × (is_object v ≡ true
            → is_read_only kv c v ignore ≡ true
            → r ≡ (err error_object_is_read_only, s))
        × (is_object v ≡ true
            → is_read_only kv c v ignore ≡ false
            → get_json_value_by_link_key kv c.qt
                (source kv c r.1)
                (document_link_key id c.snapshot_id)
              ≡ undefined)
  unfolding remove_document is_object take_document
  remove_document-cases id ignore a (object doc) s = (
    λ h. cc,
    λ h k. rw k,
    λ h k. rw k (
        read-holds (take_document id a doc s).1 (document_link_key id c.snapshot_id)
        ∙ take_document-holds id a doc s),
  )
  remove_document-cases id ignore a v s = ground arith

  remove_by_id-cases :
      (id : Bytes) (ignore : Bool) (s : Transaction kv)
      → let v = get_json_value kv c.qt c.db id c.snapshot_id in
        let r = remove_by_id kv c id ignore s in
        (is_object v ≡ false → (r.0 ≡ err error_database) × (r.1.tx ≡ s.tx))
        × (is_object v ≡ true
            → is_read_only kv c v ignore ≡ true
            → r ≡ (err error_object_is_read_only, s))
        × (is_object v ≡ true
            → is_read_only kv c v ignore ≡ false
            → get_json_value_by_link_key kv c.qt
                (source kv c r.1)
                (document_link_key id c.snapshot_id)
              ≡ undefined)
  unfolding remove_by_id get_json_value is_object
  remove_by_id-cases id ignore s = elim (Option-cases (get_scan kv c.qt c.db id c.snapshot_id)) [
    | inl e ↦ rw (e, remove_by_id, get_json_value, is_object) (λ h. (refl, refl), λ h. cc, λ h. cc)
    | inr (a, e) ↦
        rw (e, remove_by_id, get_json_value)
          (remove_document-cases id ignore a (scanned_value c.qt a) s)
  ]

  -- A document that the snapshot has no object for, or that the read-only key protects: `removeById`
  -- fails, with errorDatabase or with errorObjectIsReadOnly, and writes nothing.
  pub remove_by_id-refused :
      (id : Bytes) (ignore : Bool) (s : Transaction kv)
      → let v = get_json_value kv c.qt c.db id c.snapshot_id in
        is_object v && not (is_read_only kv c v ignore) ≡ false
        → ((remove_by_id kv c id ignore s).0
            ≡ err (if is_object v then error_object_is_read_only else error_database))
          × ((remove_by_id kv c id ignore s).1.tx ≡ s.tx)
  remove_by_id-refused id ignore s h = ground (arith, remove_by_id-cases id ignore s)

  -- An object that the read-only key does not protect: after `removeById` the transaction reads the
  -- undefined value at the document's link key, also where the call fails for an index value that
  -- is missing.
  pub remove_by_id-erased :
      (id : Bytes) (ignore : Bool) (s : Transaction kv)
      → let v = get_json_value kv c.qt c.db id c.snapshot_id in
        is_object v && not (is_read_only kv c v ignore) ≡ true
        → get_json_value_by_link_key kv c.qt
            (source kv c (remove_by_id kv c id ignore s).1)
            (document_link_key id c.snapshot_id)
          ≡ undefined
  remove_by_id-erased id ignore s h = ground (arith, remove_by_id-cases id ignore s)
