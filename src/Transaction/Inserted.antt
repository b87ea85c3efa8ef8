-- ===== src/Transaction/Inserted.antt =====
-- What QDocCollectionTransaction::insert answers, on every branch.
use qdocdb.Prelude.{
  ◌≡◌, refl, ◌⊎◌, inl, inr, Bool, true, false, not, ◌&&◌, some, Text, Bytes, codes, if◌then◌else◌,
  arith, Bool-cases,
}
use qdocdb.Json.{Fields, object, string, value, has_key, is_undefined}
use qdocdb.Qt.{QtLaws}
use qdocdb.Serialize.{marshal}
use qdocdb.Kv.Interface.{KvInterface, KvLaws}
use qdocdb.Collection.{
  Result, ok, err, error_invalid_object, error_already_exists, error_object_is_read_only,
  document_link_key,
}
use qdocdb.Collection.Iterator.{get_json_value}
use qdocdb.IdGen.{get_id}
use qdocdb.Transaction.{Transaction, Context, Exec}
use qdocdb.Transaction.Reads.{holds}
use qdocdb.Transaction.Insert.{identify, is_read_only, store_document, insert}
use qdocdb.Transaction.Stored.{Kept, value-insert_field, store_document-holds}

module _ (kv : KvInterface) (laws : KvLaws kv) (c : Context kv) (qt_laws : QtLaws c.qt) where
  -- What `insert` does with a document and its id.
  unfoldable pub insert_as : Bytes → Fields → Bool → Bool → Exec kv Bytes
  insert_as id doc overwrite ignore_read_only_value s =
      let doc_old = get_json_value kv c.qt c.db id c.snapshot_id in
      let exists = not (is_undefined doc_old) in
      if exists && not overwrite
      then (err error_already_exists, s)
      else if exists && is_read_only kv c doc_old ignore_read_only_value
      then (err error_object_is_read_only, s)
      else store_document kv c exists id doc s

  -- What `identify` answers: an id, with a document that may have been given it, or an error.
  abbrev Identified : Fields → Transaction kv → Result (Bytes × Fields) → Type 0
  Identified doc0 s (ok (id, doc)) = Kept (codes "_id") c.config.uuid_path doc0 doc
  Identified doc0 s (err e) = e ≡ error_invalid_object

  pub identify-Identified :
      (doc0 : Fields) (s : Transaction kv)
      → Identified doc0 s (identify kv c doc0 s).0
        × ((identify kv c doc0 s).1.tx ≡ s.tx)
        × ((identify kv c doc0 s).1.observers ≡ s.observers)
  unfolding identify
  identify-Identified doc0 s = elim (Bool-cases (has_key doc0 (codes "_id"))) [
    | inl e ↦ ground (arith, e)
    | inr e ↦ rw e (
      λ k. ground (
        arith,
        value-insert_field (codes "_id") k
            (string (c.qt.from_latin1 (get_id c.qt c.system s.id_gen).0)) doc0,
      ),
      refl,
      refl,
    )
  ]

  pub insert-eq :
      (doc0 : Fields) (overwrite ignore : Bool) (s : Transaction kv)
      → insert kv c doc0 overwrite ignore s ≡ elim (identify kv c doc0 s).0 [
        | ok x ↦ insert_as x.0 x.1 overwrite ignore (identify kv c doc0 s).1
        | err e ↦ (err e, (identify kv c doc0 s).1)
      ]
  unfolding insert insert_as
  insert-eq doc0 overwrite ignore s = ground arith

  -- What `insert` may have done: refused the document, or written it under its id.
  abbrev pub Inserted : Fields → Transaction kv → Result Bytes × Transaction kv → Type 0
  Inserted doc0 s (err e, s') =
      ((e ≡ error_invalid_object) ⊎ (e ≡ error_already_exists) ⊎ (e ≡ error_object_is_read_only))
      × (s'.tx ≡ s.tx)
      × (s'.observers ≡ s.observers)
  Inserted doc0 s (ok id, s') =
      (doc : Fields) × (holds kv c s' (document_link_key id c.snapshot_id)
        ≡ some (marshal c.qt (object doc)))
      × Kept (codes "_id") c.config.uuid_path doc0 doc

  Inserted-ok :
      (doc0 : Fields) (s : Transaction kv) (id : Bytes) (r : Result Bytes × Transaction kv)
      → r.0 ≡ ok id
      → ((doc : Fields) × (holds kv c r.1 (document_link_key id c.snapshot_id)
            ≡ some (marshal c.qt (object doc)))
          × Kept (codes "_id") c.config.uuid_path doc0 doc)
      → Inserted doc0 s r
  Inserted-ok doc0 s id (ok i, s') h (doc, a, b) = (doc, ground arith, b)
  Inserted-ok doc0 s id (err e, s') h x = absurd (cc)

  insert_as-Inserted :
      (doc0 : Fields) (s0 : Transaction kv) (id : Bytes) (doc : Fields) (overwrite ignore : Bool)
      (s : Transaction kv)
      → s.tx ≡ s0.tx
      → s.observers ≡ s0.observers
      → Kept (codes "_id") c.config.uuid_path doc0 doc
      → Inserted doc0 s0 (insert_as id doc overwrite ignore s)
  unfolding insert_as
  insert_as-Inserted doc0 s0 id doc overwrite ignore s t o kept =
      let doc_old = get_json_value kv c.qt c.db id c.snapshot_id in
      let exists = not (is_undefined doc_old) in
      elim (Bool-cases (exists && not overwrite)) [
        | inl e ↦ rw e (inr (inl refl), t, o)
        | inr e ↦ elim (Bool-cases (exists && is_read_only kv c doc_old ignore)) [
          | inl f ↦ rw (e, f) (inr (inr refl), t, o)
          | inr f ↦
              let st = store_document-holds kv laws c qt_laws exists id doc s in
              let (stored, a, b) = st.1 in
              rw (e, f)
                (Inserted-ok doc0 s0 id (store_document kv c exists id doc s) st.0
                  (stored, a, λ k. ground (arith, b k, kept k)))
        ]
      ]

  resumed-Inserted :
      (doc0 : Fields) (overwrite ignore : Bool) (s s' : Transaction kv)
      (r : Result (Bytes × Fields))
      → Identified doc0 s r
      → s'.tx ≡ s.tx
      → s'.observers ≡ s.observers
      → Inserted doc0 s
          (elim r [ ok x ↦ insert_as x.0 x.1 overwrite ignore s' | err e ↦ (err e, s') ])
  resumed-Inserted doc0 overwrite ignore s s' (ok (id, doc)) i t o =
      insert_as-Inserted doc0 s id doc overwrite ignore s' t o i
  resumed-Inserted doc0 overwrite ignore s s' (err e) i t o = (inl i, t, o)

  -- An insert either fails with errorInvalidObject, errorAlreadyExists or errorObjectIsReadOnly, and
  -- then it has written nothing and has changed no observer; or it succeeds, and then the
  -- transaction finds at the link key of the id a document whose members are those of the given one,
  -- but for `_id` and the path of the UUID.
  pub insert-Inserted :
      (doc0 : Fields) (overwrite ignore : Bool) (s : Transaction kv)
      → Inserted doc0 s (insert kv c doc0 overwrite ignore s)
  insert-Inserted doc0 overwrite ignore s =
      let (i, t, o) = identify-Identified doc0 s in
      rw (insert-eq doc0 overwrite ignore s) (
        resumed-Inserted doc0 overwrite ignore s (identify kv c doc0 s).1 (identify kv c doc0 s).0 i
          t o)

  -- The answer to an insert of a document whose `_id` is a text, by what a read of that id from the
  -- database below the transaction gives: errorAlreadyExists if it gives a value and the insert may
  -- not overwrite; errorObjectIsReadOnly if it gives a value that the read-only key protects; the
  -- document's own id otherwise.
  pub insert-answer :
      (doc0 : Fields) (t : Text) (overwrite ignore : Bool) (s : Transaction kv)
      → has_key doc0 (codes "_id") ≡ true
      → value doc0 (codes "_id") ≡ string t
      → let id = c.qt.to_latin1 t in
        let doc_old = get_json_value kv c.qt c.db id c.snapshot_id in
        (insert kv c doc0 overwrite ignore s).0 ≡ (
          if is_undefined doc_old
          then ok id
          else if not overwrite
          then err error_already_exists
          else if is_read_only kv c doc_old ignore
          then err error_object_is_read_only
          else ok id)
  unfolding insert identify
  insert-answer doc0 t overwrite ignore s h v =
      let id = c.qt.to_latin1 t in
      ground (
        arith,
        (store_document-holds kv laws c qt_laws true id doc0 s).0,
        (store_document-holds kv laws c qt_laws false id doc0 s).0,
      )
