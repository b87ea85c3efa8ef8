-- ===== src/Transaction/Durable.antt =====
-- Inserts over a store whose commits can be relied on: what has been inserted is in the database.
use qdocdb.Prelude.{
  ◌≡◌, refl, sym, subst, ◌∙◌, Bool, some, List, [], ◌∷◌, ◌++◌, Text, Bytes, arith, not, codes,
}
use qdocdb.Json.{Json, Fields, object, is_undefined}
use qdocdb.Qt.{QtLaws}
use qdocdb.Utils.{get_json_value_by_path}
use qdocdb.Serialize.{marshal, marshal_index_value}
use qdocdb.Kv.{KvResult, found}
use qdocdb.Kv.Interface.{KvInterface, KvLaws, CommitLaws}
use qdocdb.Collection.{Result, ok, err, document_link_key, index_value_key}
use qdocdb.Collection.Iterator.{get_json_value}
use qdocdb.Find.{get_indexes}
use qdocdb.Transaction.{Transaction, Context, source, put_value, put_json_value, add_index_value}
use qdocdb.Transaction.Reads.{holds, put_value-eq, put_json_value-eq}
use qdocdb.Transaction.Links.{links_in, add_index_value-cases, add_index_value-links}
use qdocdb.Transaction.Insert.{identify, add_to_indexes, notify, store_document, insert}
use qdocdb.Transaction.Stored.{Kept, add_uuid-eq}
use qdocdb.Transaction.Inserted.{
  Inserted, insert-Inserted, identify-Identified, insert_as, insert-eq,
}

module _ (kv : KvInterface) (laws : KvLaws kv) (cl : CommitLaws kv) (c : Context kv)
    (qt_laws : QtLaws c.qt) where
  -- The transaction's writes are such that its commit can be relied on.
  abbrev IsReliable : Transaction kv → Type 0
  IsReliable s = cl.Consistent s.tx

  put_value-IsReliable :
      (k v : Bytes) (s : Transaction kv) → IsReliable s → IsReliable (put_value kv c k v s).1
  put_value-IsReliable k v s h = rw (put_value-eq kv laws c k v s) (cl.put-Consistent k v s.tx h)

  put_json_value-IsReliable :
      (id : Bytes) (v : Json) (s : Transaction kv)
      → IsReliable s
      → IsReliable (put_json_value kv c id v s).1
  put_json_value-IsReliable id v s h =
      rw (put_json_value-eq kv laws c id v s)
        (put_value-IsReliable _ _ _ (put_value-IsReliable _ _ s h))

  add_index_value-IsReliable :
      (n : Text) (v : Json) (id : Bytes) (s : Transaction kv)
      → IsReliable s
      → IsReliable (add_index_value kv c n v id s).1
  add_index_value-IsReliable n v id s h =
      let k = index_value_key c.qt n c.snapshot_id v in
      let links = links_in c.qt (holds kv c s k) in
      ground (
        arith,
        add_index_value-cases kv laws c n v id s,
        put_value-IsReliable k
            (marshal_index_value c.qt (links ++ document_link_key id c.snapshot_id ∷ [])) s h,
      )

  add_to_indexes-IsReliable :
      (indexes : List (Text × Text)) (doc : Fields) (id : Bytes) (s : Transaction kv)
      → IsReliable s
      → IsReliable (add_to_indexes kv c indexes doc id s).1
  unfolding add_to_indexes
  add_to_indexes-IsReliable [] doc id s h = h
  add_to_indexes-IsReliable ((f, n) ∷ indexes) doc id s h =
      let v = get_json_value_by_path c.qt (object doc) f in
      let s1 = (add_index_value kv c n v id s).1 in
      ground (
        arith,
        add_index_value-links kv laws c qt_laws n v id s,
        add_to_indexes-IsReliable indexes doc id s1 (add_index_value-IsReliable n v id s h),
      )

  add_to_indexes-ok :
      (indexes : List (Text × Text)) (doc : Fields) (id : Bytes) (s : Transaction kv)
      → (add_to_indexes kv c indexes doc id s).0 ≡ ok tt
  unfolding add_to_indexes
  add_to_indexes-ok [] doc id s = refl
  add_to_indexes-ok ((f, n) ∷ indexes) doc id s =
      let v = get_json_value_by_path c.qt (object doc) f in
      ground (
        arith,
        add_index_value-links kv laws c qt_laws n v id s,
        add_to_indexes-ok indexes doc id (add_index_value kv c n v id s).1,
      )

  store_document-IsReliable :
      (exists : Bool) (id : Bytes) (doc0 : Fields) (s : Transaction kv)
      → IsReliable s
      → IsReliable (store_document kv c exists id doc0 s).1
  unfolding store_document notify
  store_document-IsReliable exists id doc0 s h =
      let (doc, g, e, kept) = add_uuid-eq kv laws c qt_laws exists doc0 s in
      let s0 : Transaction kv = record s { id_gen = g } in
      let s1 = (put_json_value kv c id (object doc) s0).1 in
      let h1 : IsReliable s1 = put_json_value-IsReliable id (object doc) s0 h in
      let indexes = get_indexes kv c.qt (source kv c s1) in
      rw e (
        ground (
          arith,
          put_json_value-eq kv laws c id (object doc) s0,
          h1,
          add_to_indexes-ok indexes doc id s1,
          add_to_indexes-IsReliable indexes doc id s1 h1,
        ))

  insert_as-IsReliable :
      (id : Bytes) (doc : Fields) (overwrite ignore : Bool) (s : Transaction kv)
      → IsReliable s
      → IsReliable (insert_as kv laws c qt_laws id doc overwrite ignore s).1
  unfolding insert_as
  insert_as-IsReliable id doc overwrite ignore s h =
      let exists = not (is_undefined (get_json_value kv c.qt c.db id c.snapshot_id)) in
      ground (arith, h, store_document-IsReliable exists id doc s h)

  resumed-IsReliable :
      (r : Result (Bytes × Fields)) (overwrite ignore : Bool) (s : Transaction kv)
      → IsReliable s
      → IsReliable
          (elim r as (λ x. Result Bytes × Transaction kv) [
            | ok x ↦ insert_as kv laws c qt_laws x.0 x.1 overwrite ignore s
            | err e ↦ (err e, s)
          ]).1
  resumed-IsReliable (ok (id, doc)) overwrite ignore s h =
      insert_as-IsReliable id doc overwrite ignore s h
  resumed-IsReliable (err e) overwrite ignore s h = h

  -- An insert keeps the transaction reliable, whatever it answers.
  insert-IsReliable :
      (doc0 : Fields) (overwrite ignore : Bool) (s : Transaction kv)
      → IsReliable s
      → IsReliable (insert kv c doc0 overwrite ignore s).1
  insert-IsReliable doc0 overwrite ignore s h =
      let (i, t, o) = identify-Identified kv laws c qt_laws doc0 s in
      rw (insert-eq kv laws c qt_laws doc0 overwrite ignore s) (
        resumed-IsReliable (identify kv c doc0 s).0 overwrite ignore (identify kv c doc0 s).1
          (subst cl.Consistent (sym t) h))

  Inserted-read :
      (doc0 : Fields) (s : Transaction kv) (id : Bytes) (r : Result Bytes × Transaction kv)
      → Inserted kv laws c qt_laws doc0 s r
      → r.0 ≡ ok id
      → (doc : Fields) × (holds kv c r.1 (document_link_key id c.snapshot_id)
          ≡ some (marshal c.qt (object doc)))
        × Kept (codes "_id") c.config.uuid_path doc0 doc
  Inserted-read doc0 s id (ok i, s') (doc, a, b) e = (doc, ground arith, b)
  Inserted-read doc0 s id (err x, s') i e = absurd (cc)

  -- An insert into a new transaction that answers an id, and a commit of the transaction to its
  -- database that succeeds: the database then holds, at the link key of the id, a document whose
  -- members are those of the given one, but for `_id` and the path of the UUID.
  pub insert-durable :
      (doc0 : Fields) (overwrite ignore : Bool) (s : Transaction kv) (id : Bytes)
      → s.tx ≡ kv.new_transaction
      → (insert kv c doc0 overwrite ignore s).0 ≡ ok id
      → (kv.write_transaction (insert kv c doc0 overwrite ignore s).1.tx c.db).0 ≡ KvResult.ok tt
      → (doc : Fields) × (found (
            kv.db_get
              (document_link_key id c.snapshot_id)
              (kv.write_transaction (insert kv c doc0 overwrite ignore s).1.tx c.db).1)
          ≡ some (marshal c.qt (object doc)))
        × Kept (codes "_id") c.config.uuid_path doc0 doc
  insert-durable doc0 overwrite ignore s id new done committed =
      let r = insert kv c doc0 overwrite ignore s in
      let (doc, a, b) =
        Inserted-read doc0 s id r (insert-Inserted kv laws c qt_laws doc0 overwrite ignore s)
          done in
      let reliable : IsReliable r.1 =
        insert-IsReliable doc0 overwrite ignore s
          (subst cl.Consistent (sym new) cl.new-Consistent) in
      (
        doc,
        cl.commit-reads r.1.tx c.db (document_link_key id c.snapshot_id) reliable committed ∙ a,
        b,
      )
