-- ===== src/Server/Durable.antt =====
-- A request to insert, down to the store.
use qdocdb.Prelude.{
  ℕ, zero, suc, ◌≡◌, refl, ◌∙◌, ap, negsuc, some, List, [], ◌∷◌, Text, codes, assoc,
  assoc-assoc_put, ==_iff, get_elem?, arith, inl, inr, Option-cases,
}
use qdocdb.Json.{Fields, object}
use qdocdb.Qt.{QtLaws}
use qdocdb.Serialize.{marshal}
use qdocdb.Kv.{KvResult, found}
use qdocdb.Kv.Interface.{KvInterface, KvLaws, CommitLaws}
use qdocdb.Collection.{ok, document_link_key}
use qdocdb.Transaction.{Transaction}
use qdocdb.Transaction.Insert.{insert}
use qdocdb.Transaction.Remove.{write_transaction}
use qdocdb.Transaction.Stored.{Kept}
use qdocdb.Transaction.Durable.{insert-durable}
use qdocdb.OpenCollection.{OpenCollection, context, start, new_transaction, commit, emit_observers}
use qdocdb.Database.{Database}
use qdocdb.Link.Types.{type_insert}
use qdocdb.Server.{
  Request, Place, Host, Server, insert_reply, collection_at, put_collection, replace_collection,
}
use qdocdb.Server.Operations.{done, ignores_read_only, write, alter, alter_alone}
use qdocdb.Server.Receive.{is_minus_one, on_collection, alter_documents, handle}
use qdocdb.Server.Tables.{IsOpen}

module _ (kv : KvInterface) where
  get_elem?-replace_collection :
      (i : ℕ) (coll : OpenCollection kv) (l : List (Text × OpenCollection kv))
      (x : Text × OpenCollection kv)
      → get_elem? l i ≡ some x
      → get_elem? (replace_collection kv i coll l) i ≡ some (x.0, coll)
  unfolding replace_collection
  get_elem?-replace_collection i coll [] x e = cc
  get_elem?-replace_collection zero coll (y ∷ l) x e = ground arith
  get_elem?-replace_collection (suc i) coll (y ∷ l) x e = get_elem?-replace_collection i coll l x e

  -- A collection that is put back is there.
  collection_at-put_collection :
      (p : Place) (coll old : OpenCollection kv) (s : Server kv)
      → collection_at kv p s ≡ some old
      → collection_at kv p (put_collection kv p coll s) ≡ some (record coll { emitted = [] })
  unfolding collection_at put_collection
  collection_at-put_collection p coll old s h = elim (Option-cases (assoc p.database s.databases)) [
    | inl e ↦ ground (arith, e, h)
    | inr (db, e) ↦
        let coll' : OpenCollection kv = record coll { emitted = [] } in
        let db' : Database kv = record db {
          coll_list = replace_collection kv p.index coll' db.coll_list;
        } in
        elim (Option-cases (get_elem? db.coll_list p.index)) [
          | inl f ↦ ground (arith, e, f, h)
          | inr (x, f) ↦ ground (
            arith,
            e,
            get_elem?-replace_collection p.index coll' db.coll_list x f,
            assoc-assoc_put p.database p.database db' s.databases,
            ==_iff p.database p.database,
          )
        ]
  ]

module _ (kv : KvInterface) (host : Host kv) where
  open host use {setup}

  abbrev inserted : Request → OpenCollection kv → Transaction kv
  inserted r coll =
      (insert kv (context kv setup coll) r.document r.overwrite (ignores_read_only r)
        (start kv setup coll)).1

  alter_alone-inserted :
      (r : Request) (coll : OpenCollection kv) (id : List ℕ)
      → IsOpen coll
      → r.type ≡ type_insert
      → (insert kv
          (context kv setup coll)
          r.document
          r.overwrite
          (ignores_read_only r)
          (start kv setup coll)).0
        ≡ ok id
      → (kv.write_transaction (inserted r coll).tx coll.db).0 ≡ KvResult.ok tt
      → ((alter_alone kv host r coll).0 ≡ done (some (insert_reply id)) [])
        × ((alter_alone kv host r coll).1.db
            ≡ (kv.write_transaction (inserted r coll).tx coll.db).1)
  unfolding alter_alone new_transaction alter write commit write_transaction emit_observers
  alter_alone-inserted r coll id o t i w = ground (arith, o, t, i, w)

  handle-inserted :
      (c : ℕ) (r : Request) (p : Place) (s : Server kv) (coll : OpenCollection kv)
      → collection_at kv p s ≡ some coll
      → r.type ≡ type_insert
      → r.transaction_id ≡ negsuc 0
      → handle kv host c r p s
        ≡ ((alter_alone kv host r coll).0, put_collection kv p (alter_alone kv host r coll).1 s)
  unfolding handle alter_documents is_minus_one on_collection
  handle-inserted c r p s coll e t n = ground (arith, e, t, n)

  -- Over a store whose successful commits make the database answer what the transaction answered, as
  -- LevelDB's do: a request to insert into a collection that is open, outside of a transaction, where the insert
  -- answers an id and the commit to the collection's store succeeds: the reply is that id, without an
  -- error, and the store of the collection that is then at the same place holds, at the link key of
  -- the id, a document whose members are those of the request's, but for `_id` and the path of the
  -- UUID.
  pub handle-durable :
      (laws : KvLaws kv) (cl : CommitLaws kv) (qt_laws : QtLaws setup.qt) (c : ℕ) (r : Request)
      (p : Place) (s : Server kv) (coll : OpenCollection kv) (id : List ℕ)
      → collection_at kv p s ≡ some coll
      → IsOpen coll
      → r.type ≡ type_insert
      → r.transaction_id ≡ negsuc 0
      → (insert kv
          (context kv setup coll)
          r.document
          r.overwrite
          (ignores_read_only r)
          (start kv setup coll)).0
        ≡ ok id
      → (kv.write_transaction (inserted r coll).tx coll.db).0 ≡ KvResult.ok tt
      → let (o, t) = handle kv host c r p s in
        (o ≡ done (some (insert_reply id)) [])
        × ((coll' : OpenCollection kv) × (collection_at kv p t ≡ some coll')
            × ((doc : Fields) × (found (kv.db_get (document_link_key id coll.snapshot_id) coll'.db)
                  ≡ some (marshal setup.qt (object doc)))
                × Kept (codes "_id") setup.config.uuid_path r.document doc))
  handle-durable laws cl qt_laws c r p s coll id e o ty n i w =
      let (reply, db) = alter_alone-inserted r coll id o ty i w in
      let coll' = (alter_alone kv host r coll).1 in
      let (doc, held, kept) =
        insert-durable kv laws cl (context kv setup coll) qt_laws r.document r.overwrite
          (ignores_read_only r) (start kv setup coll) id refl i w in
      let placed = collection_at-put_collection kv p coll' coll s e in
      let key = document_link_key id coll.snapshot_id in
      rw (handle-inserted c r p s coll e ty n) (
        reply,
        (
          record coll' { emitted = [] },
          placed,
          (doc, ap (λ d. found (kv.db_get key d)) db ∙ held, kept),
        ),
      )
