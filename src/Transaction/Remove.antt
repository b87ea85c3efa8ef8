-- ===== src/Transaction/Remove.antt =====
-- QDocCollectionTransaction::removeById, remove and set, and writeTransaction.
use qdocdb.Prelude.{
  ℕ, Bool, true, false, not, ◌&&◌, Option, none, some, List, [], ◌∷◌, ◌++◌, map, Text, Bytes, codes,
  eqb, remove_all, if◌then◌else◌,
}
use qdocdb.Json.{
  Json, Fields, undefined, array, object, nil, end, value, to_object, to_list, to_string, of_list,
  items_eq,
}
use qdocdb.Qt.{Qt}
use qdocdb.Utils.{get_json_value_by_path}
use qdocdb.Serialize.{marshal}
use qdocdb.Kv.{KvResult}
use qdocdb.Kv.Interface.{KvInterface}
use qdocdb.Collection.{
  Result, ok, err, error_database, error_object_is_read_only, error_write_transaction, kv_failed,
  document_start_key, document_link_key,
}
use qdocdb.Collection.Iterator.{Scan, get_scan, scanned_value}
use qdocdb.Query.{check_valid_r, same}
use qdocdb.Find.{find, get_indexes}
use qdocdb.Transaction.{
  Observer, Observers, Transaction, Context, Exec, pure, fail, fail_with, ◌>>=◌, ◌>>◌, source,
  delete_value, remove_index_value,
}
use qdocdb.Transaction.Insert.{insert, is_read_only, notify, options_alone}

-- The first document of a reply with the `_id` of `doc` is taken out, and the options are applied.
unfoldable pub take_out : Qt → Fields → Fields → List Json → List Json → List Json
take_out qt options doc before [] = before
take_out qt options doc before (v ∷ reply) =
    if same qt (value doc (codes "_id")) (value (to_object v) (codes "_id"))
    then options_alone qt options (before ++ reply)
    else take_out qt options doc (before ++ v ∷ []) reply

-- One observer of a transaction after its commit: if its reply differs from that in the collection,
-- it replaces that and the observer is triggered. `operator[]` makes an observer that is not there.
unfoldable pub publish_one : Qt → ℕ → Observer → Observers → Observers
publish_one qt id o [] =
    (
      id,
      record {
        query = end;
        query_options = end;
        reply = o.reply;
        triggered = not (items_eq qt.double_eq nil (of_list o.reply));
      },
    )
    ∷ []
publish_one qt id o ((j, b) ∷ rest) =
    if eqb j id
    then (
      j,
      (if items_eq qt.double_eq (of_list b.reply) (of_list o.reply)
          then b
          else record b { reply = o.reply; triggered = true }),
    )
      ∷ rest
    else (j, b) ∷ publish_one qt id o rest

unfoldable pub publish : Qt → Observers → Observers → Observers
publish qt [] base = base
publish qt ((id, o) ∷ own) base = publish qt own (publish_one qt id o base)

module _ (kv : KvInterface) (c : Context kv) where
  open c use {qt, db, snapshot_id, junk}

  -- The values of an array are removed one by one, any other value as it is.
  unfoldable pub remove_values : Text → List Json → Bytes → Exec kv (Unit {0})
  remove_values index_name [] link_key = pure tt
  remove_values index_name (v ∷ vs) link_key = do
    remove_index_value kv c index_name v link_key
    remove_values index_name vs link_key

  unfoldable pub values_of : Json → List Json
  values_of (array xs) = to_list xs
  values_of v = v ∷ []

  unfoldable pub remove_from_indexes : List (Text × Text) → Fields → Bytes → Exec kv (Unit {0})
  unfolding values_of
  remove_from_indexes [] doc link_key = pure tt
  remove_from_indexes ((field_name, index_name) ∷ indexes) doc link_key = do
    remove_values index_name (values_of (get_json_value_by_path qt (object doc) field_name))
        link_key
    remove_from_indexes indexes doc link_key

  unfoldable pub observe_remove : Fields → Observer → Observer
  observe_remove doc o = elim (check_valid_r qt junk (object o.query) (object doc) false) [
    | err e ↦ o
    | ok false ↦ o
    | ok true ↦ record o { reply = take_out qt o.query_options doc [] o.reply }
  ]

  -- A write of the store whose code is handed on.
  unfoldable pub put_marker : Bytes → Exec kv (Unit {0})
  put_marker k s =
      let (r, tx) = kv.put_value k (marshal qt undefined) s.tx in
      elim r [
        | KvResult.ok u ↦ (ok tt, record s { tx = tx })
        | KvResult.failed e t ↦ (err kv_failed, record s { tx = tx })
      ]

  -- Other versions of the document, which other snapshots may see, are kept: a marker hides them.
  unfoldable pub erase_document : Bytes → Bool → Exec kv (Unit {0})
  erase_document id alone =
      if alone
      then (do
        delete_value kv c (document_link_key id snapshot_id)
        delete_value kv c (document_start_key id))
      else put_marker (document_link_key id snapshot_id)

  -- Is the version that was read the snapshot's own, and the only one?
  unfoldable pub is_alone : Scan → Bool
  is_alone a = elim a.version [ none ↦ false | some s ↦ eqb s snapshot_id && a.is_naked ]

  -- `snapshotId` after the read: an object has been read from a version.
  unfoldable pub version_of : Scan → ℕ
  version_of a = elim a.version [ none ↦ 0 | some s ↦ s ]

  unfoldable pub remove_document : Bytes → Bool → Scan → Json → Exec kv (Unit {0})
  unfolding is_alone version_of
  remove_document id ignore_read_only_value a (object doc) =
      if is_read_only kv c (object doc) ignore_read_only_value
      then fail error_object_is_read_only
      else (do
        erase_document id (is_alone a)
        (λ s.
            remove_from_indexes (get_indexes kv qt (source kv c s)) doc
              (document_link_key id (version_of a)) s)
        notify kv c (observe_remove doc))
  remove_document id ignore_read_only_value a _ =
      fail_with error_database (codes "value is not object")

  unfoldable pub remove_by_id : Bytes → Bool → Exec kv (Unit {0})
  remove_by_id id ignore_read_only_value = elim (get_scan kv qt db id snapshot_id) [
    | none ↦ fail_with error_database (codes "value is not object")
    | some a ↦ remove_document id ignore_read_only_value a (scanned_value qt a)
  ]

  unfoldable pub remove_ids : List Bytes → Exec kv (Unit {0})
  remove_ids [] = pure tt
  remove_ids (id ∷ ids) = do remove_by_id id false; remove_ids ids

  unfoldable pub remove : Fields → Exec kv (Unit {0})
  remove query s = elim (find kv qt (source kv c s) junk query end).0 [
    | err e ↦ (err e, s)
    | ok u ↦ remove_ids (map (λ p. p.1) (find kv qt (source kv c s) junk query end).1) s
  ]

  -- The id of the first document of the reply that equals `doc`.
  unfoldable pub same_document : Json → List (Json × Bytes) → Option Bytes
  same_document doc [] = none
  same_document doc ((v, id) ∷ reply) =
      if same qt v doc
      then some (qt.to_latin1 (to_string (value (to_object v) (codes "_id"))))
      else same_document doc reply

  -- What `set` does with one document: the id that it then takes from the list, empty if none.
  unfoldable pub set_document : Fields → List (Json × Bytes) → Fields → Exec kv Bytes
  set_document query reply doc s = elim (same_document (object doc) reply) [
    | some id ↦ (ok id, s)
    | none ↦ elim (check_valid_r qt junk (object query) (object doc) false) [
      | err e ↦ (err e, s)
      | ok true ↦ insert kv c doc true false s
      | ok false ↦ (ok [], s)
    ]
  ]

  unfoldable pub set_documents :
      Fields → List (Json × Bytes) → List Json → List Bytes → Exec kv (List Bytes)
  set_documents query reply [] ids = pure ids
  set_documents query reply (object doc ∷ docs) ids = do
    id ← set_document query reply doc
    set_documents query reply docs (remove_all id ids)
  set_documents query reply (v ∷ docs) ids = set_documents query reply docs ids

  -- The result code of `find` is not looked at.
  unfoldable pub set : Fields → List Json → Exec kv (Unit {0})
  set query docs s =
      let reply = (find kv qt (source kv c s) junk query end).1 in
      (do ids ← set_documents query reply docs (map (λ p. p.1) reply); remove_ids ids) s

  -- The database and the observers of the parent collection after it.
  unfoldable pub write_transaction :
      Transaction kv → Observers → Result (Unit {0}) × Transaction kv × kv.Db × Observers
  write_transaction s base =
      let (r, db') = kv.write_transaction s.tx db in
      elim r [
        | KvResult.ok u ↦ (ok tt, s, db', publish qt s.observers base)
        | KvResult.failed e t ↦
            (err error_write_transaction, record s { last_error = t }, db', base)
      ]
