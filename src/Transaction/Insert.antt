-- ===== src/Transaction/Insert.antt =====
-- QDocCollectionTransaction::insert and the observers that it updates.
use qdocdb.Prelude.{
  pos, suc, zero, ℤ, Bool, true, false, not, ◌&&◌, ◌||◌, List, [], ◌∷◌, ◌++◌, map, Text, Bytes,
  codes, if◌then◌else◌,
}
use qdocdb.Json.{
  Json, Fields, string, object, value, has_key, insert_field, is_undefined, to_bool, to_object,
}
use qdocdb.Qt.{Qt}
use qdocdb.IdGen.{get_id, get_uuid, is_read_only_key_valid, is_uuid_path_valid}
use qdocdb.Utils.{get_json_value_by_path}
use qdocdb.Kv.Interface.{KvInterface}
use qdocdb.Collection.{
  ok, err, error_invalid_object, error_already_exists, error_object_is_read_only,
}
use qdocdb.Collection.Iterator.{get_json_value}
use qdocdb.Query.{check_valid_r, same}
use qdocdb.Options.{apply_options, to_int, docs_of}
use qdocdb.Find.{get_indexes}
use qdocdb.Transaction.{
  Observer, Observers, Context, Exec, pure, fail, fail_with, ◌>>=◌, ◌>>◌, source, put_json_value,
  add_index_value,
}

unfoldable pub is_one : ℤ → Bool
is_one (pos (suc zero)) = true
is_one _ = false

-- The first document of a reply with the `_id` of `doc` is replaced.
unfoldable pub replace_in : Qt → Fields → List Json → List Json
replace_in qt doc [] = []
replace_in qt doc (v ∷ reply) =
    if same qt (value doc (codes "_id")) (value (to_object v) (codes "_id"))
    then object doc ∷ reply
    else v ∷ replace_in qt doc reply

-- `applyOptions` with `pIds` NULL
unfoldable pub options_alone : Qt → Fields → List Json → List Json
options_alone qt options reply =
    docs_of (apply_options {A = Unit {0}} qt options (map (λ v. (v, tt)) reply))

module _ (kv : KvInterface) (c : Context kv) where
  open c use {qt, db, snapshot_id, config, system, junk}

  -- The id of a document: its `_id`, or a new one that the document is given.
  unfoldable pub identify : Fields → Exec kv (Bytes × Fields)
  identify doc s =
      if has_key doc (codes "_id")
      then elim (value doc (codes "_id")) [
        | string id ↦ (ok (qt.to_latin1 id, doc), s)
        | _ ↦ fail_with error_invalid_object (codes "_id value is not string") s
      ]
      else (let (id, g) = get_id qt system s.id_gen in
          (
            ok (id, insert_field (codes "_id") (string (qt.from_latin1 id)) doc),
            record s { id_gen = g },
          ))

  -- Does the read-only key forbid to change a document?
  unfoldable pub is_read_only : Json → Bool → Bool
  unfolding is_one
  is_read_only doc_old ignore_read_only_value =
      let v = get_json_value_by_path qt doc_old config.read_only_key in
      is_read_only_key_valid config
      && (not ignore_read_only_value
          && (not (is_undefined v) && (to_bool v || is_one (to_int qt v))))

  -- A new document is given a UUID, if the configuration asks for one and it has none.
  unfoldable pub add_uuid : Bool → Fields → Exec kv Fields
  add_uuid exists doc s =
      if not exists && (is_uuid_path_valid config && not (has_key doc config.uuid_path))
      then (let (uuid, g) = get_uuid system s.id_gen in
          (
            ok (insert_field config.uuid_path (string (qt.from_latin1 uuid)) doc),
            record s { id_gen = g },
          ))
      else (ok doc, s)

  unfoldable pub add_to_indexes : List (Text × Text) → Fields → Bytes → Exec kv (Unit {0})
  add_to_indexes [] doc id = pure tt
  add_to_indexes ((field_name, index_name) ∷ indexes) doc id = do
    add_index_value kv c index_name (get_json_value_by_path qt (object doc) field_name) id
    add_to_indexes indexes doc id

  unfoldable pub observe_insert : Bool → Fields → Observer → Observer
  observe_insert exists doc o = elim (check_valid_r qt junk (object o.query) (object doc) false) [
    | err e ↦ o
    | ok false ↦ o
    | ok true ↦ record o {
      reply =
          options_alone qt o.query_options
            (if exists then replace_in qt doc o.reply else o.reply ++ object doc ∷ []);
    }
  ]

  unfoldable pub observe_all : (Observer → Observer) → Observers → Observers
  observe_all f = map (λ p. (p.0, f p.1))

  unfoldable pub notify : (Observer → Observer) → Exec kv (Unit {0})
  notify f s = (ok tt, record s { observers = observe_all f s.observers })

  -- What follows once the document may be written.
  unfoldable pub store_document : Bool → Bytes → Fields → Exec kv Bytes
  store_document exists id doc0 = do
    doc ← add_uuid exists doc0
    put_json_value kv c id (object doc)
    (λ s. add_to_indexes (get_indexes kv qt (source kv c s)) doc id s)
    notify (observe_insert exists doc)
    pure id

  -- `getJsonValue` reads through an iterator, and so from the database below the transaction.
  unfoldable pub insert : Fields → Bool → Bool → Exec kv Bytes
  insert doc0 overwrite ignore_read_only_value = do
    (id, doc) ← identify doc0
    let doc_old = get_json_value kv qt db id snapshot_id
    let exists = not (is_undefined doc_old)
    if exists && not overwrite
        then fail error_already_exists
        else if exists && is_read_only doc_old ignore_read_only_value
        then fail error_object_is_read_only
        else store_document exists id doc
