-- ===== src/Find.antt =====
-- qdocdb/qdoccollection.cpp, the reads of QDocCollection: indexes, values by link key, `find` with
-- its callers, `getModified` and the list of snapshots.
pub mod Matches
pub mod Isolated
use qdocdb.Prelude.{
  ℕ, suc, ◌%◌, filter_by, Bool, true, false, Option, none, some, List, [], ◌∷◌, ◌++◌, map, Text,
  Bytes, codes, ◌==◌, assoc, length, if◌then◌else◌,
}
use qdocdb.Json.{
  Json, Fields, undefined, string, array, object, nil, cons, end, field, is_object, is_array,
  to_object,
}
use qdocdb.Qt.{Qt}
use qdocdb.Utils.{multiply}
use qdocdb.Serialize.{
  unmarshal, unmarshal_indexes, unmarshal_index_value, unmarshal_snapshots_value,
}
use qdocdb.Kv.{KvResult}
use qdocdb.Kv.Interface.{KvInterface}
use qdocdb.Collection.{
  Result, ok, err, error_database, error_invalid_object, undefined_behaviour, document_link_key,
  index_value_key,
}
use qdocdb.Collection.Iterator.{documents, value, key, is_modified_later}
use qdocdb.Query.{check_valid_r}
use qdocdb.Options.{apply_options}

-- What a collection reads from: the database that its iterators run over, and `kvdb->getValue`,
-- which in a transaction sees the transaction's own writes.
pub record Source (kv : KvInterface) : Type 0 where
  pub db : kv.Db
  pub read : Bytes → KvResult Bytes
  pub snapshot_id : ℕ

-- A found document, and the entry of `ids` that goes with it.
abbrev pub Reply : Type 0
Reply = List (Json × Bytes)

-- `indexOf`
unfoldable pub index_of : Text → List Text → Option ℕ
index_of s [] = none
index_of s (t ∷ l) =
    if t == s then some 0 else elim (index_of s l) [ none ↦ none | some i ↦ some (suc i) ]

module _ (kv : KvInterface) (qt : Qt) (src : Source kv) where
  open src use {db, read, snapshot_id}

  unfoldable pub get_indexes : List (Text × Text)
  get_indexes = elim (read (codes "in:")) [
    | KvResult.ok data_bytes ↦ unmarshal_indexes qt data_bytes
    | KvResult.failed e t ↦ unmarshal_indexes qt []
  ]

  unfoldable pub get_json_value_by_link_key : Bytes → Json
  get_json_value_by_link_key link_key = elim (read link_key) [
    | KvResult.ok data_bytes ↦ unmarshal qt data_bytes
    | KvResult.failed e t ↦ undefined
  ]

  unfoldable pub get_index_value_link_keys : Text → Json → Result (List Bytes)
  get_index_value_link_keys index_name v =
      elim (read (index_value_key qt index_name snapshot_id v)) [
        | KvResult.ok data_bytes ↦ ok (unmarshal_index_value qt data_bytes)
        | KvResult.failed e t ↦ err error_database
      ]

  unfoldable pub get_snapshots_value : Result (List Text)
  get_snapshots_value = elim (read (codes "s:")) [
    | KvResult.ok data_bytes ↦ ok (unmarshal_snapshots_value qt data_bytes)
    | KvResult.failed e t ↦ err error_database
  ]

  -- `snapshots.size() - 1`, as an unsigned char
  unfoldable pub get_last_snapshot_id : Result ℕ
  get_last_snapshot_id = elim get_snapshots_value [
    | err c ↦ err c
    | ok [] ↦ err error_database
    | ok (s ∷ snapshots) ↦ ok (length snapshots % 256)
  ]

  -- The link keys of the value of `_id` in a query: of a text, or of the texts of an array.
  unfoldable pub id_links : Json → List Bytes
  id_links (string s) = document_link_key (qt.to_local8bit s) snapshot_id ∷ []
  id_links (array nil) = []
  id_links (array (cons (string s) xs)) =
      document_link_key (qt.to_local8bit s) snapshot_id ∷ id_links (array xs)
  id_links (array (cons x xs)) = id_links (array xs)
  id_links _ = []

  -- The loop over the keys of the query; none until an index has been used (`firstFind`).
  unfoldable pub find_links :
      List (Text × Text) → Fields → Option (List Bytes) → Result (Option (List Bytes))
  find_links indexes end links = ok links
  find_links indexes (field k q fs) links =
      if k == codes "_id"
      then find_links indexes fs (some (elim links [ none ↦ [] | some l ↦ l ] ++ id_links q))
      else elim (assoc k indexes) [
        | none ↦ find_links indexes fs links
        | some index_name ↦
            if is_array q
            then find_links indexes fs links
            else if is_object q
            then find_links indexes fs links
            else elim (get_index_value_link_keys index_name q) [
              | err c ↦ err c
              | ok index_links ↦ elim links [
                | none ↦ find_links indexes fs (some index_links)
                | some l ↦ elim (multiply l index_links) [
                  | none ↦ err undefined_behaviour
                  | some m ↦ find_links indexes fs (some m)
                ]
              ]
            ]
      ]

  -- The loops over candidates: each object that satisfies the query is appended with its id. An
  -- error ends the loop and leaves what has been found.
  unfoldable pub select : Bool → Fields → List (Json × Bytes) → Result (Unit {0}) × Reply
  select junk query [] = (ok tt, [])
  select junk query ((v, id) ∷ candidates) =
      let (r, found) = select junk query candidates in
      if is_object v
      then elim (check_valid_r qt junk (object query) v true) [
        | err c ↦ (err c, [])
        | ok true ↦ (r, (v, id) ∷ found)
        | ok false ↦ (r, found)
      ]
      else (r, found)

  -- The documents of the full search, with their ids.
  unfoldable pub all_documents : List (Json × Bytes)
  all_documents = map (λ it. (value kv qt db it, key it)) (documents kv qt db snapshot_id)

  -- The search by index answers link keys in place of ids, and does not apply the options.
  unfoldable pub find : Bool → Fields → Fields → Result (Unit {0}) × Reply
  find junk query options = elim (find_links get_indexes query none) [
    | err c ↦ (err c, [])
    | ok (some links) ↦
        select junk query (map (λ link. (get_json_value_by_link_key link, link)) links)
    | ok none ↦
        let (r, found) = select junk query all_documents in
        elim r [ err c ↦ (err c, found) | ok u ↦ (ok u, apply_options qt options found) ]
  ]

  -- The reply of `findOne`: what it was before, unless something was found.
  unfoldable pub find_one : Bool → Fields → Fields → Fields → Result Fields
  find_one junk query options before = elim (find junk query options).0 [
    | err c ↦ err c
    | ok u ↦ ok (elim (find junk query options).1 [ [] ↦ before | (v, id) ∷ rest ↦ to_object v ])
  ]

  unfoldable pub count : Bool → Fields → Fields → Result ℕ
  count junk query options = elim (find junk query options).0 [
    | err c ↦ err c
    | ok u ↦ ok (length (find junk query options).1)
  ]

  -- `getModified`, of a collection and of a snapshot
  unfoldable pub get_modified : List Bytes
  get_modified = map key (filter_by (is_modified_later kv qt db) (documents kv qt db snapshot_id))

  -- The index as an unsigned char.
  unfoldable pub get_snapshot_id : Text → Result ℕ
  get_snapshot_id name = elim get_snapshots_value [
    | err c ↦ err c
    | ok snapshots ↦ elim (index_of name snapshots) [
      | none ↦ err error_invalid_object
      | some i ↦ ok (i % 256)
    ]
  ]
