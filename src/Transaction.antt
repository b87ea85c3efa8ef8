-- ===== src/Transaction.antt =====
-- qdocdb/qdoccollection.cpp, class QDocCollectionTransaction: the state of a transaction, its writes
-- to the key-value store, and the index values. A method is an action of `Exec`: a result, and the
-- state that it leaves, also where it fails.
pub mod Reads
pub mod Links
pub mod Stored
pub mod Inserted
pub mod Erased
pub mod Published
pub mod Indexed
pub mod Durable
pub mod IndexCreated
pub mod Insert
pub mod Remove
use qdocdb.Prelude.{
  ℕ, ◌≡◌, Bool, true, false, not, Option, none, some, List, [], ◌∷◌, ◌++◌, map, Text, Bytes, codes,
  contains, remove_all, drop, length, starts_with, assoc, assoc_put, if◌then◌else◌,
}
use qdocdb.Json.{Json, Fields, is_object, array, object, undefined, Items, nil, cons}
use qdocdb.Qt.{Qt}
use qdocdb.IdGen.{IdGen, System, CommonConfig}
use qdocdb.Utils.{get_json_value_by_path}
use qdocdb.Serialize.{
  marshal, marshal_indexes, marshal_index_value, unmarshal_index_value, marshal_snapshots_value,
}
use qdocdb.Kv.{KvResult, Entry}
use qdocdb.Kv.Interface.{KvInterface}
use qdocdb.Collection.{
  Code, Result, ok, err, error_database, kv_failed, document_start_key, document_link_key,
  index_value_key, index_value_key_of, index_value_start_key,
}
use qdocdb.Find.{Source, all_documents, get_indexes}

-- td_s_observer, without its id, which is its key
pub record Observer : Type 0 where
  pub query : Fields
  pub query_options : Fields
  pub reply : List Json
  pub triggered : Bool

abbrev pub Observers : Type 0
Observers = List (ℕ × Observer)

-- What a transaction changes: its writes, its copy of the observers, the last error, and the
-- generator of ids, which all collections share.
pub record Transaction (kv : KvInterface) : Type 0 where
  pub tx : kv.Tx
  pub observers : Observers
  pub last_error : Text
  pub id_gen : IdGen

-- What it does not change: the database below it, its snapshot, the configuration and the system.
pub record Context (kv : KvInterface) : Type 0 where
  pub qt : Qt
  pub db : kv.Db
  pub snapshot_id : ℕ
  pub config : CommonConfig
  pub system : System
  -- what an uninitialised Boolean variable holds
  pub junk : Bool

abbrev pub Exec : KvInterface → Type 0 → Type 0
Exec kv A = Transaction kv → Result A × Transaction kv

module _ {kv : KvInterface} {A : Type 0} where
  abbrev pub pure : A → Exec kv A
  pure a s = (ok a, s)

  abbrev pub fail : Code → Exec kv A
  fail c s = (err c, s)

module _ {kv : KvInterface} {A B : Type 0} where
  abbrev pub continue : Result A → (A → Exec kv B) → Exec kv B
  continue (ok a) f s = f a s
  continue (err c) f s = (err c, s)

  infixl 5 ◌>>=◌ ◌>>◌
  abbrev pub ◌>>=◌ : Exec kv A → (A → Exec kv B) → Exec kv B
  ◌>>=◌ m f s = let (r, s') = m s in continue r f s'

  abbrev pub ◌>>◌ : Exec kv A → Exec kv B → Exec kv B
  ◌>>◌ m n = m >>= λ _. n

module _ {kv : KvInterface} where
  -- `lastError = …; return code;`
  abbrev pub fail_with : {A : Type 0} → Code → Text → Exec kv A
  fail_with c t s = (err c, record s { last_error = t })

  -- After a write to the store: `lastError = kvdb->getLastError(); return errorDatabase;` if it failed
  unfoldable pub check_kv : KvResult (Unit {0}) × kv.Tx → Exec kv (Unit {0})
  check_kv (KvResult.ok u, tx) s = (ok tt, record s { tx = tx })
  check_kv (KvResult.failed e t, tx) s = (err error_database, record s { tx = tx; last_error = t })

module _ (kv : KvInterface) (c : Context kv) where
  open c use {qt, db, snapshot_id}

  unfoldable pub put_value : Bytes → Bytes → Exec kv (Unit {0})
  unfolding check_kv
  put_value k v s = check_kv (kv.put_value k v s.tx) s

  unfoldable pub delete_value : Bytes → Exec kv (Unit {0})
  unfolding check_kv
  delete_value k s = check_kv (kv.delete_value k s.tx) s

  abbrev pub read_value : Transaction kv → Bytes → KvResult Bytes
  read_value s k = kv.get_value k s.tx db

  -- What the methods that it inherits read from.
  abbrev pub source : Transaction kv → Source kv
  source s = record { db = db; read = read_value s; snapshot_id = snapshot_id }

  unfoldable pub put_indexes : List (Text × Text) → Exec kv (Unit {0})
  put_indexes indexes = put_value (codes "in:") (marshal_indexes qt indexes)

  unfoldable pub put_snapshots_value : List Text → Exec kv (Unit {0})
  put_snapshots_value snapshots = put_value (codes "s:") (marshal_snapshots_value qt snapshots)

  unfoldable pub put_json_value : Bytes → Json → Exec kv (Unit {0})
  put_json_value id v = do
    put_value (document_start_key id) []
    put_value (document_link_key id snapshot_id) (marshal qt v)

  -- The list of links of an index value: empty, if it has none yet.
  unfoldable pub links_of : Bytes → Transaction kv → List Bytes
  links_of ivkey s = elim (read_value s ivkey) [
    | KvResult.ok data_bytes ↦ unmarshal_index_value qt data_bytes
    | KvResult.failed e t ↦ unmarshal_index_value qt []
  ]

  unfoldable pub add_index_value : Text → Json → Bytes → Exec kv (Unit {0})
  unfolding links_of
  add_index_value index_name v id s =
      let ivkey = index_value_key qt index_name snapshot_id v in
      let links = links_of ivkey s in
      let link_key = document_link_key id snapshot_id in
      if contains link_key links
      then (ok tt, s)
      else put_value ivkey (marshal_index_value qt (links ++ link_key ∷ [])) s

  -- `addIndexValue` of a list of ids
  unfoldable pub add_index_values : Text → Json → List Bytes → Exec kv (Unit {0})
  add_index_values index_name v [] = pure tt
  add_index_values index_name v (id ∷ ids) = do
    add_index_value index_name v id
    add_index_values index_name v ids

  unfoldable pub remove_index_value : Text → Json → Bytes → Exec kv (Unit {0})
  remove_index_value index_name v link_key s =
      let ivkey = index_value_key qt index_name snapshot_id v in
      elim (read_value s ivkey) [
        | KvResult.failed e t ↦ (err error_database, record s { last_error = t })
        | KvResult.ok data_bytes ↦
            let links = unmarshal_index_value qt data_bytes in
            if contains link_key links
            then elim (remove_all link_key links) [
              | [] ↦ delete_value ivkey s
              | l ∷ ls ↦ put_value ivkey (marshal_index_value qt (l ∷ ls)) s
            ]
            else (ok tt, s)
      ]

  -- The loop of `createIndex` over the documents.
  unfoldable pub index_documents : Text → Text → List (Json × Bytes) → Exec kv (Unit {0})
  index_documents field_name index_name [] = pure tt
  index_documents field_name index_name ((v, id) ∷ docs) =
      if is_object v
      then (do
        add_index_value index_name (get_json_value_by_path qt v field_name) id
        index_documents field_name index_name docs)
      else index_documents field_name index_name docs

  unfoldable pub create_index : Text → Text → Exec kv (Unit {0})
  create_index field_name index_name s =
      let indexes = get_indexes kv qt (source s) in
      elim (assoc field_name indexes) [
        | some name ↦ (ok tt, s)
        | none ↦
            (do
              put_value (index_value_key_of qt index_name snapshot_id []) []
              index_documents field_name index_name (all_documents kv qt (source s))
              put_indexes (assoc_put field_name index_name indexes))
              s
      ]

  -- The loop of `copyIndexValues` over the values of one index.
  unfoldable pub copy_entries : Bytes → Bytes → List Entry → Exec kv (Unit {0})
  copy_entries src_start_key dst_start_key [] = pure tt
  copy_entries src_start_key dst_start_key ((k, v) ∷ rest) =
      if starts_with src_start_key k
      then (do
        put_value (dst_start_key ++ drop (length src_start_key) k) v
        copy_entries src_start_key dst_start_key rest)
      else pure tt

  unfoldable pub copy_indexes : ℕ → ℕ → List (Text × Text) → Exec kv (Unit {0})
  copy_indexes dst src [] = pure tt
  copy_indexes dst src ((field_name, index_name) ∷ indexes) =
      let src_start_key = index_value_start_key qt index_name src in
      let dst_start_key = index_value_start_key qt index_name dst in
      do
        copy_entries src_start_key dst_start_key (kv.seek src_start_key db)
        copy_indexes dst src indexes

  unfoldable pub copy_index_values : ℕ → ℕ → Exec kv (Unit {0})
  copy_index_values dst src s = copy_indexes dst src (get_indexes kv qt (source s)) s
