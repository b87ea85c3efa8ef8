-- ===== src/Examples.antt =====
-- The concrete data on which the model is run: a document database with an index, a transaction over
-- it, and a LevelDB that is a list of entries. The tests and examples are in the modules below.
mod Stores
mod Messages
mod Durability
mod Calls
mod Indexes
mod Documents
mod Transactions
mod Servers
mod Clients
use qdocdb.Prelude.{
  List, [], ◌∷◌, ◌++◌, Bytes, Text, codes, none, some, assoc, assoc_remove, ◌≡◌, refl, Distinct, ap,
  ◌∙◌, subst, Option, arith, if◌then◌else◌, ◌==◌, assoc-assoc_remove, true, false,
}
use qdocdb.Json.{
  Json, Fields, end, field, object, array, string, bool, double, null, undefined, nil, cons,
}
use qdocdb.Qt.{Qt}
use qdocdb.Qt.Concrete.{concrete_qt}
use qdocdb.Serialize.{marshal, marshal_indexes, marshal_snapshots_value}
use qdocdb.Kv.{Entry}
use qdocdb.Kv.Sorted.{ordered_put, from_bound, from_key, assoc-ordered_put}
use qdocdb.Kv.KvMap.{map_kv, from_key-append}
use qdocdb.Kv.KvMap as KvMap
use qdocdb.Kv.LevelDb.{
  LevelDb, LevelDbLaws, Status, good, bad, BatchOp, put, delete, batch_get, got,
}
use qdocdb.Collection.Iterator.Visible.{Versions}
use qdocdb.Collection.Iterator.Visit.{Document, encode, Seeks}
use qdocdb.Transaction.{Context, Transaction}

abbrev pub person : Text → Json → Fields
person id age = field (codes "_id") (string id) (field (codes "age") age end)

abbrev pub old_ann : Fields
old_ann = person (codes "a") (string (codes "30"))

abbrev pub new_ann : Fields
new_ann = person (codes "a") (string (codes "31"))

-- A document that the read-only key protects.
abbrev pub bob : Fields
bob = field (codes "_id") (string (codes "b")) (field (codes "ro") (bool true) end)

abbrev pub ann_versions : Versions
ann_versions =
    (0, marshal concrete_qt (object old_ann)) ∷ (2, marshal concrete_qt (object new_ann)) ∷ []

abbrev pub bob_versions : Versions
bob_versions = (1, marshal concrete_qt (object bob)) ∷ []

abbrev pub two_documents : List Document
two_documents =
    record { id = codes "a"; mark = []; versions = ann_versions }
    ∷ record { id = codes "b"; mark = []; versions = bob_versions }
    ∷ []

abbrev pub other_entries : List Entry
other_entries =
    (codes "in:", marshal_indexes concrete_qt ((codes "age", codes "by_age") ∷ []))
    ∷ (codes "s:", marshal_snapshots_value concrete_qt (codes "one" ∷ codes "__CURRENT" ∷ []))
    ∷ []

abbrev pub sample_db : List Entry
sample_db = encode two_documents other_entries

sample_db-Distinct : Distinct sample_db
unfolding assoc ◌==◌
sample_db-Distinct = (refl, (refl, (refl, (refl, (refl, (refl, (refl, tt)))))))

pub sample_db-Seeks : Seeks map_kv sample_db
sample_db-Seeks pre k v post e =
    ap (from_key k) e ∙ from_key-append k v pre post (subst Distinct e sample_db-Distinct)

abbrev pub sample_context : Context map_kv
sample_context = record {
  qt = concrete_qt;
  db = sample_db;
  snapshot_id = 1;
  config = record {
    is_custom_id_gen = true;
    read_only_key = codes "ro";
    read_only_key_valid = true;
    uuid_path = codes "uuid";
    uuid_path_valid = true;
  };
  system = record { msecs_since_epoch = 5000; create_uuid = λ n. n ∷ [] };
  junk = false;
}

abbrev pub fresh : Transaction map_kv
fresh = record {
  tx = KvMap.new_transaction;
  observers = [];
  last_error = [];
  id_gen = record { counter = 0; next_number = 0; uuids = 7 };
}

-- LevelDB as a list of entries whose writes never fail.
abbrev pub apply_batch : List BatchOp → List Entry → List Entry
apply_batch [] db = db
apply_batch (put k v ∷ b) db = apply_batch b (ordered_put k v db)
apply_batch (delete k ∷ b) db = apply_batch b (assoc_remove k db)

abbrev pub list_get : Option Bytes → Status Bytes
list_get none = bad (codes "NotFound: ")
list_get (some v) = good v

abbrev pub list_ldb : LevelDb
list_ldb = record {
  Db = List Entry;
  get = λ k db. list_get (assoc k db);
  put = λ k v db. good (ordered_put k v db);
  delete = λ k db. good (assoc_remove k db);
  write = λ b db. good (apply_batch b db);
  seek_to_first = λ db. db;
  seek = from_bound;
}

got-list_get : (o : Option Bytes) → got (list_get o) ≡ o
got-list_get none = refl
got-list_get (some v) = refl

assoc-apply_batch :
    (b : List BatchOp) (db : List Entry) (k : Bytes)
    → assoc k (apply_batch b db) ≡ batch_get b k (assoc k db)
unfolding batch_get
assoc-apply_batch [] db k = refl
assoc-apply_batch (put j v ∷ b) db k =
    ground (arith, assoc-ordered_put j k v db, assoc-apply_batch b (ordered_put j v db) k)
assoc-apply_batch (delete j ∷ b) db k =
    ground (arith, assoc-assoc_remove j k db, assoc-apply_batch b (assoc_remove j db) k)

pub list_ldb-LevelDbLaws : LevelDbLaws list_ldb
list_ldb-LevelDbLaws = record {
  get-write = λ b db db' k e.
      ground
        (arith, e, got-list_get (assoc k db), got-list_get (assoc k db'), assoc-apply_batch b db k);
}
