-- ===== src/Kv/KvMap.antt =====
-- qdocdb/qdockvmap.cpp: the database of an in-memory collection, and its transactions.
pub mod Commit
use qdocdb.Prelude.{
  ◌≡◌, ◌≢◌, refl, ◌++◌, Distinct, Bool, true, false, List, [], ◌∷◌, Bytes, Text, codes, Option,
  none, some, ◌==◌, ==_iff, assoc, assoc_put, assoc_remove, assoc-assoc_put, arith, if◌then◌else◌,
}
use qdocdb.Kv.{KvResult, ok, failed, error_operation, error_is_not_transaction, Entry, found}
use qdocdb.Kv.Sorted.{ordered_put, from_key}
use qdocdb.Kv.Interface.{KvInterface, KvLaws}

-- `QMap<QByteArray, QByteArray>* db`
abbrev pub Db : Type 0
Db = List Entry

abbrev pub not_found : Text
not_found = codes "Not found"

unfoldable pub db_get : Bytes → Db → KvResult Bytes
db_get k db = elim (assoc k db) [ none ↦ failed error_operation not_found | some v ↦ ok v ]

unfoldable pub db_put : Bytes → Bytes → Db → KvResult (Unit {0}) × Db
db_put k v db = (ok tt, ordered_put k v db)

unfoldable pub db_delete : Bytes → Db → KvResult (Unit {0}) × Db
db_delete k db = elim (assoc k db) [
  | none ↦ (failed error_operation not_found, db)
  | some v ↦ (ok tt, assoc_remove k db)
]

-- `writeTransaction` of what is no transaction
unfoldable pub db_write : Db → KvResult (Unit {0}) × Db
db_write db = (failed error_is_not_transaction [], db)

-- The hashes are association lists, in the order in which `keys()` gives them.
pub record MapTransaction : Type 0 where
  pub cache : List Entry
  pub cache_deleted : List (Bytes × Bool)

unfoldable pub new_transaction : MapTransaction
new_transaction = record { cache = []; cache_deleted = [] }

-- `cacheDeleted.contains(key) && cacheDeleted[key]`
unfoldable pub is_deleted : Bytes → MapTransaction → Bool
is_deleted k tx = elim (assoc k tx.cache_deleted) [ none ↦ false | some b ↦ b ]

unfoldable pub get_value : Bytes → MapTransaction → Db → KvResult Bytes
unfolding is_deleted db_get
get_value k tx db =
    if is_deleted k tx
    then failed error_operation not_found
    else elim (assoc k tx.cache) [ some v ↦ ok v | none ↦ db_get k db ]

unfoldable pub put_value : Bytes → Bytes → MapTransaction → KvResult (Unit {0}) × MapTransaction
put_value k v tx = (
  ok tt,
  record tx { cache = assoc_put k v tx.cache; cache_deleted = assoc_put k false tx.cache_deleted },
)

unfoldable pub delete_value : Bytes → MapTransaction → KvResult (Unit {0}) × MapTransaction
delete_value k tx = (ok tt, record tx { cache_deleted = assoc_put k true tx.cache_deleted })

-- The first loop of `writeTransaction`: what is marked deleted must be in the database.
unfoldable pub erase_deleted : List (Bytes × Bool) → Db → KvResult (Unit {0}) × Db
erase_deleted [] db = (ok tt, db)
erase_deleted ((k, b) ∷ m) db =
    let skip = erase_deleted m db in
    let erased = erase_deleted m (assoc_remove k db) in
    if b
    then elim (assoc k db) [ none ↦ (failed error_operation not_found, db) | some v ↦ erased ]
    else skip

-- The second loop.
unfoldable pub put_cached : List Entry → Db → Db
put_cached [] db = db
put_cached ((k, v) ∷ m) db = put_cached m (ordered_put k v db)

unfoldable pub write_transaction : MapTransaction → Db → KvResult (Unit {0}) × Db
write_transaction tx db =
    let (r, db') = erase_deleted tx.cache_deleted db in
    elim r [ ok u ↦ (ok u, put_cached tx.cache db') | failed e t ↦ (failed e t, db') ]

abbrev pub map_kv : KvInterface
map_kv = record {
  Db = Db;
  Tx = MapTransaction;
  db_get = db_get;
  seek_to_first = λ db. db;
  seek = from_key;
  new_transaction = new_transaction;
  get_value = get_value;
  put_value = put_value;
  delete_value = delete_value;
  write_transaction = write_transaction;
}

get-new : (j : Bytes) (db : Db) → found (get_value j new_transaction db) ≡ found (db_get j db)
unfolding get_value new_transaction assoc
get-new j db = refl

-- A read in a transaction sees the last write of the key.
get-put :
    (k v j : Bytes) (tx : MapTransaction) (db : Db)
    → found (get_value j (put_value k v tx).1 db)
      ≡ (if k == j then some v else found (get_value j tx db))
unfolding get_value put_value found
get-put k v j tx db =
    ground (arith, assoc-assoc_put k j v tx.cache, assoc-assoc_put k j false tx.cache_deleted)

get-delete :
    (k j : Bytes) (tx : MapTransaction) (db : Db)
    → found (get_value j (delete_value k tx).1 db)
      ≡ (if k == j then none else found (get_value j tx db))
unfolding get_value delete_value found
get-delete k j tx db = ground (arith, assoc-assoc_put k j true tx.cache_deleted)

-- The in-memory store keeps the laws of the interface: in a transaction writes and deletions
-- succeed, and a read of a key gives its last write, or nothing after its deletion, or what the
-- database holds.
pub map_kv-KvLaws : KvLaws map_kv
unfolding put_value delete_value
map_kv-KvLaws = record {
  get-new = get-new;
  put-ok = λ k v tx. refl;
  get-put = get-put;
  delete-ok = λ k tx. refl;
  get-delete = get-delete;
}

assoc-append : (k v : Bytes) (pre post : Db) → assoc k (pre ++ (k, v) ∷ post) ≢ none
unfolding assoc
assoc-append k v [] post = ground (arith, ==_iff k k)
assoc-append k v ((j, w) ∷ pre) post = ground (arith, assoc-append k v pre post)

-- In a map, which holds a key once, an iterator finds each key where it stands.
pub from_key-append :
    (k v : Bytes) (pre post : Db)
    → Distinct (pre ++ (k, v) ∷ post)
    → from_key k (pre ++ (k, v) ∷ post) ≡ (k, v) ∷ post
unfolding from_key
from_key-append k v [] post d = ground (arith, ==_iff k k)
from_key-append k v ((j, w) ∷ pre) post d =
    ground (arith, ==_iff j k, d.0, assoc-append k v pre post, from_key-append k v pre post d.1)
