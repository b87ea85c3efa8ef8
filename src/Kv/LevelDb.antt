-- ===== src/Kv/LevelDb.antt =====
-- qdocdb/qdockvleveldb.cpp: the database of a collection on disk. LevelDB itself is a parameter.
pub mod Commit
use qdocdb.Prelude.{
  ◌≡◌, refl, Bool, true, false, List, [], ◌∷◌, ◌++◌, Bytes, Text, codes, Option, none, some, ◌==◌,
  assoc, assoc_put, assoc-assoc_put, arith, if◌then◌else◌,
}
use qdocdb.Kv.{
  KvResult, ok, failed, error_operation, error_is_not_transaction, error_write_transaction, Entry,
  found,
}
use qdocdb.Kv.Interface.{KvInterface, KvLaws}

-- leveldb::Status, with the text of a failure (a key that is not there is a failure of `Get`)
pub data Status {ℓ} (A : Type ℓ) : Type ℓ where
  good : A → Status A
  bad : Text → Status A

-- An entry of a leveldb::WriteBatch.
pub data BatchOp : Type 0 where
  put : Bytes → Bytes → BatchOp
  delete : Bytes → BatchOp

-- What a key holds after the updates of a batch, applied in order.
unfoldable pub batch_get : List BatchOp → Bytes → Option Bytes → Option Bytes
batch_get [] k o = o
batch_get (put j v ∷ b) k o = batch_get b k (if j == k then some v else o)
batch_get (delete j ∷ b) k o = batch_get b k (if j == k then none else o)

abbrev pub got {ℓ} : {A : Type ℓ} → Status A → Option A
got (good a) = some a
got (bad t) = none

-- leveldb::DB: `Get`, `Put`, `Delete`, `Write`, and an iterator from a position on.
pub record LevelDb : Type 1 where
  pub Db : Type 0
  pub get : Bytes → Db → Status Bytes
  pub put : Bytes → Bytes → Db → Status Db
  pub delete : Bytes → Db → Status Db
  pub write : List BatchOp → Db → Status Db
  pub seek_to_first : Db → List Entry
  pub seek : Bytes → Db → List Entry

-- The documented behaviour of `Write`: the updates are applied in order, all of them.
pub record LevelDbLaws (ldb : LevelDb) : Type 0 where
  pub get-write :
      (b : List BatchOp) (db db' : ldb.Db) (k : Bytes)
      → ldb.write b db ≡ good db'
      → got (ldb.get k db') ≡ batch_get b k (got (ldb.get k db))

pub record LevelDbTransaction : Type 0 where
  pub batch : List BatchOp
  pub cache : List Entry
  pub cache_deleted : List (Bytes × Bool)

unfoldable pub new_transaction : LevelDbTransaction
new_transaction = record { batch = []; cache = []; cache_deleted = [] }

unfoldable pub is_deleted : Bytes → LevelDbTransaction → Bool
is_deleted k tx = elim (assoc k tx.cache_deleted) [ none ↦ false | some b ↦ b ]

unfoldable pub put_value :
    Bytes → Bytes → LevelDbTransaction → KvResult (Unit {0}) × LevelDbTransaction
put_value k v tx = (
  ok tt,
  record {
    batch = tx.batch ++ put k v ∷ [];
    cache = assoc_put k v tx.cache;
    cache_deleted = assoc_put k false tx.cache_deleted;
  },
)

unfoldable pub delete_value : Bytes → LevelDbTransaction → KvResult (Unit {0}) × LevelDbTransaction
delete_value k tx = (
  ok tt,
  record tx {
    batch = tx.batch ++ delete k ∷ [];
    cache_deleted = assoc_put k true tx.cache_deleted;
  },
)

module _ (ldb : LevelDb) where
  -- `setLastError(status)` and the operation's error code
  unfoldable pub of_status : Status Bytes → KvResult Bytes
  of_status (good v) = ok v
  of_status (bad t) = failed error_operation t

  unfoldable pub changed : Status ldb.Db → ldb.Db → KvResult (Unit {0}) × ldb.Db
  changed (good db') db = (ok tt, db')
  changed (bad t) db = (failed error_operation t, db)

  unfoldable pub db_get : Bytes → ldb.Db → KvResult Bytes
  unfolding of_status
  db_get k db = of_status (ldb.get k db)

  unfoldable pub db_put : Bytes → Bytes → ldb.Db → KvResult (Unit {0}) × ldb.Db
  unfolding changed
  db_put k v db = changed (ldb.put k v db) db

  unfoldable pub db_delete : Bytes → ldb.Db → KvResult (Unit {0}) × ldb.Db
  unfolding changed
  db_delete k db = changed (ldb.delete k db) db

  -- `writeTransaction` of what is no transaction
  unfoldable pub db_write : ldb.Db → KvResult (Unit {0}) × ldb.Db
  db_write db = (failed error_is_not_transaction [], db)

  unfoldable pub get_value : Bytes → LevelDbTransaction → ldb.Db → KvResult Bytes
  unfolding is_deleted db_get
  get_value k tx db =
      if is_deleted k tx
      then failed error_operation (codes "Not found")
      else elim (assoc k tx.cache) [ some v ↦ ok v | none ↦ db_get k db ]

  unfoldable pub write_transaction : LevelDbTransaction → ldb.Db → KvResult (Unit {0}) × ldb.Db
  write_transaction tx db = elim (ldb.write tx.batch db) [
    | good db' ↦ (ok tt, db')
    | bad t ↦ (failed error_write_transaction t, db)
  ]

  abbrev pub leveldb_kv : KvInterface
  leveldb_kv = record {
    Db = ldb.Db;
    Tx = LevelDbTransaction;
    db_get = db_get;
    seek_to_first = ldb.seek_to_first;
    seek = ldb.seek;
    new_transaction = new_transaction;
    get_value = get_value;
    put_value = put_value;
    delete_value = delete_value;
    write_transaction = write_transaction;
  }

  get-new : (j : Bytes) (db : ldb.Db) → found (get_value j new_transaction db) ≡ found (db_get j db)
  unfolding get_value new_transaction assoc
  get-new j db = refl

  -- A read in a transaction sees the last write of the key.
  get-put :
      (k v j : Bytes) (tx : LevelDbTransaction) (db : ldb.Db)
      → found (get_value j (put_value k v tx).1 db)
        ≡ (if k == j then some v else found (get_value j tx db))
  unfolding get_value put_value found
  get-put k v j tx db =
      ground (arith, assoc-assoc_put k j v tx.cache, assoc-assoc_put k j false tx.cache_deleted)

  get-delete :
      (k j : Bytes) (tx : LevelDbTransaction) (db : ldb.Db)
      → found (get_value j (delete_value k tx).1 db)
        ≡ (if k == j then none else found (get_value j tx db))
  unfolding get_value delete_value found
  get-delete k j tx db = ground (arith, assoc-assoc_put k j true tx.cache_deleted)

  -- The LevelDB store keeps the laws of the interface: in a transaction writes and deletions succeed,
  -- and a read of a key gives its last write, or nothing after its deletion, or what the database
  -- holds.
  pub leveldb_kv-KvLaws : KvLaws leveldb_kv
  unfolding put_value delete_value
  leveldb_kv-KvLaws = record {
    get-new = get-new;
    put-ok = λ k v tx. refl;
    get-put = get-put;
    delete-ok = λ k tx. refl;
    get-delete = get-delete;
  }
