-- ===== src/Kv/Interface.antt =====
-- class QDocKVInterface with its iterator, as the collections use it: a database that is shared,
-- and transactions over it. An iterator is the list of the entries that are left to visit:
-- `isValid` says that there is one, `next` drops it. The iterators of a transaction run over the
-- database (`getDB()`), not over what the transaction has written.
use qdocdb.Prelude.{◌≡◌, List, Bytes, none, some, ◌==◌, if◌then◌else◌}
use qdocdb.Kv.{KvResult, ok, Entry, found}

pub record KvInterface : Type 1 where
  pub Db : Type 0
  pub Tx : Type 0
  pub db_get : Bytes → Db → KvResult Bytes
  pub seek_to_first : Db → List Entry
  pub seek : Bytes → Db → List Entry
  pub new_transaction : Tx
  pub get_value : Bytes → Tx → Db → KvResult Bytes
  pub put_value : Bytes → Bytes → Tx → KvResult (Unit {0}) × Tx
  pub delete_value : Bytes → Tx → KvResult (Unit {0}) × Tx
  pub write_transaction : Tx → Db → KvResult (Unit {0}) × Db

-- What every implementation keeps: a transaction reads the database below its own writes.
pub record KvLaws (kv : KvInterface) : Type 0 where
  pub get-new :
      (j : Bytes) (db : kv.Db)
      → found (kv.get_value j kv.new_transaction db) ≡ found (kv.db_get j db)
  pub put-ok : (k v : Bytes) (tx : kv.Tx) → (kv.put_value k v tx).0 ≡ ok tt
  pub get-put :
      (k v j : Bytes) (tx : kv.Tx) (db : kv.Db)
      → found (kv.get_value j (kv.put_value k v tx).1 db)
        ≡ (if k == j then some v else found (kv.get_value j tx db))
  pub delete-ok : (k : Bytes) (tx : kv.Tx) → (kv.delete_value k tx).0 ≡ ok tt
  pub get-delete :
      (k j : Bytes) (tx : kv.Tx) (db : kv.Db)
      → found (kv.get_value j (kv.delete_value k tx).1 db)
        ≡ (if k == j then none else found (kv.get_value j tx db))

-- What a store keeps whose commits can be relied on: a transaction that has been filled by writes and
-- deletions is `Consistent`, and its commit, if it succeeds, makes the database answer what it answers.
pub record CommitLaws (kv : KvInterface) : Type 1 where
  pub Consistent : kv.Tx → Type 0
  pub new-Consistent : Consistent kv.new_transaction
  pub put-Consistent :
      (k v : Bytes) (tx : kv.Tx) → Consistent tx → Consistent (kv.put_value k v tx).1
  pub delete-Consistent :
      (k : Bytes) (tx : kv.Tx) → Consistent tx → Consistent (kv.delete_value k tx).1
  pub commit-reads :
      (tx : kv.Tx) (db : kv.Db) (j : Bytes)
      → Consistent tx
      → (kv.write_transaction tx db).0 ≡ ok tt
      → found (kv.db_get j (kv.write_transaction tx db).1) ≡ found (kv.get_value j tx db)
