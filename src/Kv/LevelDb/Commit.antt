-- ===== src/Kv/LevelDb/Commit.antt =====
-- QDocKVLevelDBTransaction: the batch that is written and the cache that is read agree.
use qdocdb.Prelude.{◌≡◌, refl, List, [], ◌∷◌, ◌++◌, Bytes, Option, arith}
use qdocdb.Kv.{KvResult, ok, failed, found}
use qdocdb.Kv.Interface.{CommitLaws}
use qdocdb.Kv.LevelDb.{
  leveldb_kv, Status, good, bad, BatchOp, put, delete, batch_get, got, LevelDb, LevelDbLaws,
  LevelDbTransaction, new_transaction, put_value, delete_value, get_value, write_transaction,
  get-put, get-delete, db_get, get-new,
}

batch_get-append :
    (a b : List BatchOp) (k : Bytes) (o : Option Bytes)
    → batch_get (a ++ b) k o ≡ batch_get b k (batch_get a k o)
unfolding batch_get
batch_get-append [] b k o = refl
batch_get-append (put j v ∷ a) b k o = batch_get-append a b k _
batch_get-append (delete j ∷ a) b k o = batch_get-append a b k _

-- The writes and deletions of a client, in order.
unfoldable pub run : List BatchOp → LevelDbTransaction → LevelDbTransaction
run [] tx = tx
run (put k v ∷ ops) tx = run ops (put_value k v tx).1
run (delete k ∷ ops) tx = run ops (delete_value k tx).1

module _ (ldb : LevelDb) where
  -- What the transaction reads is what its batch makes of the database.
  abbrev Agrees : LevelDbTransaction → Type 0
  Agrees tx =
      (db : ldb.Db) (k : Bytes)
      → found (get_value ldb k tx db) ≡ batch_get tx.batch k (got (ldb.get k db))

  new-Agrees : Agrees new_transaction
  unfolding batch_get new_transaction db_get found
  new-Agrees db k = ground (arith, get-new ldb k db)

  put_value-Agrees :
      (k v : Bytes) (tx : LevelDbTransaction) → Agrees tx → Agrees (put_value k v tx).1
  unfolding put_value batch_get
  put_value-Agrees k v tx h db j = ground (
    arith,
    get-put ldb k v j tx db,
    h db j,
    batch_get-append tx.batch (put k v ∷ []) j (got (ldb.get j db)),
  )

  delete_value-Agrees :
      (k : Bytes) (tx : LevelDbTransaction) → Agrees tx → Agrees (delete_value k tx).1
  unfolding delete_value batch_get
  delete_value-Agrees k tx h db j = ground (
    arith,
    get-delete ldb k j tx db,
    h db j,
    batch_get-append tx.batch (delete k ∷ []) j (got (ldb.get j db)),
  )

  run-Agrees : (ops : List BatchOp) (tx : LevelDbTransaction) → Agrees tx → Agrees (run ops tx)
  unfolding run
  run-Agrees [] tx h = h
  run-Agrees (put k v ∷ ops) tx h = run-Agrees ops (put_value k v tx).1 (put_value-Agrees k v tx h)
  run-Agrees (delete k ∷ ops) tx h =
      run-Agrees ops (delete_value k tx).1 (delete_value-Agrees k tx h)

-- After a commit with result `r`, a key holds what the transaction read, or what it held before.
abbrev pub Committed : KvResult (Unit {0}) → (before read after : Option Bytes) → Type 0
Committed (ok u) before read after = after ≡ read
Committed (failed e t) before read after = after ≡ before

-- After any writes and deletions of a new transaction, a commit that succeeds makes the database
-- answer, for every key, what the transaction answered before; one that fails changes no answer.
pub write_transaction-refines :
    (ldb : LevelDb) (laws : LevelDbLaws ldb) (ops : List BatchOp) (db : ldb.Db) (k : Bytes)
    → let tx = run ops new_transaction in
      Committed
        (write_transaction ldb tx db).0
        (found (db_get ldb k db))
        (found (get_value ldb k tx db))
        (found (db_get ldb k (write_transaction ldb tx db).1))
unfolding write_transaction db_get found
write_transaction-refines ldb laws ops db k =
    split (ldb.write (run ops new_transaction).batch db) refl
  where
    tx : LevelDbTransaction
    tx = run ops new_transaction

    read : found (get_value ldb k tx db) ≡ batch_get tx.batch k (got (ldb.get k db))
    read = run-Agrees ldb ops new_transaction (new-Agrees ldb) db k

    split :
        (s : Status ldb.Db)
        → ldb.write tx.batch db ≡ s
        → Committed
            (write_transaction ldb tx db).0
            (found (db_get ldb k db))
            (found (get_value ldb k tx db))
            (found (db_get ldb k (write_transaction ldb tx db).1))
    split (good db') e =
        rw (e, write_transaction) (ground (arith, read, laws.get-write tx.batch db db' k e))
    split (bad t) e = rw (e, write_transaction)

commit_reads :
    (ldb : LevelDb) (laws : LevelDbLaws ldb) (tx : LevelDbTransaction) (db : ldb.Db) (k : Bytes)
    → Agrees ldb tx
    → (s : Status ldb.Db) → ldb.write tx.batch db ≡ s
    → (write_transaction ldb tx db).0 ≡ ok tt
    → found (db_get ldb k (write_transaction ldb tx db).1) ≡ found (get_value ldb k tx db)
unfolding write_transaction db_get found
commit_reads ldb laws tx db k h (good db') e o =
    ground (arith, e, h db k, laws.get-write tx.batch db db' k e)
commit_reads ldb laws tx db k h (bad t) e o = ground (arith, e)

pub leveldb_kv-CommitLaws : (ldb : LevelDb) → LevelDbLaws ldb → CommitLaws (leveldb_kv ldb)
leveldb_kv-CommitLaws ldb laws = record {
  Consistent = Agrees ldb;
  new-Consistent = new-Agrees ldb;
  put-Consistent = λ k v tx h. put_value-Agrees ldb k v tx h;
  delete-Consistent = λ k tx h. delete_value-Agrees ldb k tx h;
  commit-reads = λ tx db j h o. commit_reads ldb laws tx db j h (ldb.write tx.batch db) refl o;
}
