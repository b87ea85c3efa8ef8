-- ===== src/Kv/KvMap/Commit.antt =====
-- What QDocKVMapTransaction::writeTransaction makes of the database.
use qdocdb.Prelude.{
  ◌≡◌, ◌≢◌, refl, assoc_put, Bool, true, false, List, [], ◌∷◌, Bytes, none, some, ==_iff, assoc,
  assoc_remove, assoc-assoc_remove, Distinct, assoc_put-Distinct, arith, if◌then◌else◌,
}
use qdocdb.Kv.{ok, Entry, found}
use qdocdb.Kv.Sorted.{ordered_put, assoc-ordered_put}
use qdocdb.Kv.KvMap.{
  Db, db_get, MapTransaction, new_transaction, is_deleted, get_value, put_value, delete_value,
  erase_deleted, put_cached, write_transaction,
}

abbrev marked : Bytes → List (Bytes × Bool) → Bool
marked j m = elim (assoc j m) [ none ↦ false | some b ↦ b ]

-- The first loop, if it ends well: the marked keys are gone, and the others as they were.
assoc-erase_deleted :
    (j : Bytes) (m : List (Bytes × Bool)) (db : Db)
    → Distinct m
    → (erase_deleted m db).0 ≡ ok tt
    → assoc j (erase_deleted m db).1 ≡ (if marked j m then none else assoc j db)
unfolding erase_deleted assoc
assoc-erase_deleted j [] db d h = refl
assoc-erase_deleted j ((k, false) ∷ m) db d h =
    ground (arith, ==_iff k j, assoc-erase_deleted j m db d.1 h)
assoc-erase_deleted j ((k, true) ∷ m) db d h = ground (
  arith,
  ==_iff k j,
  d.0,
  assoc-assoc_remove k j db,
  assoc-erase_deleted j m (assoc_remove k db) d.1,
)

assoc-put_cached :
    (j : Bytes) (m : List Entry) (db : Db)
    → Distinct m
    → assoc j (put_cached m db) ≡ elim (assoc j m) [ none ↦ assoc j db | some v ↦ some v ]
unfolding put_cached assoc
assoc-put_cached j [] db d = refl
assoc-put_cached j ((k, v) ∷ m) db d = ground (
  arith,
  ==_iff k j,
  d.0,
  assoc-ordered_put k j v db,
  assoc-put_cached j m (ordered_put k v db) d.1,
)

-- A transaction as it is filled: the writes and deletions of a client, in order.
pub data Op : Type 0 where
  put : Bytes → Bytes → Op
  delete : Bytes → Op

unfoldable pub run : List Op → MapTransaction → MapTransaction
run [] tx = tx
run (put k v ∷ ops) tx = run ops (put_value k v tx).1
run (delete k ∷ ops) tx = run ops (delete_value k tx).1

abbrev IsHash : MapTransaction → Type 0
IsHash tx = Distinct tx.cache × Distinct tx.cache_deleted

run-IsHash : (ops : List Op) (tx : MapTransaction) → IsHash tx → IsHash (run ops tx)
unfolding run put_value delete_value
run-IsHash [] tx h = h
run-IsHash (put k v ∷ ops) tx h =
    run-IsHash ops (put_value k v tx).1
      (assoc_put-Distinct k v tx.cache h.0, assoc_put-Distinct k false tx.cache_deleted h.1)
run-IsHash (delete k ∷ ops) tx h =
    run-IsHash ops (delete_value k tx).1 (h.0, assoc_put-Distinct k true tx.cache_deleted h.1)

-- No key that is marked deleted has a value in the cache.
abbrev pub IsClean : MapTransaction → Type 0
IsClean tx = (k : Bytes) → is_deleted k tx ≡ true → assoc k tx.cache ≡ none

commit_reads :
    (tx : MapTransaction) (db : Db) (j : Bytes)
    → IsHash tx
    → (is_deleted j tx ≡ true → assoc j tx.cache ≡ none)
    → (write_transaction tx db).0 ≡ ok tt
    → assoc j (write_transaction tx db).1 ≡ found (get_value j tx db)
unfolding write_transaction get_value found
commit_reads tx db j h clean done = ground (
  arith,
  assoc-put_cached j tx.cache (erase_deleted tx.cache_deleted db).1 h.0,
  assoc-erase_deleted j tx.cache_deleted db h.1,
  clean,
)

-- After any writes and deletions of a new transaction that leave no deleted key with a cached value,
-- a commit that succeeds makes the database answer, for every key, what the transaction answered
-- before the commit.
pub write_transaction-eq-get_value :
    (ops : List Op) (db : Db) (j : Bytes)
    → IsClean (run ops new_transaction)
    → (write_transaction (run ops new_transaction) db).0 ≡ ok tt
    → found (db_get j (write_transaction (run ops new_transaction) db).1)
      ≡ found (get_value j (run ops new_transaction) db)
unfolding db_get found
write_transaction-eq-get_value ops db j clean done = ground (
  arith,
  commit_reads (run ops new_transaction) db j
      (run-IsHash ops new_transaction (unfold new_transaction in (tt, tt))) (clean j) done,
)

erase_deleted-ok :
    (m : List (Bytes × Bool)) (db : Db)
    → Distinct m
    → ((k : Bytes) → marked k m ≡ true → assoc k db ≢ none)
    → (erase_deleted m db).0 ≡ ok tt
unfolding erase_deleted assoc
erase_deleted-ok [] db d h = refl
erase_deleted-ok ((k, false) ∷ m) db d h =
    erase_deleted-ok m db d.1 λ j e. h j (ground (arith, ==_iff k j, d.0))
erase_deleted-ok ((k, true) ∷ m) db d h = ground (
  arith,
  h k,
  ==_iff k k,
  erase_deleted-ok m (assoc_remove k db) d.1
      λ j e. ground (arith, h j, d.0, ==_iff k j, assoc-assoc_remove k j db),
)

-- A commit succeeds if every key that the transaction marks deleted is in the database.
pub write_transaction-ok :
    (ops : List Op) (db : Db)
    → ((k : Bytes) → is_deleted k (run ops new_transaction) ≡ true → assoc k db ≢ none)
    → (write_transaction (run ops new_transaction) db).0 ≡ ok tt
unfolding write_transaction is_deleted
write_transaction-ok ops db h = ground (
  arith,
  erase_deleted-ok (run ops new_transaction).cache_deleted db
      (run-IsHash ops new_transaction (unfold new_transaction in (tt, tt))).1 h,
)

-- A key of the database that a transaction writes and then deletes: the transaction no longer
-- finds it, the commit succeeds, and afterwards the database holds the value that was written.
pub put_delete_resurrects :
    (k v w : Bytes) (db : Db)
    → assoc k db ≡ some w
    → let tx = run (put k v ∷ delete k ∷ []) new_transaction in
      (found (get_value k tx db) ≡ none)
      × ((write_transaction tx db).0 ≡ ok tt)
      × (assoc k (write_transaction tx db).1 ≡ some v)
unfolding run put_value delete_value new_transaction write_transaction erase_deleted put_cached
    get_value found assoc assoc_put
put_delete_resurrects k v w db e =
    ground (arith, ==_iff k k, assoc-ordered_put k k v (assoc_remove k db))
