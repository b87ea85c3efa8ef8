-- ===== src/Examples/Stores.antt =====
-- Examples for the key-value stores and for serialisation.
use qdocdb.Prelude.{
  ◌≡◌, ◌≢◌, refl, List, [], ◌∷◌, Bytes, codes, none, some, ◌==◌, ==_iff, assoc, assoc_put, true,
  arith,
}
use qdocdb.Json.{object}
use qdocdb.Qt.{is_storable}
use qdocdb.Qt.Concrete.{concrete_qt, concrete-QtLaws}
use qdocdb.Serialize.{
  marshal, unmarshal, marshal_indexes, unmarshal_indexes, marshal_index_value,
  unmarshal_index_value, marshal_snapshots_value, unmarshal_snapshots_value,
}
use qdocdb.Serialize.RoundTrip.{unmarshal-marshal, unmarshal-marshal_lists, reread}
use qdocdb.Kv.{ok, Entry, found}
use qdocdb.Kv.Interface.{KvLaws}
use qdocdb.Kv.KvMap as KvMap
use qdocdb.Kv.KvMap.Commit as MapCommit
use qdocdb.Kv.LevelDb as LevelDb
use qdocdb.Kv.LevelDb.Commit as LevelCommit
use qdocdb.Kv.LevelDb.{leveldb_kv, leveldb_kv-KvLaws}
use qdocdb.Examples.{old_ann, list_ldb, list_ldb-LevelDbLaws}

abbrev one_entry : List Entry
one_entry = (codes "a", codes "old") ∷ []

abbrev map_ops : List MapCommit.Op
map_ops = MapCommit.put (codes "b") (codes "new") ∷ MapCommit.delete (codes "a") ∷ []

map_ops-IsClean : MapCommit.IsClean (MapCommit.run map_ops KvMap.new_transaction)
unfolding MapCommit.run KvMap.put_value KvMap.delete_value KvMap.new_transaction KvMap.is_deleted
    assoc assoc_put
map_ops-IsClean k h = ground (arith, ==_iff (codes "a") k, ==_iff (codes "b") k)

deleted-in :
    (k : Bytes)
    → KvMap.is_deleted k (MapCommit.run map_ops KvMap.new_transaction) ≡ true
    → assoc k one_entry ≢ none
unfolding MapCommit.run KvMap.put_value KvMap.delete_value KvMap.new_transaction KvMap.is_deleted
    assoc assoc_put
deleted-in k h = ground (arith, ==_iff (codes "a") k, ==_iff (codes "b") k)

write_transaction-ok_example :
    (KvMap.write_transaction (MapCommit.run map_ops KvMap.new_transaction) one_entry).0 ≡ ok tt
write_transaction-ok_example = MapCommit.write_transaction-ok map_ops one_entry deleted-in

write_transaction-eq-get_value_example :
    found (
      KvMap.db_get
        (codes "b")
        (KvMap.write_transaction (MapCommit.run map_ops KvMap.new_transaction) one_entry).1)
    ≡ found (KvMap.get_value (codes "b") (MapCommit.run map_ops KvMap.new_transaction) one_entry)
write_transaction-eq-get_value_example =
    MapCommit.write_transaction-eq-get_value map_ops one_entry (codes "b") map_ops-IsClean
      write_transaction-ok_example

put_delete_resurrects_example :
    let tx =
      MapCommit.run
        (MapCommit.put (codes "a") (codes "new") ∷ MapCommit.delete (codes "a") ∷ [])
        KvMap.new_transaction in
    (found (KvMap.get_value (codes "a") tx one_entry) ≡ none)
    × ((KvMap.write_transaction tx one_entry).0 ≡ ok tt)
    × (assoc (codes "a") (KvMap.write_transaction tx one_entry).1 ≡ some (codes "new"))
put_delete_resurrects_example =
    MapCommit.put_delete_resurrects (codes "a") (codes "new") (codes "old") one_entry
      (unfold assoc ◌==◌ in refl)

abbrev level_ops : List LevelDb.BatchOp
level_ops = LevelDb.put (codes "b") (codes "new") ∷ LevelDb.delete (codes "a") ∷ []

write_transaction-refines_example :
    let tx = LevelCommit.run level_ops LevelDb.new_transaction in
    LevelCommit.Committed
      (LevelDb.write_transaction list_ldb tx one_entry).0
      (found (LevelDb.db_get list_ldb (codes "b") one_entry))
      (found (LevelDb.get_value list_ldb (codes "b") tx one_entry))
      (found
        (LevelDb.db_get list_ldb (codes "b") (LevelDb.write_transaction list_ldb tx one_entry).1))
write_transaction-refines_example =
    LevelCommit.write_transaction-refines list_ldb list_ldb-LevelDbLaws level_ops one_entry
      (codes "b")

leveldb_kv-KvLaws_example : KvLaws (leveldb_kv list_ldb)
leveldb_kv-KvLaws_example = leveldb_kv-KvLaws list_ldb

unmarshal-marshal_example :
    unmarshal concrete_qt (marshal concrete_qt (object old_ann)) ≡ reread (object old_ann)
unmarshal-marshal_example =
    unmarshal-marshal concrete_qt concrete-QtLaws (object old_ann) (unfold is_storable in refl)

unmarshal-marshal_lists_example :
    (assoc (codes "age") (
        unmarshal_indexes concrete_qt
          (marshal_indexes concrete_qt ((codes "age", codes "by_age") ∷ [])))
      ≡ assoc (codes "age") ((codes "age", codes "by_age") ∷ []))
    × (unmarshal_index_value concrete_qt (marshal_index_value concrete_qt (codes "d:a:" ∷ []))
        ≡ codes "d:a:" ∷ [])
    × (unmarshal_snapshots_value concrete_qt
          (marshal_snapshots_value concrete_qt (codes "one" ∷ codes "two" ∷ []))
        ≡ codes "one" ∷ codes "two" ∷ [])
unmarshal-marshal_lists_example =
    unmarshal-marshal_lists concrete_qt concrete-QtLaws ((codes "age", codes "by_age") ∷ [])
      (codes "d:a:" ∷ []) (codes "one" ∷ codes "two" ∷ []) (codes "age")
