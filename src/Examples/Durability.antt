-- ===== src/Examples/Durability.antt =====
-- Examples for an insert that is committed to a LevelDB store, also for a request to a server.
use qdocdb.Prelude.{
  starts_with, Bytes, negsuc, none, ◌∷◌, assoc, ◌≡◌, refl, true, false, some, [], codes, ◌==◌,
  arith,
}
use qdocdb.Json.{Fields, object, value, has_key, is_undefined}
use qdocdb.Qt.Concrete.{concrete_qt, concrete-QtLaws, read_texts}
use qdocdb.Serialize.{marshal, marshal_snapshots_value, unmarshal_snapshots_value}
use qdocdb.Kv.{found}
use qdocdb.Kv.Sorted.{from_bound}
use qdocdb.Kv.Interface.{KvInterface}
use qdocdb.Kv.LevelDb as LevelDb
use qdocdb.Kv.LevelDb.{leveldb_kv, leveldb_kv-KvLaws}
use qdocdb.Kv.LevelDb.Commit.{leveldb_kv-CommitLaws}
use qdocdb.Collection.{ok, document_link_key}
use qdocdb.Collection.Iterator.{
  get_json_value, get_scan, is_valid, is_empty, seek, setup_prefix, new_iterator,
}
use qdocdb.Transaction.{Context, Transaction}
use qdocdb.Transaction.Insert.{insert}
use qdocdb.Transaction.Stored.{Kept}
use qdocdb.Transaction.Inserted.{insert-answer}
use qdocdb.OpenCollection.{OpenCollection, type_collection, source_of}
use qdocdb.OpenCollection.Snapshots.{new_snapshot}
use qdocdb.OpenCollection.Snapshots.Names.{added}
use qdocdb.OpenCollection.Snapshots.Created.{new_snapshot-listed}
use qdocdb.Find.{get_snapshots_value, get_snapshot_id, index_of}
use qdocdb.Link.Types.{type_insert}
use qdocdb.Server.{Request, Place, Host, Server, insert_reply, collection_at}
use qdocdb.Server.Operations.{done, ignores_read_only}
use qdocdb.Server.Receive.{handle}
use qdocdb.Server.Slots.{new_server}
use qdocdb.Server.Durable.{handle-durable}
use qdocdb.Client.Calls.{new_request}
use qdocdb.Examples.{sample_db, new_ann, sample_context, fresh, list_ldb, list_ldb-LevelDbLaws}

abbrev list_kv : KvInterface
list_kv = leveldb_kv list_ldb

abbrev disk_context : Context list_kv
disk_context = record {
  qt = concrete_qt;
  db = [];
  snapshot_id = 1;
  config = sample_context.config;
  system = sample_context.system;
  junk = false;
}

abbrev disk_start : Transaction list_kv
disk_start = record {
  tx = LevelDb.new_transaction;
  observers = [];
  last_error = [];
  id_gen = fresh.id_gen;
}

no_document : is_undefined (get_json_value list_kv concrete_qt [] (codes "a") 1) ≡ true
unfolding is_undefined get_json_value get_scan is_valid is_empty seek setup_prefix new_iterator
    from_bound
no_document = refl

answered : (insert list_kv disk_context new_ann false false disk_start).0 ≡ ok (codes "a")
answered = ground (
  arith,
  no_document,
  insert-answer list_kv (leveldb_kv-KvLaws list_ldb) disk_context concrete-QtLaws new_ann
      (codes "a") false false disk_start (unfold has_key ◌==◌ in refl) (unfold value ◌==◌ in refl),
)

abbrev disk_host : Host list_kv
disk_host = record {
  setup = record {
    qt = concrete_qt;
    config = sample_context.config;
    system = sample_context.system;
    junk = false;
  };
  file_system = record { exists = λ dir. true; mkpath = λ dir. true; canonical_path = λ dir. dir };
  base_dir = codes "base";
  open_store = λ dir in_memory. some [];
  parse_url = λ t. record { path = t; has_query = false; collection = []; persistent = none };
  number = λ n. codes "n";
  unset = 0;
}

abbrev disk_collection : OpenCollection list_kv
disk_collection = record {
  class_type = type_collection;
  db = [];
  snapshot_id = 1;
  observers = [];
  last_error = [];
  id_gen = fresh.id_gen;
  emitted = [];
}

abbrev disk_server : Server list_kv
disk_server = record (new_server list_kv fresh.id_gen) {
  databases =
      (
        codes "a",
        record {
          is_opened = true;
          base_dir = codes "base/a";
          coll_list = (codes "base/a/c", disk_collection) ∷ [];
        },
      )
      ∷ [];
}

abbrev insert_ann : Request
insert_ann = record (new_request 5 type_insert) { document = new_ann; transaction_id = negsuc 0 }

abbrev place_c : Place
place_c = record { database = codes "a"; index = 0 }

handle-durable_example :
    let (o, t) = handle list_kv disk_host 1 insert_ann place_c disk_server in
    (o ≡ done (some (insert_reply (codes "a"))) [])
    × ((coll' : OpenCollection list_kv) × (collection_at list_kv place_c t ≡ some coll')
        × ((doc : Fields) × (found (list_kv.db_get (document_link_key (codes "a") 1) coll'.db)
              ≡ some (marshal concrete_qt (object doc)))
            × Kept (codes "_id") (codes "uuid") new_ann doc))
unfolding new_request
handle-durable_example =
    handle-durable list_kv disk_host (leveldb_kv-KvLaws list_ldb)
      (leveldb_kv-CommitLaws list_ldb list_ldb-LevelDbLaws) concrete-QtLaws 1 insert_ann place_c
      disk_server disk_collection (codes "a") (unfold collection_at assoc ◌==◌ new_server in refl)
      refl refl refl (unfold ignores_read_only in answered)
      (unfold LevelDb.write_transaction in refl)

abbrev two_snapshots : OpenCollection list_kv
two_snapshots = record disk_collection { db = sample_db }

abbrev with_three : OpenCollection list_kv
with_three = (new_snapshot list_kv disk_host.setup (codes "two") two_snapshots).1

new_snapshot-listed_example :
    ((new_snapshot list_kv disk_host.setup (codes "two") two_snapshots).0 ≡ ok tt)
    × (get_snapshots_value list_kv concrete_qt (source_of list_kv disk_host.setup with_three)
        ≡ ok (added (codes "two") (codes "one" ∷ codes "__CURRENT" ∷ [])))
    × (get_snapshot_id list_kv concrete_qt
          (source_of list_kv disk_host.setup with_three)
          (codes "two")
        ≡ ok 1)
    × (with_three.snapshot_id ≡ 2)
    × ((j : Bytes)
        → starts_with (codes "d:") j ≡ true
        → found (list_kv.db_get j with_three.db) ≡ found (list_kv.db_get j sample_db))
new_snapshot-listed_example =
    new_snapshot-listed list_kv disk_host.setup (leveldb_kv-KvLaws list_ldb)
      (leveldb_kv-CommitLaws list_ldb list_ldb-LevelDbLaws) concrete-QtLaws (codes "two")
      (codes "one") (codes "__CURRENT" ∷ []) two_snapshots refl
      (unfold get_snapshots_value LevelDb.db_get assoc ◌==◌ unmarshal_snapshots_value
          marshal_snapshots_value read_texts in
        refl)
      (unfold index_of ◌==◌ in refl) (unfold LevelDb.write_transaction in refl)
