-- ===== src/Server/Receive.antt =====
-- qdocdb/qdocdbserver.cpp: receive, which chooses a case and answers.
mod Cases
pub use Cases.{Target, reply_to}
unfoldable pub use Cases.{
  target_of, is_url_needed, needs_collection, locked_by_other, is_minus_one, find_at, get_database,
  open_at, get_collection, on_collection, invalid_transaction, begin_transaction, write_in,
  write_open, discard_open, alter_open, alter_documents, observe_collection, unobserve_at,
  stop_observing, exclusive_lock, unlock,
}
use qdocdb.Prelude.{
  ℕ, zero, ℤ, pos, negsuc, Bool, true, false, not, Option, none, some, List, [], ◌∷◌, ◌++◌, map,
  Text, codes, drop, assoc, assoc_put, assoc_remove, at, put_at, remove_at, eqb, ◌==◌,
  if◌then◌else◌,
}
use qdocdb.Collection.Iterator.{is_empty}
use qdocdb.IdGen.{IdGen}
use qdocdb.Kv.Interface.{KvInterface}
use qdocdb.Transaction.{Transaction, Context}
use qdocdb.OpenCollection.{
  OpenCollection, context, new_transaction, open_collection, observe, unobserve,
}
use qdocdb.Database.{Database, new_database, open_database, collection}
use qdocdb.Link.Types.{
  LinkType, type_find, type_find_one, type_count, type_get_modified, type_create_index,
  type_new_transaction, type_write_transaction, type_discard_transaction, type_insert, type_remove,
  type_remove_id, type_set, type_get_snapshot_list, type_new_snapshot, type_revert_to_snapshot,
  type_remove_snapshot, type_observe, type_unobserve, type_exclusive_lock, type_unlock,
}
use qdocdb.Server.{
  Url, Request, Body, unknown, new_transaction_reply, observe_reply, Message, Place, unlocked, Host,
  OpenTransaction, Server, collection_at, put_collection,
}
use qdocdb.Server.Numbers.{get_next_transaction_id}
use qdocdb.Server.Operations.{
  Outcome, done, null_pointer, success, reply_with, failure, search, write, index_collection, alter,
  alter_alone, list_snapshots, change_snapshots,
}

module _ (kv : KvInterface) (host : Host kv) where
  open host use {setup, file_system}

  -- The switch over the types of requests for a collection.
  unfoldable pub handle : ℕ → Request → Place → Server kv → Outcome × Server kv
  handle c r p s = elim r.type [
    | type_find ↦ on_collection kv host (search kv host r) p s
    | type_find_one ↦ on_collection kv host (search kv host r) p s
    | type_count ↦ on_collection kv host (search kv host r) p s
    | type_get_modified ↦ on_collection kv host (search kv host r) p s
    | type_create_index ↦ on_collection kv host (index_collection kv host r) p s
    | type_new_transaction ↦ begin_transaction kv host p s
    | type_insert ↦ alter_documents kv host r p s
    | type_remove ↦ alter_documents kv host r p s
    | type_remove_id ↦ alter_documents kv host r p s
    | type_set ↦ alter_documents kv host r p s
    | type_get_snapshot_list ↦ on_collection kv host (list_snapshots kv host) p s
    | type_new_snapshot ↦ on_collection kv host (change_snapshots kv host r) p s
    | type_revert_to_snapshot ↦ on_collection kv host (change_snapshots kv host r) p s
    | type_remove_snapshot ↦ on_collection kv host (change_snapshots kv host r) p s
    | type_observe ↦ observe_collection kv host c r p s
    | _ ↦ (success, s)
  ]

  -- The switch over the types of requests without a URL.
  unfoldable pub handle_number : ℕ → Request → Server kv → Outcome × Server kv
  handle_number c r s = elim r.type [
    | type_write_transaction ↦ write_open kv host r s
    | type_discard_transaction ↦ discard_open kv host r s
    | _ ↦ stop_observing kv host c r s
  ]

  unfoldable pub handle_lock : ℕ → Request → Text → Server kv → Outcome × Server kv
  handle_lock c r name s = elim r.type [
    | type_exclusive_lock ↦ exclusive_lock kv host c name s
    | _ ↦ unlock kv host c name s
  ]

  unfoldable pub handle_collection :
      ℕ → Request → Target → Database kv → Server kv → Outcome × Server kv
  handle_collection c r t db s =
      if is_empty t.coll_name
      then (failure (codes "Collection name is empty"), s)
      else (let (place, s') = get_collection kv host t db s in
          elim place [
            | none ↦ (
              failure (
                  codes "Can't open collection "
                  ++ (t.coll_name ++ (codes " in database " ++ t.db_name))),
              s',
            )
            | some p ↦ handle c r p s'
          ])

  unfoldable pub answer : ℕ → Request → Outcome × Server kv → Server kv
  answer c r (null_pointer, s) = record s { crashed = true }
  answer c r (done body text, s) = record s { sent = (c, reply_to r body text) ∷ s.sent }

  -- A request with a URL, once the database is there.
  unfoldable pub handle_url :
      ℕ → Request → Target → Option (Database kv) → Server kv → Outcome × Server kv
  handle_url c r t database s = elim database [
    | none ↦ (failure (codes "Can't open database " ++ t.db_name), s)
    | some db ↦
        if needs_collection r.type
        then handle_collection c r t db s
        else handle_lock c r t.db_name s
  ]

  -- `appendUnlockWait`
  unfoldable pub append_unlock_wait : ℕ → Request → Server kv → Server kv
  append_unlock_wait c r s = record s { unlock_wait = s.unlock_wait ++ (c, r) ∷ [] }

  unfoldable pub receive : ℕ → Request → Server kv → Server kv
  receive c r s =
      if is_url_needed r.type
      then (let t = target_of (host.parse_url r.url) in
          let (db, s') = get_database kv host t.db_name s in
          if locked_by_other c t.db_name s'.database_locks
          then append_unlock_wait c r s'
          else answer c r (handle_url c r t db s'))
      else answer c r (handle_number c r s)
