-- ===== src/Server/Receive/Cases.antt =====
-- qdocdb/qdocdbserver.cpp: getDatabase, and the cases of `receive` that keep the server's tables.
use qdocdb.Prelude.{
  ℕ, zero, ℤ, pos, negsuc, Bool, true, false, not, Option, none, some, List, [], ◌∷◌, ◌++◌, map,
  Text, codes, drop, assoc, assoc_put, assoc_remove, at, put_at, remove_at, eqb, ◌==◌,
  if◌then◌else◌,
}
use qdocdb.IdGen.{IdGen}
use qdocdb.Kv.Interface.{KvInterface}
use qdocdb.Transaction.{Transaction, Context}
use qdocdb.OpenCollection.{
  OpenCollection, context, new_transaction, open_collection, observe, unobserve,
}
use qdocdb.Database.{Database, new_database, open_database, collection}
use qdocdb.Link.Types.{
  LinkType, type_write_transaction, type_discard_transaction, type_unobserve, type_exclusive_lock,
  type_unlock,
}
use qdocdb.Server.{
  Url, Request, Body, unknown, new_transaction_reply, observe_reply, Message, Place, unlocked, Host,
  OpenTransaction, Server, collection_at, put_collection,
}
use qdocdb.Server.Numbers.{get_next_transaction_id}
use qdocdb.Server.Operations.{
  Outcome, done, null_pointer, success, reply_with, failure, write, alter, alter_alone,
}

-- What `receive` reads from the URL.
pub record Target : Type 0 where
  pub db_name : Text
  pub coll_name : Text
  pub in_memory : Bool

unfoldable pub target_of : Url → Target
target_of url = record {
  db_name = drop 1 url.path;
  coll_name = if url.has_query then url.collection else [];
  in_memory =
      if url.has_query
      then elim url.persistent [ none ↦ false | some t ↦ t == codes "false" ]
      else false;
}

unfoldable pub is_url_needed : LinkType → Bool
is_url_needed type_write_transaction = false
is_url_needed type_discard_transaction = false
is_url_needed type_unobserve = false
is_url_needed _ = true

unfoldable pub needs_collection : LinkType → Bool
needs_collection type_exclusive_lock = false
needs_collection type_unlock = false
needs_collection _ = true

-- A database is locked, and not by this client.
unfoldable pub locked_by_other : ℕ → Text → List (Text × ℕ) → Bool
locked_by_other c name locks = elim (assoc name locks) [ none ↦ false | some d ↦ not (eqb d c) ]

unfoldable pub is_minus_one : ℤ → Bool
is_minus_one (negsuc zero) = true
is_minus_one _ = false

-- The reply, of type unknown if none has been made.
abbrev pub reply_to : Request → Option Body → Text → Message
reply_to r body text = record {
  id = r.id;
  body = elim body [ none ↦ unknown | some b ↦ b ];
  error = some text;
}

module _ {A : Type 0} where
  -- An int as a key of the tables, which hold no negative one.
  unfoldable pub find_at : ℤ → List (ℕ × A) → Option (ℕ × A)
  find_at (negsuc n) m = none
  find_at (pos n) m = elim (at n m) [ none ↦ none | some a ↦ some (n, a) ]

module _ (kv : KvInterface) (host : Host kv) where
  open host use {setup, file_system}

  unfoldable pub get_database : Text → Server kv → Option (Database kv) × Server kv
  get_database name s = elim (assoc name s.databases) [
    | some db ↦ (some db, s)
    | none ↦
        let (opened, db) =
          open_database kv file_system (host.base_dir ++ b'/' ∷ name) (new_database kv) in
        if opened
        then (some db, record s { databases = assoc_put name db s.databases })
        else (none, s)
  ]

  -- QDocCollection::open: the constructor, if the store is valid
  unfoldable pub open_at : IdGen → Text → Bool → Option (OpenCollection kv)
  open_at g dir in_memory = elim (host.open_store dir in_memory) [
    | none ↦ none
    | some db ↦ some (open_collection kv setup db g)
  ]

  unfoldable pub get_collection : Target → Database kv → Server kv → Option Place × Server kv
  unfolding open_at
  get_collection t db s =
      let (place, db') = collection kv (open_at s.id_gen) t.coll_name t.in_memory db in
      elim place [
        | none ↦ (none, s)
        | some i ↦ (
          some (record { database = t.db_name; index = i }),
          record s { databases = assoc_put t.db_name db' s.databases },
        )
      ]

  -- A case that works on the collection behind a pointer.
  unfoldable pub on_collection :
      (OpenCollection kv → Outcome × OpenCollection kv) → Place → Server kv → Outcome × Server kv
  on_collection f p s = elim (collection_at kv p s) [
    | none ↦ (null_pointer, s)
    | some coll ↦ let (o, coll') = f coll in (o, put_collection kv p coll' s)
  ]

  unfoldable pub invalid_transaction : Request → Outcome
  invalid_transaction r =
      failure (codes "Invalid transaction number " ++ host.number r.transaction_id)

  -- That no id is found is ruled out while there are fewer than 2 ^ 31 transactions.
  unfoldable pub begin_transaction : Place → Server kv → Outcome × Server kv
  begin_transaction p s = elim (collection_at kv p s) [
    | none ↦ (null_pointer, s)
    | some coll ↦ elim (new_transaction kv setup coll) [
      | none ↦ (null_pointer, s)
      | some tx ↦ elim (get_next_transaction_id s.transactions s.transaction_id) [
        | none ↦ (null_pointer, s)
        | some (id, next) ↦
            let t : OpenTransaction kv = record {
              place = p;
              snapshot_id = coll.snapshot_id;
              state = tx;
            } in
            (
              reply_with (new_transaction_reply id),
              record s { transaction_id = next; transactions = put_at id t s.transactions },
            )
      ]
    ]
  ]

  unfoldable pub write_in : Transaction kv → OpenCollection kv → Outcome × OpenCollection kv
  write_in tx coll =
      let (error, coll') = write kv host (record tx { id_gen = coll.id_gen }) coll in
      (elim error [ none ↦ success | some text ↦ failure text ], coll')

  unfoldable pub write_open : Request → Server kv → Outcome × Server kv
  write_open r s = elim (find_at r.transaction_id s.transactions) [
    | none ↦ (invalid_transaction r, s)
    | some (id, t) ↦
        let (o, s') = on_collection (write_in t.state) t.place s in
        (o, record s' { transactions = remove_at id s'.transactions })
  ]

  unfoldable pub discard_open : Request → Server kv → Outcome × Server kv
  discard_open r s = elim (find_at r.transaction_id s.transactions) [
    | none ↦ (invalid_transaction r, s)
    | some (id, t) ↦ (success, record s { transactions = remove_at id s.transactions })
  ]

  -- An operation in a transaction that is open: the collection itself does not change.
  unfoldable pub alter_open : Request → Server kv → Outcome × Server kv
  alter_open r s = elim (find_at r.transaction_id s.transactions) [
    | none ↦ (invalid_transaction r, s)
    | some (id, t) ↦ elim (collection_at kv t.place s) [
      | none ↦ (null_pointer, s)
      | some coll ↦
          let c : Context kv = record (context kv setup coll) { snapshot_id = t.snapshot_id } in
          let ((body, text), tx') = alter kv host c r (record t.state { id_gen = s.id_gen }) in
          (
            done body text,
            record s {
              transactions = put_at id (record t { state = tx' }) s.transactions;
              id_gen = tx'.id_gen;
            },
          )
    ]
  ]

  unfoldable pub alter_documents : Request → Place → Server kv → Outcome × Server kv
  alter_documents r p s =
      if is_minus_one r.transaction_id
      then on_collection (alter_alone kv host r) p s
      else alter_open r s

  unfoldable pub observe_collection : ℕ → Request → Place → Server kv → Outcome × Server kv
  observe_collection c r p s = elim (collection_at kv p s) [
    | none ↦ (null_pointer, s)
    | some coll ↦
        let (id, coll') = observe kv setup r.query r.query_options r.prefered_id coll in
        let s' = put_collection kv p coll' s in
        (
          reply_with (observe_reply id),
          record s' {
            observe_client = put_at id (some c) s'.observe_client;
            observe_collection = put_at id p s'.observe_collection;
          },
        )
  ]

  -- `coll->unobserve(id)` of the collection behind a pointer
  unfoldable pub unobserve_at : ℕ → Place → Server kv → Server kv
  unobserve_at id p s = elim (collection_at kv p s) [
    | none ↦ record s { crashed = true }
    | some coll ↦ put_collection kv p (unobserve kv setup id coll) s
  ]

  -- `observeClient[observeId]` puts a null pointer where there is no client.
  unfoldable pub stop_observing : ℕ → Request → Server kv → Outcome × Server kv
  stop_observing c r s = elim (find_at r.observe_id s.observe_collection) [
    | none ↦ (success, s)
    | some (id, p) ↦ elim (at id s.observe_client) [
      | none ↦ (success, record s { observe_client = put_at id none s.observe_client })
      | some none ↦ (success, s)
      | some (some d) ↦
          let s' = unobserve_at id p s in
          if eqb d c
          then (
            success,
            record s' {
              observe_client = remove_at id s'.observe_client;
              observe_collection = remove_at id s'.observe_collection;
            },
          )
          else (success, s)
    ]
  ]

  unfoldable pub exclusive_lock : ℕ → Text → Server kv → Outcome × Server kv
  exclusive_lock c name s =
      if locked_by_other c name s.database_locks
      then (failure (codes "database " ++ (name ++ codes " is already locked")), s)
      else (success, record s { database_locks = assoc_put name c s.database_locks })

  -- `emit unlocked(dbName)`: one call in the event queue for each client that is connected
  unfoldable pub unlock : ℕ → Text → Server kv → Outcome × Server kv
  unlock c name s = elim (assoc name s.database_locks) [
    | none ↦ (failure (codes "database " ++ (name ++ codes " is not locked")), s)
    | some d ↦
        if eqb d c
        then (
          success,
          record s {
            database_locks = assoc_remove name s.database_locks;
            pending = s.pending ++ map (λ e. unlocked e name) s.clients;
          },
        )
        else (failure (codes "You are not owner database " ++ (name ++ codes " lock")), s)
  ]
