-- ===== src/OpenCollection.antt =====
-- qdocdb/qdoccollection.cpp, class QDocCollection: an open collection with its observers, and the
-- commit of its transactions. Emitted signals are a list, the last one first.
pub mod Snapshots
pub mod Signals
pub mod Committed
use qdocdb.Prelude.{
  ℕ, Bool, true, false, Option, none, some, List, [], ◌∷◌, map, Text, codes, at, put_at, remove_at,
  if◌then◌else◌,
}
use qdocdb.Json.{Json, Fields, end}
use qdocdb.Qt.{Qt}
use qdocdb.IdGen.{IdGen, System, CommonConfig, get_next_number}
use qdocdb.Kv.Interface.{KvInterface}
use qdocdb.Collection.{Code, Result, ok, err}
use qdocdb.Find.{Source, find, get_last_snapshot_id}
use qdocdb.Transaction.{Observer, Observers, Transaction, Context, Exec, put_snapshots_value}
use qdocdb.Transaction.Remove.{write_transaction}

-- enum classTypeEnum, without the transactions, which have a type of their own
pub data ClassType : Type 0 where
  type_collection type_read_only_snapshot : ClassType

-- What does not change while a collection is open.
pub record Setup : Type 0 where
  pub qt : Qt
  pub config : CommonConfig
  pub system : System
  -- what an uninitialised Boolean variable holds
  pub junk : Bool

pub record OpenCollection (kv : KvInterface) : Type 0 where
  pub class_type : ClassType
  pub db : kv.Db
  pub snapshot_id : ℕ
  pub observers : Observers
  pub last_error : Text
  pub id_gen : IdGen
  pub emitted : List (ℕ × List Json)

-- The signals of `emitObservers`, and an observer after its signal.
unfoldable pub emit_list : Observers → List (ℕ × List Json) → List (ℕ × List Json)
emit_list [] out = out
emit_list ((id, o) ∷ rest) out = emit_list rest (if o.triggered then (id, o.reply) ∷ out else out)

unfoldable pub calm : ℕ × Observer → ℕ × Observer
calm (id, o) = (id, record o { triggered = false })

unfoldable pub emit_observers : {kv : KvInterface} → OpenCollection kv → OpenCollection kv
unfolding emit_list calm
emit_observers coll = record coll {
  observers = map calm coll.observers;
  emitted = emit_list coll.observers coll.emitted;
}

module _ (kv : KvInterface) (setup : Setup) where
  open setup use {qt, junk}

  abbrev pub source_of : OpenCollection kv → Source kv
  source_of coll = record {
    db = coll.db;
    read = λ k. kv.db_get k coll.db;
    snapshot_id = coll.snapshot_id;
  }

  abbrev pub context : OpenCollection kv → Context kv
  context coll = record {
    qt = qt;
    db = coll.db;
    snapshot_id = coll.snapshot_id;
    config = setup.config;
    system = setup.system;
    junk = junk;
  }

  abbrev pub start : OpenCollection kv → Transaction kv
  start coll = record {
    tx = kv.new_transaction;
    observers = coll.observers;
    last_error = [];
    id_gen = coll.id_gen;
  }

  -- `newTransaction`: only a collection has transactions.
  unfoldable pub new_transaction : OpenCollection kv → Option (Transaction kv)
  new_transaction coll = elim coll.class_type [
    | type_collection ↦ some (start coll)
    | type_read_only_snapshot ↦ none
  ]

  -- `writeTransaction` of a transaction of this collection
  unfoldable pub commit : Transaction kv → OpenCollection kv → Result (Unit {0}) × OpenCollection kv
  commit s coll =
      let (r, s', db', observers') = write_transaction kv (context coll) s coll.observers in
      let written : OpenCollection kv = record coll {
        db = db';
        observers = observers';
        id_gen = s'.id_gen;
      } in
      elim r [ ok u ↦ (ok tt, emit_observers written) | err e ↦ (err e, written) ]

  -- An observer whose reply has been searched and emitted.
  unfoldable pub add_observer :
      Fields → Fields → ℕ → IdGen → OpenCollection kv → ℕ × OpenCollection kv
  add_observer query query_options id g coll =
      let reply = map (λ p. p.0) (find kv qt (source_of coll) junk query query_options).1 in
      let o : Observer = record {
        query = query;
        query_options = query_options;
        reply = reply;
        triggered = false;
      } in
      (
        id,
        record coll {
          id_gen = g;
          observers = put_at id o coll.observers;
          emitted = (id, reply) ∷ coll.emitted;
        },
      )

  -- The result of `observe` is the id; `preferedId` is none for -1;
  -- smaller numbers are left out.
  unfoldable pub observe : Fields → Fields → Option ℕ → OpenCollection kv → ℕ × OpenCollection kv
  observe query query_options prefered_id coll =
      let (fresh, g) = get_next_number coll.id_gen in
      elim prefered_id [
        | none ↦ add_observer query query_options fresh g coll
        | some id ↦ elim (at id coll.observers) [
          | none ↦ add_observer query query_options id coll.id_gen coll
          | some o ↦ add_observer query query_options fresh g coll
        ]
      ]

  unfoldable pub unobserve : ℕ → OpenCollection kv → OpenCollection kv
  unobserve id coll = record coll { observers = remove_at id coll.observers }

  unfoldable pub reload : OpenCollection kv → ℕ × Observer → ℕ × Observer
  reload coll (id, o) = (
    id,
    record o {
      reply = map (λ p. p.0) (find kv qt (source_of coll) junk o.query end).1;
      triggered = true;
    },
  )

  -- The options of the observers are not passed on to `find`.
  unfoldable pub reload_observers : OpenCollection kv → OpenCollection kv
  unfolding reload
  reload_observers coll =
      emit_observers (record coll { observers = map (reload coll) coll.observers })

  -- The constructor, over a database that could be opened.
  unfoldable pub open_collection : kv.Db → IdGen → OpenCollection kv
  open_collection db g =
      let coll : OpenCollection kv = record {
        class_type = type_collection;
        db = db;
        snapshot_id = 0;
        observers = [];
        last_error = [];
        id_gen = g;
        emitted = [];
      } in
      elim (get_last_snapshot_id kv qt (source_of coll)) [
        | ok id ↦ (commit (start coll) (record coll { snapshot_id = id })).1
        | err e ↦
            let (r, s) =
              put_snapshots_value kv (context coll) (codes "__CURRENT" ∷ []) (start coll) in
            (commit s coll).1
      ]
