-- ===== src/Server/Sound.antt =====
-- The pointers of the server: those of transactions and observers lead to collections that are open.
pub mod Cases
pub mod Databases
pub mod Requests
use qdocdb.Prelude.{
  ℕ, zero, suc, ◌+◌, ◌^◌, ◌≤◌, ◌<◌, ◌≡◌, refl, sym, subst, ◌≢◌, Bool, true, false, Option, none,
  some, List, [], ◌∷◌, ◌++◌, Text, assoc, assoc_put, assoc-assoc_put, ◌==◌, ==_iff, at, at-put_at,
  at-remove_at, put_at, remove_at, ℤ, pos, negsuc, length, length-append, get_elem?, eqb,
  if◌then◌else◌, arith, inl, inr, Option-cases, Bool-cases,
}
use qdocdb.IdGen.{IdGen}
use qdocdb.Kv.Interface.{KvInterface}
use qdocdb.OpenCollection.{OpenCollection, new_transaction, start, observe, unobserve}
use qdocdb.Database.{Database, collection, find_collection}
use qdocdb.Server.{
  Request, Place, Host, Server, OpenTransaction, new_transaction_reply, collection_at,
  put_collection, replace_collection,
}
use qdocdb.Server.Operations.{Outcome, done, null_pointer, reply_with, alter_alone}
use qdocdb.Server.Numbers.{get_next_transaction_id}
use qdocdb.Server.Numbers.Fresh.{get_next_transaction_id-fresh}
use qdocdb.Server.Receive.{
  write_in, is_minus_one, invalid_transaction, on_collection, begin_transaction, write_open,
  discard_open, alter_open, alter_documents, observe_collection, unobserve_at, stop_observing,
  find_at,
}
use qdocdb.Server.Tables.{
  IsOpen, AllOpen, TablesOpen, size, assoc-AllOpen, assoc_put-TablesOpen, get_elem?-IsOpen,
  get_elem?-some, replace_collection-AllOpen, length-replace_collection, size-assoc_put,
}
use qdocdb.Server.Kinds.{Fine, write_in-Fine, alter_alone-Fine, observe-IsOpen, unobserve-IsOpen}

module _ {kv : KvInterface} where
  -- A pointer that leads to a collection.
  abbrev pub IsPlace : Place → Server kv → Type 0
  IsPlace p s = p.index < size p.database s.databases

  pub record Sound (s : Server kv) : Type 0 where
    pub open_tables : TablesOpen s.databases
    pub transaction_places :
        (id : ℕ) (t : OpenTransaction kv) → at id s.transactions ≡ some t → IsPlace t.place s
    pub observer_places : (id : ℕ) (p : Place) → at id s.observe_collection ≡ some p → IsPlace p s
    pub counter : s.transaction_id ≤ 2 ^ 31

  pub collection_at-some :
      (p : Place) (s : Server kv)
      → TablesOpen s.databases
      → IsPlace p s
      → (coll : OpenCollection kv) × (collection_at kv p s ≡ some coll) × IsOpen coll
  unfolding collection_at size
  collection_at-some p s o h = elim (Option-cases (assoc p.database s.databases)) [
    | inl e ↦ absurd (ground (arith, e))
    | inr (db, e) ↦
        let (x, f) = get_elem?-some db.coll_list p.index (ground (arith, e)) in
        (
          record x.1 { id_gen = s.id_gen },
          ground (arith, e, f),
          get_elem?-IsOpen db.coll_list p.index x (assoc-AllOpen p.database s.databases db o e) f,
        )
  ]

  -- The tables of databases grow, the other tables stay: what is sound stays sound.
  pub Sound-grow :
      (s t : Server kv)
      → Sound s
      → TablesOpen t.databases
      → ((name : Text) → size name s.databases ≤ size name t.databases)
      → t.transactions ≡ s.transactions
      → t.observe_collection ≡ s.observe_collection
      → t.transaction_id ≡ s.transaction_id
      → Sound t
  Sound-grow s t h o g a b d = record {
    open_tables = o;
    transaction_places =
        λ id x e. ground (arith, h.transaction_places id x, g x.place.database, a, e);
    observer_places = λ id p e. ground (arith, h.observer_places id p, g p.database, b, e);
    counter = ground (arith, h.counter, d);
  }

  put_collection-TablesOpen :
      (p : Place) (coll : OpenCollection kv) (s : Server kv)
      → TablesOpen s.databases
      → IsOpen coll
      → TablesOpen (put_collection kv p coll s).databases
  unfolding put_collection
  put_collection-TablesOpen p coll s h o = elim (Option-cases (assoc p.database s.databases)) [
    | inl e ↦ ground (arith, e)
    | inr (db, e) ↦
        let coll' : OpenCollection kv = record coll { emitted = [] } in
        let db' : Database kv = record db {
          coll_list = replace_collection kv p.index coll' db.coll_list;
        } in
        let all =
          replace_collection-AllOpen p.index coll' db.coll_list
            (assoc-AllOpen p.database s.databases db h e) o in
        ground (arith, e, assoc_put-TablesOpen p.database s.databases db' h all)
  ]

  pub put_collection-size :
      (p : Place) (coll : OpenCollection kv) (s : Server kv) (name : Text)
      → size name s.databases ≤ size name (put_collection kv p coll s).databases
  unfolding put_collection
  put_collection-size p coll s name = elim (Option-cases (assoc p.database s.databases)) [
    | inl e ↦ ground (arith, e)
    | inr (db, e) ↦
        let coll' : OpenCollection kv = record coll { emitted = [] } in
        let db' : Database kv = record db {
          coll_list = replace_collection kv p.index coll' db.coll_list;
        } in
        ground (
          arith,
          e,
          size-assoc_put p.database name s.databases db' (
              unfold size in
              ground (arith, e, length-replace_collection p.index coll' db.coll_list)),
        )
  ]

  pub put_collection-same :
      (p : Place) (coll : OpenCollection kv) (s : Server kv)
      → let t = put_collection kv p coll s in
        (t.transactions ≡ s.transactions)
        × (t.observe_collection ≡ s.observe_collection)
        × (t.observe_client ≡ s.observe_client)
        × (t.transaction_id ≡ s.transaction_id)
        × (t.crashed ≡ s.crashed)
        × (t.database_locks ≡ s.database_locks)
        × (t.clients ≡ s.clients)
  unfolding put_collection
  put_collection-same p coll s = ground arith

  pub put_collection-Sound :
      (p : Place) (coll : OpenCollection kv) (s : Server kv)
      → Sound s
      → IsOpen coll
      → Sound (put_collection kv p coll s)
  put_collection-Sound p coll s h o =
      let (a, b, c, d, crashed, locks, clients) = put_collection-same p coll s in
      Sound-grow s (put_collection kv p coll s) h
        (put_collection-TablesOpen p coll s h.open_tables o) (put_collection-size p coll s) a b d

  -- The table of transactions changes, and nothing else that pointers are in.
  pub Sound-transactions :
      (s t : Server kv)
      → Sound s
      → t.databases ≡ s.databases
      → t.observe_collection ≡ s.observe_collection
      → t.transaction_id ≤ 2 ^ 31
      → ((id : ℕ) (x : OpenTransaction kv) → at id t.transactions ≡ some x → IsPlace x.place s)
      → Sound t
  Sound-transactions s t h a b counter places = record {
    open_tables = ground (arith, h.open_tables, a);
    transaction_places = λ id x e. ground (arith, places id x e, a);
    observer_places = λ id p e. ground (arith, h.observer_places id p, a, b, e);
    counter = counter;
  }

  -- The other tables, the messages and the queues do not matter.
  pub Sound-same :
      (s t : Server kv)
      → Sound s
      → t.databases ≡ s.databases
      → t.transactions ≡ s.transactions
      → t.observe_collection ≡ s.observe_collection
      → t.transaction_id ≡ s.transaction_id
      → Sound t
  Sound-same s t h a b c d =
      Sound-grow s t h (ground (arith, h.open_tables, a)) (λ name. ground (arith, a)) b c d

  -- What a case of `receive` leaves.
  abbrev pub Good : Server kv → Outcome × Server kv → Type 0
  Good s (o, t) = (o ≢ null_pointer) × Sound t × (t.crashed ≡ s.crashed)
