-- ===== src/Server/Elsewhere.antt =====
-- A request with a URL works on the database that the URL names, and on no other.
use qdocdb.Prelude.{
  ℕ, ◌≡◌, refl, true, false, Option, none, some, Text, assoc, assoc-assoc_put, assoc-assoc_remove,
  ◌==◌, ==_iff, arith, inl, inr, Option-cases,
}
use qdocdb.Kv.Interface.{KvInterface}
use qdocdb.OpenCollection.{OpenCollection, observe}
use qdocdb.Database.{Database}
use qdocdb.Server.{Request, Place, Host, Server, collection_at, put_collection}
use qdocdb.Server.Operations.{
  Outcome, done, null_pointer, alter_alone, search, index_collection, list_snapshots,
  change_snapshots,
}
use qdocdb.Server.Receive.{
  Target, target_of, is_url_needed, get_database, get_collection, on_collection, begin_transaction,
  alter_open, alter_documents, observe_collection, exclusive_lock, unlock, handle, handle_lock,
  handle_collection, handle_url, answer, append_unlock_wait, receive,
}

module _ (kv : KvInterface) (host : Host kv) (name : Text) where
  -- A database and its lock are what they were.
  abbrev pub Untouched : Server kv → Server kv → Type 0
  Untouched s t =
      (assoc name t.databases ≡ assoc name s.databases)
      × (assoc name t.database_locks ≡ assoc name s.database_locks)

  put_collection-Untouched :
      (p : Place) (coll : OpenCollection kv) (s : Server kv)
      → (p.database == name) ≡ false
      → Untouched s (put_collection kv p coll s)
  unfolding put_collection
  put_collection-Untouched p coll s h = grind (arith, assoc-assoc_put)

  on_collection-Untouched :
      (f : OpenCollection kv → Outcome × OpenCollection kv) (p : Place) (s : Server kv)
      → (p.database == name) ≡ false
      → Untouched s (on_collection kv host f p s).1
  unfolding on_collection
  on_collection-Untouched f p s h = elim (Option-cases (collection_at kv p s)) [
    | inl e ↦ ground (arith, e)
    | inr (coll, e) ↦ ground (arith, e, put_collection-Untouched p (f coll).1 s h)
  ]

  begin_transaction-Untouched :
      (p : Place) (s : Server kv) → Untouched s (begin_transaction kv host p s).1
  unfolding begin_transaction
  begin_transaction-Untouched p s = ground arith

  alter_open-Untouched : (r : Request) (s : Server kv) → Untouched s (alter_open kv host r s).1
  unfolding alter_open
  alter_open-Untouched r s = ground arith

  alter_documents-Untouched :
      (r : Request) (p : Place) (s : Server kv)
      → (p.database == name) ≡ false
      → Untouched s (alter_documents kv host r p s).1
  unfolding alter_documents
  alter_documents-Untouched r p s h =
      ground
        (arith, on_collection-Untouched (alter_alone kv host r) p s h, alter_open-Untouched r s)

  observe_collection-Untouched :
      (c : ℕ) (r : Request) (p : Place) (s : Server kv)
      → (p.database == name) ≡ false
      → Untouched s (observe_collection kv host c r p s).1
  unfolding observe_collection
  observe_collection-Untouched c r p s h = elim (Option-cases (collection_at kv p s)) [
    | inl e ↦ ground (arith, e)
    | inr (coll, e) ↦
        let coll' = (observe kv host.setup r.query r.query_options r.prefered_id coll).1 in
        ground (arith, e, put_collection-Untouched p coll' s h)
  ]

  handle-Untouched :
      (c : ℕ) (r : Request) (p : Place) (s : Server kv)
      → (p.database == name) ≡ false
      → Untouched s (handle kv host c r p s).1
  unfolding handle
  handle-Untouched c r p s h = ground (
    arith,
    on_collection-Untouched (search kv host r) p s h,
    on_collection-Untouched (index_collection kv host r) p s h,
    on_collection-Untouched (list_snapshots kv host) p s h,
    on_collection-Untouched (change_snapshots kv host r) p s h,
    begin_transaction-Untouched p s,
    alter_documents-Untouched r p s h,
    observe_collection-Untouched c r p s h,
  )

  get_collection-Untouched :
      (t : Target) (db : Database kv) (s : Server kv)
      → (t.db_name == name) ≡ false
      → Untouched s (get_collection kv host t db s).1
  unfolding get_collection
  get_collection-Untouched t db s h = grind (arith, assoc-assoc_put)

  -- The collection that is found stands in the database of the URL.
  get_collection-database :
      (t : Target) (db : Database kv) (s : Server kv) (p : Place)
      → (get_collection kv host t db s).0 ≡ some p
      → p.database ≡ t.db_name
  unfolding get_collection
  get_collection-database t db s p e = ground arith

  handle_collection-Untouched :
      (c : ℕ) (r : Request) (t : Target) (db : Database kv) (s : Server kv)
      → (t.db_name == name) ≡ false
      → Untouched s (handle_collection kv host c r t db s).1
  unfolding handle_collection
  handle_collection-Untouched c r t db s h = elim (Option-cases (get_collection kv host t db s).0) [
    | inl e ↦ ground (arith, e, get_collection-Untouched t db s h)
    | inr (p, e) ↦ ground (
      arith,
      e,
      get_collection-Untouched t db s h,
      handle-Untouched c r p (get_collection kv host t db s).1,
      get_collection-database t db s p e,
    )
  ]

  handle_lock-Untouched :
      (c : ℕ) (r : Request) (other : Text) (s : Server kv)
      → (other == name) ≡ false
      → Untouched s (handle_lock kv host c r other s).1
  unfolding handle_lock exclusive_lock unlock
  handle_lock-Untouched c r other s h = ground (
    arith,
    assoc-assoc_put other name c s.database_locks,
    assoc-assoc_remove other name s.database_locks,
  )

  handle_url-Untouched :
      (c : ℕ) (r : Request) (t : Target) (db : Option (Database kv)) (s : Server kv)
      → (t.db_name == name) ≡ false
      → Untouched s (handle_url kv host c r t db s).1
  unfolding handle_url
  handle_url-Untouched c r t none s h = (refl, refl)
  handle_url-Untouched c r t (some db) s h =
      ground
        (arith, handle_collection-Untouched c r t db s h, handle_lock-Untouched c r t.db_name s h)

  -- A database that is open stays as it is while the database of a URL is looked for.
  get_database-Untouched :
      (other : Text) (s : Server kv) (db : Database kv)
      → assoc name s.databases ≡ some db
      → Untouched s (get_database kv host other s).1
  unfolding get_database
  get_database-Untouched other s db e = grind (arith, assoc-assoc_put, ==_iff)

  answer-Untouched :
      (c : ℕ) (r : Request) (o : Outcome) (s : Server kv) → Untouched s (answer kv host c r (o, s))
  unfolding answer
  answer-Untouched c r (done b t) s = (refl, refl)
  answer-Untouched c r null_pointer s = (refl, refl)

  -- A request whose URL names another database leaves a database that is open, with all of its
  -- collections, and its lock as they were: also where the request opens its own database, is put off
  -- or fails.
  pub receive-elsewhere :
      (c : ℕ) (r : Request) (s : Server kv) (db : Database kv)
      → is_url_needed r.type ≡ true
      → assoc name s.databases ≡ some db
      → ((target_of (host.parse_url r.url)).db_name == name) ≡ false
      → Untouched s (receive kv host c r s)
  unfolding receive append_unlock_wait
  receive-elsewhere c r s db u e h =
      let t = target_of (host.parse_url r.url) in
      let (found, s') = get_database kv host t.db_name s in
      let (o, s'') = handle_url kv host c r t found s' in
      ground (
        arith,
        u,
        get_database-Untouched t.db_name s db e,
        handle_url-Untouched c r t found s' h,
        answer-Untouched c r o s'',
      )
