-- ===== src/Server/Quiet.antt =====
-- What the cases of `receive` leave alone: the messages sent, the queues of the links, the clients.
use qdocdb.Prelude.{
  ℕ, ◌≡◌, refl, ap, false, Option, none, some, List, [], ◌∷◌, Text, arith, inl, inr, suc, ◌≤◌,
  length, put_at, remove_at, assoc_put, assoc_remove, Option-cases, ◌⊎◌, ◌≢◌,
}
use qdocdb.Kv.Interface.{KvInterface}
use qdocdb.OpenCollection.{OpenCollection, observe, unobserve}
use qdocdb.Database.{Database}
use qdocdb.Server.{is_data, Request, Message, Place, Host, Server, collection_at, put_collection}
use qdocdb.Server.Replies.{says_data, body_says_data}
use qdocdb.Server.Operations.{
  Outcome, done, null_pointer, search, index_collection, alter_alone, list_snapshots,
  change_snapshots,
}
use qdocdb.Server.Receive.{
  Target, reply_to, find_at, write_in, locked_by_other, get_database, get_collection, on_collection,
  begin_transaction, write_open, discard_open, alter_open, alter_documents, observe_collection,
  unobserve_at, stop_observing, exclusive_lock, unlock, handle, handle_number, handle_lock,
  handle_collection, handle_url, answer,
}

module _ {ℓ} {V : Type ℓ} where
  length-put_at : (k : ℕ) (v : V) (m : List (ℕ × V)) → length (put_at k v m) ≤ suc (length m)
  unfolding put_at
  length-put_at k v [] = omega arith
  length-put_at k v ((j, w) ∷ m) = ground (arith, length-put_at k v m)

  length-remove_at : (k : ℕ) (m : List (ℕ × V)) → length (remove_at k m) ≤ suc (length m)
  unfolding remove_at
  length-remove_at k [] = omega arith
  length-remove_at k ((j, w) ∷ m) = ground (arith, length-remove_at k m)

-- What a request of client `c` for a database does to the locks: if that database is not locked by
-- another client, it may be locked by `c` or unlocked.
abbrev pub LockChange : ℕ → Text → List (Text × ℕ) → List (Text × ℕ) → Type 0
LockChange c name l l' =
    (l' ≡ l)
    ⊎ ((locked_by_other c name l ≡ false)
        × ((l' ≡ assoc_put name c l) ⊎ (l' ≡ assoc_remove name l)))

module _ (kv : KvInterface) (host : Host kv) where
  -- A call of a collection leaves all of these.
  abbrev pub Same : Server kv → Server kv → Type 0
  Same s t =
      (t.sent ≡ s.sent)
      × (t.unlock_wait ≡ s.unlock_wait)
      × (t.clients ≡ s.clients)
      × (t.database_locks ≡ s.database_locks)
      × (t.transactions ≡ s.transactions)

  -- And there is at most one more transaction.
  abbrev pub Quiet : Server kv → Server kv → Type 0
  Quiet s t =
      (t.sent ≡ s.sent)
      × (t.unlock_wait ≡ s.unlock_wait)
      × (t.clients ≡ s.clients)
      × (t.database_locks ≡ s.database_locks)
      × (length t.transactions ≤ suc (length s.transactions))

  pub put_collection-Same :
      (p : Place) (coll : OpenCollection kv) (s : Server kv) → Same s (put_collection kv p coll s)
  unfolding put_collection
  put_collection-Same p coll s = ground arith

  pub on_collection-Same :
      (f : OpenCollection kv → Outcome × OpenCollection kv) (p : Place) (s : Server kv)
      → Same s (on_collection kv host f p s).1
  unfolding on_collection
  on_collection-Same f p s = elim (Option-cases (collection_at kv p s)) [
    | inl e ↦ ground (arith, e)
    | inr (coll, e) ↦ ground (arith, e, put_collection-Same p (f coll).1 s)
  ]

  observe_collection-Same :
      (c : ℕ) (r : Request) (p : Place) (s : Server kv)
      → Same s (observe_collection kv host c r p s).1
  unfolding observe_collection
  observe_collection-Same c r p s = elim (Option-cases (collection_at kv p s)) [
    | inl e ↦ ground (arith, e)
    | inr (coll, e) ↦
        let coll' = (observe kv host.setup r.query r.query_options r.prefered_id coll).1 in
        ground (arith, e, put_collection-Same p coll' s)
  ]

  begin_transaction-Quiet : (p : Place) (s : Server kv) → Quiet s (begin_transaction kv host p s).1
  unfolding begin_transaction
  begin_transaction-Quiet p s = grind (arith, length-put_at)

  alter_open-Quiet : (r : Request) (s : Server kv) → Quiet s (alter_open kv host r s).1
  unfolding alter_open
  alter_open-Quiet r s = grind (arith, length-put_at)

  handle-Quiet :
      (c : ℕ) (r : Request) (p : Place) (s : Server kv) → Quiet s (handle kv host c r p s).1
  unfolding handle alter_documents
  handle-Quiet c r p s = ground (
    arith,
    on_collection-Same (search kv host r) p s,
    on_collection-Same (index_collection kv host r) p s,
    on_collection-Same (alter_alone kv host r) p s,
    on_collection-Same (list_snapshots kv host) p s,
    on_collection-Same (change_snapshots kv host r) p s,
    observe_collection-Same c r p s,
    begin_transaction-Quiet p s,
    alter_open-Quiet r s,
  )

  pub unobserve_at-Same :
      (id : ℕ) (p : Place) (s : Server kv) → Same s (unobserve_at kv host id p s)
  unfolding unobserve_at
  unobserve_at-Same id p s = elim (Option-cases (collection_at kv p s)) [
    | inl e ↦ ground (arith, e)
    | inr (coll, e) ↦ ground (arith, e, put_collection-Same p (unobserve kv host.setup id coll) s)
  ]

  write_open-Quiet : (r : Request) (s : Server kv) → Quiet s (write_open kv host r s).1
  unfolding write_open
  write_open-Quiet r s = elim (Option-cases (find_at r.transaction_id s.transactions)) [
    | inl e ↦ ground (arith, e)
    | inr ((id, t), e) ↦
        let q = on_collection-Same (write_in kv host t.state) t.place s in
        ground (arith, e, q, length-remove_at id s.transactions)
  ]

  discard_open-Quiet : (r : Request) (s : Server kv) → Quiet s (discard_open kv host r s).1
  unfolding discard_open
  discard_open-Quiet r s = grind (arith, length-remove_at)

  stop_observing-Same :
      (c : ℕ) (r : Request) (s : Server kv) → Same s (stop_observing kv host c r s).1
  unfolding stop_observing
  stop_observing-Same c r s = elim (Option-cases (find_at r.observe_id s.observe_collection)) [
    | inl e ↦ ground (arith, e)
    | inr ((id, p), e) ↦ ground (arith, e, unobserve_at-Same id p s)
  ]

  pub handle_number-Quiet :
      (c : ℕ) (r : Request) (s : Server kv) → Quiet s (handle_number kv host c r s).1
  unfolding handle_number
  handle_number-Quiet c r s =
      ground (arith, write_open-Quiet r s, discard_open-Quiet r s, stop_observing-Same c r s)

  get_collection-Same :
      (t : Target) (db : Database kv) (s : Server kv) → Same s (get_collection kv host t db s).1
  unfolding get_collection
  get_collection-Same t db s = ground arith

  handle_collection-Quiet :
      (c : ℕ) (r : Request) (t : Target) (db : Database kv) (s : Server kv)
      → Quiet s (handle_collection kv host c r t db s).1
  unfolding handle_collection
  handle_collection-Quiet c r t db s = elim (Option-cases (get_collection kv host t db s).0) [
    | inl e ↦ ground (arith, e, get_collection-Same t db s)
    | inr (p, e) ↦
        let s' = (get_collection kv host t db s).1 in
        ground (arith, e, get_collection-Same t db s, handle-Quiet c r p s')
  ]

  pub get_database-Same : (name : Text) (s : Server kv) → Same s (get_database kv host name s).1
  unfolding get_database
  get_database-Same name s = ground arith

  -- The same of a request of client `c` for a database, which may take or give back the lock of a database.
  abbrev pub Calm : ℕ → Text → Server kv → Server kv → Type 0
  Calm c name s t =
      (t.sent ≡ s.sent)
      × (t.unlock_wait ≡ s.unlock_wait)
      × (t.clients ≡ s.clients)
      × LockChange c name s.database_locks t.database_locks
      × (length t.transactions ≤ suc (length s.transactions))

  handle_lock-Calm :
      (c : ℕ) (r : Request) (name : Text) (s : Server kv)
      → Calm c name s (handle_lock kv host c r name s).1
  unfolding handle_lock exclusive_lock unlock locked_by_other
  handle_lock-Calm c r name s = ground arith

  pub handle_url-Calm :
      (c : ℕ) (r : Request) (t : Target) (db : Option (Database kv)) (s : Server kv)
      → Calm c t.db_name s (handle_url kv host c r t db s).1
  unfolding handle_url
  handle_url-Calm c r t none s = (refl, refl, refl, inl refl, omega arith)
  handle_url-Calm c r t (some db) s =
      ground (arith, handle_collection-Quiet c r t db s, handle_lock-Calm c r t.db_name s)

  -- One request has been answered: by one message, to its sender, with its id, that is no data for an
  -- observer; no link's queue has changed.
  abbrev pub IsAnswered : ℕ → Request → Server kv → Server kv → Type 0
  IsAnswered c r s t =
      (t.unlock_wait ≡ s.unlock_wait)
      × ((m : Message) × (t.sent ≡ (c, m) ∷ s.sent) × (m.id ≡ r.id) × (is_data m.body ≡ false))

  pub answer-IsAnswered :
      (c : ℕ) (r : Request) (o : Outcome) (s t : Server kv)
      → t.sent ≡ s.sent
      → t.unlock_wait ≡ s.unlock_wait
      → o ≢ null_pointer
      → says_data o ≡ false
      → IsAnswered c r s (answer kv host c r (o, t))
  unfolding answer says_data body_says_data is_data
  answer-IsAnswered c r (done none text) s t q w n d =
      (w, (reply_to r none text, ap (λ l. (c, reply_to r none text) ∷ l) q, refl, refl))
  answer-IsAnswered c r (done (some b) text) s t q w n d =
      (w, (reply_to r (some b) text, ap (λ l. (c, reply_to r (some b) text) ∷ l) q, refl, d))
  answer-IsAnswered c r null_pointer s t q w n d = absurd (n refl)
