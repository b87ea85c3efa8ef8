-- ===== src/Server/Sound/Requests.antt =====
-- A request never makes the server use a null pointer, and what is sound stays so.
use qdocdb.Prelude.{
  ℕ, suc, ◌^◌, ◌≤◌, ◌<◌, ◌≡◌, refl, ap, ◌∙◌, Bool, true, false, Option, none, some, List, [], ◌∷◌,
  ◌++◌, Text, assoc, assoc_put, assoc_remove, map, ◌&&◌, length, arith, inl, inr, ◌⊎◌, Bool-cases,
}
use qdocdb.Kv.Interface.{KvInterface}
use qdocdb.Database.{Database}
use qdocdb.Server.{Request, Event, unlocked, Host, Server}
use qdocdb.Server.Operations.{Outcome, done, null_pointer}
use qdocdb.Server.Receive.{
  Target, reply_to, target_of, is_url_needed, locked_by_other, get_database, exclusive_lock, unlock,
  handle_number, handle_lock, handle_url, answer, append_unlock_wait, receive,
}
use qdocdb.Server.Replies.{handle_number-reply, handle_url-reply}
use qdocdb.Server.Quiet.{
  IsAnswered, LockChange, answer-IsAnswered, handle_url-Calm, get_database-Same,
  handle_number-Quiet,
}
use qdocdb.Server.Sound.{Sound, Good, Sound-same}
use qdocdb.Server.Sound.Databases.{
  handle_number-Good, get_database-Sound, get_database-found, handle_collection-Good,
}

module _ (kv : KvInterface) (host : Host kv) where
  locks-Sound :
      (l : List (Text × ℕ)) (es : List Event) (s : Server kv)
      → Sound s
      → Sound (record s { database_locks = l; pending = es })
  locks-Sound l es s h =
      Sound-same s (record s { database_locks = l; pending = es }) h refl refl refl refl

  handle_lock-Good :
      (c : ℕ) (r : Request) (name : Text) (s : Server kv)
      → Sound s
      → Good s (handle_lock kv host c r name s)
  unfolding handle_lock exclusive_lock unlock
  handle_lock-Good c r name s h = ground (
    arith,
    h,
    locks-Sound (assoc_put name c s.database_locks) s.pending s h,
    locks-Sound (assoc_remove name s.database_locks)
        (s.pending ++ map (λ e. unlocked e name) s.clients) s h,
  )

  handle_url-Good :
      (c : ℕ) (r : Request) (t : Target) (database : Option (Database kv)) (s : Server kv)
      → Sound s
      → length s.transactions < 2 ^ 31
      → ((db : Database kv) → database ≡ some db → assoc t.db_name s.databases ≡ some db)
      → Good s (handle_url kv host c r t database s)
  unfolding handle_url
  handle_url-Good c r t none s h small e = (λ q. cc, h, refl)
  handle_url-Good c r t (some db) s h small e = ground (
    arith,
    handle_collection-Good kv host c r t db s h small (e db refl),
    handle_lock-Good c r t.db_name s h,
  )

  answer-Sound :
      (c : ℕ) (r : Request) (o : Outcome) (s t : Server kv)
      → Good s (o, t)
      → Sound (answer kv host c r (o, t)) × ((answer kv host c r (o, t)).crashed ≡ s.crashed)
  unfolding answer
  answer-Sound c r (done b text) s t (n, h, e) =
      (Sound-same t (record t { sent = (c, reply_to r b text) ∷ t.sent }) h refl refl refl refl, e)
  answer-Sound c r null_pointer s t (n, h, e) = absurd (n refl)

  put_off-Sound :
      (c : ℕ) (r : Request) (s : Server kv) → Sound s → Sound (append_unlock_wait kv host c r s)
  unfolding append_unlock_wait
  put_off-Sound c r s h =
      Sound-same s (record s { unlock_wait = s.unlock_wait ++ (c, r) ∷ [] }) h refl refl refl refl

  get_database-locks :
      (name : Text) (s : Server kv)
      → (get_database kv host name s).1.database_locks ≡ s.database_locks
  unfolding get_database
  get_database-locks name s = ground arith

  -- The request is put off: its URL names a database that another client has locked.
  abbrev pub is_put_off : ℕ → Request → Server kv → Bool
  is_put_off c r s =
      is_url_needed r.type
      && locked_by_other c (target_of (host.parse_url r.url)).db_name s.database_locks

  -- The three ways of `receive`.
  receive-number :
      (c : ℕ) (r : Request) (s : Server kv)
      → is_url_needed r.type ≡ false
      → receive kv host c r s ≡ answer kv host c r (handle_number kv host c r s)
  unfolding receive
  receive-number c r s u = rw (u, receive) refl

  receive-put_off :
      (c : ℕ) (r : Request) (s : Server kv)
      → is_put_off c r s ≡ true
      → let name = (target_of (host.parse_url r.url)).db_name in
        receive kv host c r s ≡ append_unlock_wait kv host c r (get_database kv host name s).1
  unfolding receive
  receive-put_off c r s u =
      ground (arith, u, get_database-locks (target_of (host.parse_url r.url)).db_name s)

  receive-handled :
      (c : ℕ) (r : Request) (s : Server kv)
      → is_url_needed r.type ≡ true
      → is_put_off c r s ≡ false
      → let t = target_of (host.parse_url r.url) in
        let (db, s') = get_database kv host t.db_name s in
        receive kv host c r s ≡ answer kv host c r (handle_url kv host c r t db s')
  unfolding receive
  receive-handled c r s u f =
      ground (arith, u, f, get_database-locks (target_of (host.parse_url r.url)).db_name s)

  handled-Good :
      (c : ℕ) (r : Request) (s : Server kv)
      → Sound s
      → length s.transactions < 2 ^ 31
      → let t = target_of (host.parse_url r.url) in
        let (db, s') = get_database kv host t.db_name s in Good s' (handle_url kv host c r t db s')
  handled-Good c r s h small =
      let t = target_of (host.parse_url r.url) in
      let (db, s') = get_database kv host t.db_name s in
      let (h', crashed, same) = get_database-Sound kv host t.db_name s h in
      handle_url-Good c r t db s' h' (ground (arith, small, same))
        (get_database-found kv host t.db_name s)

  -- A request of any kind leaves a sound server sound, and has used no null pointer.
  pub receive-Sound :
      (c : ℕ) (r : Request) (s : Server kv)
      → Sound s
      → length s.transactions < 2 ^ 31
      → Sound (receive kv host c r s) × ((receive kv host c r s).crashed ≡ s.crashed)
  unfolding append_unlock_wait
  receive-Sound c r s h small =
      let t = target_of (host.parse_url r.url) in
      let (db, s') = get_database kv host t.db_name s in
      let (h', crashed, same) = get_database-Sound kv host t.db_name s h in
      elim (Bool-cases (is_url_needed r.type)) [
        | inr u ↦ rw (receive-number c r s u) (
            answer-Sound c r (handle_number kv host c r s).0 s (handle_number kv host c r s).1
              (handle_number-Good kv host c r s h))
        | inl u ↦ elim (Bool-cases (is_put_off c r s)) [
          | inl f ↦ rw (receive-put_off c r s f) (put_off-Sound c r s' h', crashed)
          | inr f ↦
              let o = handle_url kv host c r t db s' in
              let (h'', e) = answer-Sound c r o.0 s' o.1 (handled-Good c r s h small) in
              rw (receive-handled c r s u f) (h'', e ∙ crashed)
        ]
      ]

  -- Each request to a sound server is put off, if and only if its URL names a database that another
  -- client has locked, and then waits with its link and gets no reply; or it is answered: by one
  -- message, to the client that has sent it, with the id of the request, and no link's queue changes.
  pub receive-IsAnswered :
      (c : ℕ) (r : Request) (s : Server kv)
      → Sound s
      → length s.transactions < 2 ^ 31
      → let t = receive kv host c r s in
        ((is_put_off c r s ≡ true)
          × (t.sent ≡ s.sent)
          × (t.unlock_wait ≡ s.unlock_wait ++ (c, r) ∷ []))
        ⊎ ((is_put_off c r s ≡ false) × IsAnswered kv host c r s t)
  receive-IsAnswered c r s h small =
      let t = target_of (host.parse_url r.url) in
      let (db, s') = get_database kv host t.db_name s in
      let q = get_database-Same kv host t.db_name s in
      elim (Bool-cases (is_url_needed r.type)) [
        | inr u ↦
            let (o, s1) = handle_number kv host c r s in
            let q' = handle_number-Quiet kv host c r s in
            inr (
              ground (arith, u),
              rw (receive-number c r s u) (
                  answer-IsAnswered kv host c r o s s1 q'.0 q'.1
                    (handle_number-Good kv host c r s h).0 (handle_number-reply kv host c r s)),
            )
        | inl u ↦ elim (Bool-cases (is_put_off c r s)) [
          | inl f ↦
              let e = receive-put_off c r s f in
              inl (
                f,
                rw e (unfold append_unlock_wait in q.0),
                rw e (unfold append_unlock_wait in ap (λ l. l ++ (c, r) ∷ []) q.1),
              )
          | inr f ↦
              let (o, s1) = handle_url kv host c r t db s' in
              let q' = handle_url-Calm kv host c r t db s' in
              inr (
                f,
                rw (receive-handled c r s u f) (
                    answer-IsAnswered kv host c r o s s1 (q'.0 ∙ q.0) (q'.1 ∙ q.1)
                      (handled-Good c r s h small).0 (handle_url-reply kv host c r t db s')),
              )
        ]
      ]

  -- What a request of a client does to the clients, to the locks and to the queues of the links, and
  -- that there is at most one more transaction.
  abbrev pub Effect : ℕ → Request → Server kv → Server kv → Type 0
  Effect c r s t =
      (t.clients ≡ s.clients)
      × LockChange c (target_of (host.parse_url r.url)).db_name s.database_locks t.database_locks
      × ((t.unlock_wait ≡ s.unlock_wait) ⊎ (t.unlock_wait ≡ s.unlock_wait ++ (c, r) ∷ []))
      × (length t.transactions ≤ suc (length s.transactions))

  answer-Effect :
      (c : ℕ) (r : Request) (o : Outcome) (s t : Server kv)
      → Effect c r s t
      → Effect c r s (answer kv host c r (o, t))
  unfolding answer
  answer-Effect c r (done b text) s t l = l
  answer-Effect c r null_pointer s t l = l

  pub receive-Effect : (c : ℕ) (r : Request) (s : Server kv) → Effect c r s (receive kv host c r s)
  unfolding append_unlock_wait
  receive-Effect c r s =
      let t = target_of (host.parse_url r.url) in
      let (db, s') = get_database kv host t.db_name s in
      let q = get_database-Same kv host t.db_name s in
      elim (Bool-cases (is_url_needed r.type)) [
        | inr u ↦
            let (o, s1) = handle_number kv host c r s in
            rw (receive-number c r s u)
              (answer-Effect c r o s s1 (ground (arith, handle_number-Quiet kv host c r s)))
        | inl u ↦ elim (Bool-cases (is_put_off c r s)) [
          | inl f ↦ rw (receive-put_off c r s f) (ground (arith, q))
          | inr f ↦
              let (o, s1) = handle_url kv host c r t db s' in
              rw (receive-handled c r s u f)
                (answer-Effect c r o s s1 (ground (arith, q, handle_url-Calm kv host c r t db s')))
        ]
      ]
