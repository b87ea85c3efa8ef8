-- ===== src/Server/Owner.antt =====
-- Whose steps can end a lock.
use qdocdb.Prelude.{ℕ, ◌≡◌, Bool, false, some, List, [], ◌∷◌, Text, assoc, eqb, arith}
use qdocdb.Kv.Interface.{KvInterface}
use qdocdb.Server.{Request, Event, unlocked, observe_query_changed, Host, Server}
use qdocdb.Server.Receive.{receive, target_of}
use qdocdb.Server.Slots.{
  without, waiting_of, erase_locks, new_connection, on_observe_query_changed, receive_all,
  on_unlocked, deliver, client_removed, Step, connect, request, leave, call,
}
use qdocdb.Server.Sound.Requests.{receive-Effect}
use qdocdb.Server.Connected.{LockChange-owner}

module _ (kv : KvInterface) (host : Host kv) where
  unfoldable pub is_event_of : ℕ → Event → Bool
  is_event_of d (unlocked c name) = eqb d c
  is_event_of d (observe_query_changed id reply) = false

  -- A step in which client `d` sends a request, goes, or has its waiting requests received.
  unfoldable pub is_step_of : ℕ → {s t : Server kv} → Step kv host s t → Bool
  unfolding is_event_of
  is_step_of d (connect c fresh) = false
  is_step_of d (request c r i small) = eqb d c
  is_step_of d (leave c i) = eqb d c
  is_step_of d (call e es q small) = is_event_of d e

  assoc-erase_locks :
      (c d : ℕ) (name : Text) (l : List (Text × ℕ))
      → assoc name l ≡ some d
      → eqb d c ≡ false
      → assoc name (erase_locks c l) ≡ some d
  unfolding assoc erase_locks
  assoc-erase_locks c d name [] e n = cc
  assoc-erase_locks c d name ((m, x) ∷ l) e n = ground (arith, e, n, assoc-erase_locks c d name l)

  receive-lock :
      (c d : ℕ) (name : Text) (r : Request) (s : Server kv)
      → assoc name s.database_locks ≡ some d
      → eqb d c ≡ false
      → assoc name (receive kv host c r s).database_locks ≡ some d
  receive-lock c d name r s e n =
      LockChange-owner c d name (target_of (host.parse_url r.url)).db_name s.database_locks
        (receive kv host c r s).database_locks (receive-Effect kv host c r s).1 e n

  receive_all-lock :
      (c d : ℕ) (name : Text) (rs : List Request) (s : Server kv)
      → assoc name s.database_locks ≡ some d
      → eqb d c ≡ false
      → assoc name (receive_all kv host c rs s).database_locks ≡ some d
  unfolding receive_all
  receive_all-lock c d name [] s e n = e
  receive_all-lock c d name (r ∷ rs) s e n =
      receive_all-lock c d name rs (receive kv host c r s) (receive-lock c d name r s e n) n

  deliver-lock :
      (d : ℕ) (name : Text) (e : Event) (s : Server kv)
      → is_event_of d e ≡ false
      → assoc name s.database_locks ≡ some d
      → assoc name (deliver kv host e s).database_locks ≡ some d
  unfolding is_event_of deliver on_unlocked on_observe_query_changed
  deliver-lock d name (unlocked c other) s n e =
      let s' : Server kv = record s { unlock_wait = without c s.unlock_wait } in
      ground (arith, e, receive_all-lock c d name (waiting_of c s.unlock_wait) s' e n)
  deliver-lock d name (observe_query_changed id reply) s n e = ground (arith, e)

  -- A lock ends by a step of its owner alone: whatever other clients send, also requests that had to
  -- wait, whoever else connects or goes, and whatever is sent to observers, the lock stays.
  pub Step-lock :
      {s t : Server kv} (d : ℕ) (name : Text) (st : Step kv host s t)
      → is_step_of d st ≡ false
      → assoc name s.database_locks ≡ some d
      → assoc name t.database_locks ≡ some d
  unfolding is_step_of new_connection client_removed
  Step-lock d name (connect c fresh) n e = e
  Step-lock {s} d name (request c r i small) n e = receive-lock c d name r s e n
  Step-lock {s} d name (leave c i) n e = assoc-erase_locks c d name s.database_locks e n
  Step-lock {s} d name (call ev es q small) n e =
      deliver-lock d name ev (record s { pending = es }) n e
