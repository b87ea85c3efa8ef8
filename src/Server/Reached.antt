-- ===== src/Server/Reached.antt =====
-- What holds in every state that the server reaches.
use qdocdb.Prelude.{
  ℕ, ◌+◌, ◌^◌, ◌≤◌, ◌<◌, ◌≡◌, refl, true, Option, none, some, List, [], ◌∷◌, at, length, arith, inl,
  inr, Option-cases, Bool-cases,
}
use qdocdb.Json.{Json}
use qdocdb.Kv.Interface.{KvInterface}
use qdocdb.Server.{Request, Event, unlocked, observe_query_changed, Host, Server, is_client}
use qdocdb.Server.Receive.{receive, target_of}
use qdocdb.Server.Slots.{
  without, waiting_of, is_owner, new_server, new_connection, on_observe_query_changed, receive_all,
  on_unlocked, deliver, unobserve_place, unobserve_all, client_removed, Step, connect, request,
  leave, call, Reach, start, next,
}
use qdocdb.Server.Sound.{Sound, Sound-same}
use qdocdb.Server.Sound.Cases.{unobserve_at-Sound}
use qdocdb.Server.Sound.Requests.{receive-Sound, Effect, receive-Effect}
use qdocdb.Server.Connected.{
  OwnersIn, WaitersIn, OwnersIn-append, WaitersIn-append, WaitersIn-snoc, WaitersIn-without,
  OwnersIn-erase_locks, WaitersIn-erase_client, OwnersIn-LockChange,
}

module _ (kv : KvInterface) (host : Host kv) where
  -- The invariant of the server: its pointers are sound, and the locks and the waiting requests are
  -- those of clients that are connected.
  pub record IsOrderly (s : Server kv) : Type 0 where
    pub sound : Sound s
    pub owners : OwnersIn s.clients s.database_locks
    pub waiters : WaitersIn s.clients s.unlock_wait

  receive-waiters :
      (c : ℕ) (r : Request) (s t : Server kv)
      → Effect kv host c r s t
      → is_client c s.clients ≡ true
      → WaitersIn s.clients s.unlock_wait
      → WaitersIn s.clients t.unlock_wait
  receive-waiters c r s t e i w = elim e.2 [
    | inl same ↦ rw same w
    | inr more ↦ rw more (WaitersIn-snoc c r s.clients s.unlock_wait i w)
  ]

  receive-IsOrderly :
      (c : ℕ) (r : Request) (s : Server kv)
      → IsOrderly s
      → is_client c s.clients ≡ true
      → length s.transactions < 2 ^ 31
      → IsOrderly (receive kv host c r s)
  receive-IsOrderly c r s h i small =
      let t = receive kv host c r s in
      let name = (target_of (host.parse_url r.url)).db_name in
      let e = receive-Effect kv host c r s in
      record {
        sound = (receive-Sound kv host c r s h.sound small).0;
        owners =
            rw e.0 (
              OwnersIn-LockChange c name s.clients s.database_locks t.database_locks i e.1
                h.owners);
        waiters = rw e.0 (receive-waiters c r s t e i h.waiters);
      }

  receive_all-IsOrderly :
      (c : ℕ) (rs : List Request) (s : Server kv)
      → IsOrderly s
      → is_client c s.clients ≡ true
      → length s.transactions + length rs < 2 ^ 31
      → IsOrderly (receive_all kv host c rs s)
  unfolding receive_all
  receive_all-IsOrderly c [] s h i small = h
  receive_all-IsOrderly c (r ∷ rs) s h i small =
      let e = receive-Effect kv host c r s in
      receive_all-IsOrderly c rs (receive kv host c r s)
        (receive-IsOrderly c r s h i (omega (arith, small))) (rw e.0 i) (omega (arith, small, e.3))

  length-waiting_of : (c : ℕ) (l : List (ℕ × Request)) → length (waiting_of c l) ≤ length l
  unfolding waiting_of
  length-waiting_of c [] = omega arith
  length-waiting_of c ((d, r) ∷ l) = ground (arith, length-waiting_of c l)

  on_unlocked-IsOrderly :
      (c : ℕ) (s : Server kv)
      → IsOrderly s
      → length s.transactions + length s.unlock_wait < 2 ^ 31
      → IsOrderly (on_unlocked kv host c s)
  unfolding on_unlocked
  on_unlocked-IsOrderly c s h small = elim (Bool-cases (is_client c s.clients)) [
    | inr e ↦ rw (e, on_unlocked) h
    | inl e ↦
        let s' : Server kv = record s { unlock_wait = without c s.unlock_wait } in
        let h' : IsOrderly s' = record {
          sound = Sound-same s s' h.sound refl refl refl refl;
          owners = h.owners;
          waiters = WaitersIn-without c s.clients s.unlock_wait h.waiters;
        } in
        rw (e, on_unlocked)
          (receive_all-IsOrderly c (waiting_of c s.unlock_wait) s' h' e
            (omega (arith, small, length-waiting_of c s.unlock_wait)))
  ]

  -- A call of the event queue that sends the reply of an observer.
  notified-IsOrderly :
      (id : ℕ) (reply : List Json) (s : Server kv)
      → IsOrderly s
      → IsOrderly (on_observe_query_changed kv id reply s)
  unfolding on_observe_query_changed
  notified-IsOrderly id reply s h = go (at id s.observe_client) refl
    where
      go :
          (o : Option (Option ℕ))
          → at id s.observe_client ≡ o
          → IsOrderly (on_observe_query_changed kv id reply s)
      go none e = rw (e, on_observe_query_changed) h
      go (some none) e =
          rw (e, on_observe_query_changed)
            (record {
              sound = Sound-same s _ h.sound refl refl refl refl;
              owners = h.owners;
              waiters = h.waiters;
            })
      go (some (some c)) e =
          rw (e, on_observe_query_changed)
            (record {
              sound = Sound-same s _ h.sound refl refl refl refl;
              owners = h.owners;
              waiters = h.waiters;
            })

  unobserve_place-Sound : (id : ℕ) (s : Server kv) → Sound s → Sound (unobserve_place kv host id s)
  unfolding unobserve_place
  unobserve_place-Sound id s h = elim (Option-cases (at id s.observe_collection)) [
    | inl e ↦ rw (e, unobserve_place) (Sound-same s _ h refl refl refl refl)
    | inr (p, e) ↦
        rw (e, unobserve_place) (unobserve_at-Sound kv host id p s h (h.observer_places id p e)).0
  ]

  unobserve_all-Sound :
      (c : ℕ) (l : List (ℕ × Option ℕ)) (s : Server kv)
      → Sound s
      → Sound (unobserve_all kv host c l s)
  unfolding unobserve_all
  unobserve_all-Sound c [] s h = h
  unobserve_all-Sound c ((id, o) ∷ l) s h = elim (Bool-cases (is_owner c o)) [
    | inl e ↦
        rw e (unobserve_all-Sound c l (unobserve_place kv host id s) (unobserve_place-Sound id s h))
    | inr e ↦ rw e (unobserve_all-Sound c l s h)
  ]

  client_removed-IsOrderly :
      (c : ℕ) (s : Server kv) → IsOrderly s → IsOrderly (client_removed kv host c s)
  unfolding client_removed
  client_removed-IsOrderly c s h = record {
    sound =
        Sound-same (unobserve_all kv host c s.observe_client s) _
          (unobserve_all-Sound c s.observe_client s h.sound) refl refl refl refl;
    owners = OwnersIn-erase_locks c s.clients s.database_locks h.owners;
    waiters = WaitersIn-erase_client c s.clients s.unlock_wait h.waiters;
  }

  deliver-IsOrderly :
      (e : Event) (s : Server kv)
      → IsOrderly s
      → length s.transactions + length s.unlock_wait < 2 ^ 31
      → IsOrderly (deliver kv host e s)
  unfolding deliver
  deliver-IsOrderly (unlocked c name) s h small = on_unlocked-IsOrderly c s h small
  deliver-IsOrderly (observe_query_changed id reply) s h small = notified-IsOrderly id reply s h

  Step-IsOrderly : {s t : Server kv} → Step kv host s t → IsOrderly s → IsOrderly t
  unfolding new_connection
  Step-IsOrderly {s} (connect c fresh) h = record {
    sound = Sound-same s _ h.sound refl refl refl refl;
    owners = OwnersIn-append c s.clients s.database_locks h.owners;
    waiters = WaitersIn-append c s.clients s.unlock_wait h.waiters;
  }
  Step-IsOrderly {s} (request c r i small) h = receive-IsOrderly c r s h i (omega (arith, small))
  Step-IsOrderly {s} (leave c i) h = client_removed-IsOrderly c s h
  Step-IsOrderly {s} (call e es q small) h =
      deliver-IsOrderly e (record s { pending = es })
        (record {
          sound = Sound-same s _ h.sound refl refl refl refl;
          owners = h.owners;
          waiters = h.waiters;
        })
        small

  -- In every state that the server reaches, while fewer than 2 ^ 31 transactions are open and requests
  -- wait: the transactions and the observers point to collections that are open, each collection is
  -- one that can begin a transaction, the next transaction id is in its bounds, and the locks and the
  -- waiting requests are those of clients that are connected.
  pub Reach-IsOrderly : {s : Server kv} → Reach kv host s → IsOrderly s
  unfolding new_server
  Reach-IsOrderly (start g) = record {
    sound = record {
      open_tables = tt;
      transaction_places = λ id t e. unfold at in cc;
      observer_places = λ id p e. unfold at in cc;
      counter = omega arith;
    };
    owners = tt;
    waiters = tt;
  }
  Reach-IsOrderly (next r st) = Step-IsOrderly st (Reach-IsOrderly r)
