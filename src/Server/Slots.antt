-- ===== src/Server/Slots.antt =====
-- qdocdb/qdocdbserver.cpp: newConnection, clientRemoved and observeQueryChanged, the calls of the
-- event queue, and the steps of the server.
use qdocdb.Prelude.{
  ℕ, ◌+◌, ◌^◌, ◌<◌, ◌≡◌, length, Bool, true, false, Option, none, some, List, [], ◌∷◌, ◌++◌, Text,
  at, eqb, negsuc, if◌then◌else◌,
}
use qdocdb.Json.{Json}
use qdocdb.IdGen.{IdGen}
use qdocdb.Kv.Interface.{KvInterface}
use qdocdb.Server.{
  Request, observe_data, Message, Event, unlocked, observe_query_changed, Host, Server, is_client,
}
use qdocdb.Server.Receive.{receive, unobserve_at}

-- Without the entries of one client.
unfoldable pub without {ℓ} : {A : Type ℓ} → ℕ → List (ℕ × A) → List (ℕ × A)
without c [] = []
without c ((d, x) ∷ l) = let rest = without c l in if eqb d c then rest else (d, x) ∷ rest

unfoldable pub waiting_of : ℕ → List (ℕ × Request) → List Request
waiting_of c [] = []
waiting_of c ((d, r) ∷ l) = let rest = waiting_of c l in if eqb d c then r ∷ rest else rest

unfoldable pub erase_client : ℕ → List ℕ → List ℕ
erase_client c [] = []
erase_client c (d ∷ l) = let rest = erase_client c l in if eqb d c then rest else d ∷ rest

unfoldable pub erase_locks : ℕ → List (Text × ℕ) → List (Text × ℕ)
erase_locks c [] = []
erase_locks c ((name, d) ∷ l) =
    let rest = erase_locks c l in if eqb d c then rest else (name, d) ∷ rest

unfoldable pub is_owner : ℕ → Option ℕ → Bool
is_owner c none = false
is_owner c (some d) = eqb d c

unfoldable pub erase_observers : ℕ → List (ℕ × Option ℕ) → List (ℕ × Option ℕ)
erase_observers c [] = []
erase_observers c ((id, o) ∷ l) =
    let rest = erase_observers c l in if is_owner c o then rest else (id, o) ∷ rest

module _ (kv : KvInterface) where
  -- The constructor, where the server listens.
  unfoldable pub new_server : IdGen → Server kv
  new_server g = record {
    transaction_id = 0;
    transactions = [];
    databases = [];
    clients = [];
    database_locks = [];
    observe_client = [];
    observe_collection = [];
    unlock_wait = [];
    id_gen = g;
    sent = [];
    pending = [];
    crashed = false;
  }

  unfoldable pub new_connection : ℕ → Server kv → Server kv
  new_connection c s = record s { clients = s.clients ++ c ∷ [] }

  -- The slot `observeQueryChanged`
  unfoldable pub on_observe_query_changed : ℕ → List Json → Server kv → Server kv
  on_observe_query_changed id reply s = elim (at id s.observe_client) [
    | none ↦ s
    | some none ↦ record s { crashed = true }
    | some (some c) ↦
        let m : Message = record { id = negsuc 0; body = observe_data id reply; error = none } in
        record s { sent = (c, m) ∷ s.sent }
  ]

module _ (kv : KvInterface) (host : Host kv) where
  unfoldable pub receive_all : ℕ → List Request → Server kv → Server kv
  receive_all c [] s = s
  receive_all c (r ∷ rs) s = receive_all c rs (receive kv host c r s)

  -- `onUnlocked` of a link, whose requests the server receives again. That of a client that has been
  -- removed is not connected any more.
  unfoldable pub on_unlocked : ℕ → Server kv → Server kv
  on_unlocked c s =
      if is_client c s.clients
      then receive_all c (waiting_of c s.unlock_wait)
          (record s { unlock_wait = without c s.unlock_wait })
      else s

  unfoldable pub deliver : Event → Server kv → Server kv
  deliver (unlocked c name) s = on_unlocked c s
  deliver (observe_query_changed id reply) s = on_observe_query_changed kv id reply s

  unfoldable pub unobserve_place : ℕ → Server kv → Server kv
  unobserve_place id s = elim (at id s.observe_collection) [
    | none ↦ record s { crashed = true }
    | some p ↦ unobserve_at kv host id p s
  ]

  -- The loop of `clientRemoved` over `observeClient`, but for the erasures.
  unfoldable pub unobserve_all : ℕ → List (ℕ × Option ℕ) → Server kv → Server kv
  unobserve_all c [] s = s
  unobserve_all c ((id, o) ∷ l) s =
      let next = unobserve_all c l (unobserve_place id s) in
      let rest = unobserve_all c l s in if is_owner c o then next else rest

  -- With the link its queue of requests goes.
  unfoldable pub client_removed : ℕ → Server kv → Server kv
  client_removed c s = record (unobserve_all c s.observe_client s) {
    clients = erase_client c s.clients;
    observe_client = erase_observers c s.observe_client;
    database_locks = erase_locks c s.database_locks;
    unlock_wait = without c s.unlock_wait;
  }

  -- The transactions and the waiting requests are so few that the ids of transactions suffice.
  abbrev pub IsSmall : Server kv → Type 0
  IsSmall s = length s.transactions + length s.unlock_wait < 2 ^ 31

  -- What may happen next: a client connects, sends a request or goes, or a call of the event queue
  -- is made.
  pub data Step (s : Server kv) : Server kv → Type 0 where
    connect : (c : ℕ) → is_client c s.clients ≡ false → Step s (new_connection kv c s)
    request :
        (c : ℕ) (r : Request)
        → is_client c s.clients ≡ true
        → IsSmall s
        → Step s (receive kv host c r s)
    leave : (c : ℕ) → is_client c s.clients ≡ true → Step s (client_removed c s)
    call :
        (e : Event) (es : List Event)
        → s.pending ≡ e ∷ es
        → IsSmall s
        → Step s (deliver e (record s { pending = es }))

  -- The servers that a run from the start reaches.
  pub data Reach : Server kv → Type 0 where
    start : (g : IdGen) → Reach (new_server kv g)
    next : {s t : Server kv} → Reach s → Step s t → Reach t
