-- ===== src/Client.antt =====
-- qdocdb/qdocdbclient.cpp and .h, class QDocdbClient: the state of the client and its slots. The calls
-- that wait for a reply are in Client/Calls.antt.
pub mod Calls
pub mod Observing
pub mod Answered
pub mod Clock
pub mod Patience
pub mod Served
use qdocdb.Prelude.{
  ℕ, ◌+◌, ◌%◌, ◌^◌, ℤ, pos, negsuc, Bool, true, false, Option, none, some, List, [], ◌∷◌, ◌++◌,
  Text, codes, at, put_at, remove_at, eqb, ltb, if◌then◌else◌,
}
use qdocdb.Json.{Json, Fields}
use qdocdb.Server.{Request, Body, observe_data, unknown, Message}
use qdocdb.Server.Numbers.{has_key_at}

-- A subscriber is a number, for the pointer to the object.
pub record ObserverInfo : Type 0 where
  pub sub : ℕ
  pub url : Text
  pub query : Fields
  pub query_options : Fields

-- What happens to the client: a message arrives, its link goes, or a call of the event queue is made.
pub data Input : Type 0 where
  received : Message → Input
  link_removed : Input
  observe_data_process : Input
  destroy_reply : ℕ → Input

-- `connected` says that there is a link. `next_f_id` is an int by its 32-bit pattern. `sent` are the
-- requests that have been sent, `notified` the replies that subscribers have been called with, the
-- last one first in both; `queued` are the calls in the event queue, and `timer` is the interval of
-- the timer while it runs.
pub record Client : Type 0 where
  pub connected : Bool
  pub next_f_id : ℕ
  pub active_queries : List (ℕ × Request)
  pub replies : List (ℕ × Message)
  pub subs : List (ℕ × Option ℕ)
  pub observer_info : List (ℕ × ObserverInfo)
  pub observe_data : List (ℕ × List Json)
  pub observe_data_lock : Bool
  pub last_error : Text
  pub timer : Option ℕ
  pub next_connect_wait_timeout : ℕ
  pub need_connected : Bool
  pub sent : List Request
  pub notified : List (ℕ × ℕ × List Json)
  pub queued : List Input

-- The constructor. `observeDataLock` is not set: `junk` is what it holds.
unfoldable pub new_client : Bool → Client
new_client junk = record {
  connected = false;
  next_f_id = 1;
  active_queries = [];
  replies = [];
  subs = [];
  observer_info = [];
  observe_data = [];
  observe_data_lock = junk;
  last_error = [];
  timer = none;
  next_connect_wait_timeout = 1000;
  need_connected = false;
  sent = [];
  notified = [];
  queued = [];
}

-- The id of a message as a key of the tables; of no negative one there is a query.
unfoldable pub is_active : ℤ → Client → Option ℕ
is_active (negsuc n) c = none
is_active (pos n) c = if has_key_at n c.active_queries then some n else none

-- A reply is kept for its query, which is done; if there is none, it is dropped.
unfoldable pub receive : Message → Client → Client
receive m c = elim m.body [
  | observe_data id reply ↦ record c {
    observe_data = c.observe_data ++ (id, reply) ∷ [];
    queued = c.queued ++ Input.observe_data_process ∷ [];
  }
  | _ ↦ elim (is_active m.id c) [
    | none ↦ c
    | some id ↦ record c { replies = put_at id m c.replies }
  ]
]

-- The subscribers of the replies that have waited. `subs[id]` puts a null pointer where there is none,
-- and nothing is called.
unfoldable pub process : List (ℕ × List Json) → Client → Client
process [] c = record c { observe_data = [] }
process ((id, reply) ∷ l) c = elim (at id c.subs) [
  | none ↦ process l (record c { subs = put_at id none c.subs })
  | some none ↦ process l c
  | some (some sub) ↦ process l (record c { notified = (sub, id, reply) ∷ c.notified })
]

unfoldable pub process_observe_data : Client → Client
process_observe_data c = if c.observe_data_lock then c else process c.observe_data c

unfoldable pub remove_reply : ℕ → Client → Client
remove_reply id c = record c { replies = remove_at id c.replies }

-- The reply of a query that is cancelled.
unfoldable pub canceled : Option Message → Message
canceled none = record { id = pos 0; body = unknown; error = some (codes "canceled") }
canceled (some m) = record m { error = some (codes "canceled") }

unfoldable pub cancel_all : List (ℕ × Request) → Client → Client
cancel_all [] c = c
cancel_all ((id, r) ∷ l) c =
    cancel_all l (record c { replies = put_at id (canceled (at id c.replies)) c.replies })

unfoldable pub cancel_all_active_queries : Client → Client
cancel_all_active_queries c = cancel_all c.active_queries c

-- `clientRemoved`, called by the link of this client
unfoldable pub client_removed : Client → Client
client_removed c =
    let c1 =
      if c.connected then cancel_all_active_queries (record c { connected = false }) else c in
    let c2 : Client = record c1 { subs = [] } in
    if c.need_connected then record c2 { timer = some c2.next_connect_wait_timeout } else c2

unfoldable pub disconnect_from_server : Client → Client
disconnect_from_server c = record c { need_connected = false }

unfoldable pub take_input : Input → Client → Client
take_input (received m) c = receive m c
take_input link_removed c = client_removed c
take_input Input.observe_data_process c = process_observe_data c
take_input (destroy_reply id) c = remove_reply id c

-- `connectToServer`; `reached` says that the socket has connected.
unfoldable pub connect_to_server : Bool → Client → Bool × Client
connect_to_server reached c =
    if reached then (true, record c { connected = true; need_connected = true }) else (false, c)

-- `onConnectTimer` where the server is not reached: the next attempt waits longer.
unfoldable pub retry_later : Client → Client
retry_later c = record c {
  timer = some c.next_connect_wait_timeout;
  next_connect_wait_timeout =
      if ltb c.next_connect_wait_timeout 60000
      then c.next_connect_wait_timeout + 5000
      else c.next_connect_wait_timeout;
}
