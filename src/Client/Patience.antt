-- ===== src/Client/Patience.antt =====
-- The states that the client reaches, and how long it waits before it connects again.
use qdocdb.Prelude.{ℕ, refl, Bool, Option, List, arith}
use qdocdb.Server.{Request}
use qdocdb.Client.{
  Client, ObserverInfo, Input, new_client, disconnect_from_server, take_input, connect_to_server,
}
use qdocdb.Client.Calls.{ask}
use qdocdb.Client.Observing.{
  observe, unobserve, ids_of, without_sub, subscriber_destroyed, on_connect_timer,
}
use qdocdb.Client.Clock.{
  IsPatient, keeps_trying, take_input-IsPatient, ask-IsPatient, observe-IsPatient,
  unobserve-IsPatient, unobserve_ids-IsPatient, on_connect_timer-IsPatient,
  connect_to_server-IsPatient, disconnect_from_server-IsPatient,
}

-- What the client does: it takes an input, makes a call, connects or disconnects, or its timer ends.
pub data Step (c : Client) : Client → Type 0 where
  input : (i : Input) → Step c (take_input i c)
  call : (request : ℕ → Request) (inputs : List Input) → Step c (ask request inputs c).2
  watch :
      (info : ObserverInfo) (prefered : Option ℕ) (inputs : List Input)
      → Step c (observe info prefered inputs c).2
  unwatch : (id : ℕ) (inputs : List Input) → Step c (unobserve id inputs c).2
  destroyed : (sub : ℕ) (inputs : List Input) → Step c (subscriber_destroyed sub inputs c).2
  connect : (reached : Bool) → Step c (connect_to_server reached c).1
  disconnect : Step c (disconnect_from_server c)
  timeout : (reached : Bool) (inputs : List Input) → Step c (on_connect_timer reached inputs c).2

pub data Reach : Client → Type 0 where
  start : (junk : Bool) → Reach (new_client junk)
  next : {c d : Client} → Reach c → Step c d → Reach d

Step-IsPatient : {c d : Client} → Step c d → IsPatient c → IsPatient d
unfolding subscriber_destroyed
Step-IsPatient {c} (input i) h = take_input-IsPatient i c h
Step-IsPatient {c} (call request inputs) h = ask-IsPatient request inputs c h
Step-IsPatient {c} (watch info prefered inputs) h = observe-IsPatient info prefered inputs c h
Step-IsPatient {c} (unwatch id inputs) h = unobserve-IsPatient id inputs c h
Step-IsPatient {c} (destroyed sub inputs) h =
    unobserve_ids-IsPatient (ids_of sub c.subs) inputs (record c { subs = without_sub sub c.subs })
      h
Step-IsPatient {c} (connect reached) h = connect_to_server-IsPatient reached c h
Step-IsPatient {c} disconnect h = disconnect_from_server-IsPatient c h
Step-IsPatient {c} (timeout reached inputs) h = on_connect_timer-IsPatient reached inputs c h

-- In every state that the client reaches: the interval that the timer runs with, if it runs, and the
-- one that comes next are one second more than a multiple of five seconds and at most 61 seconds, and
-- the next one is the same or up to five seconds longer; and a client that is to be connected, once
-- it has been, and is not, has its timer running.
pub Reach-IsPatient : {c : Client} → Reach c → IsPatient c
unfolding new_client keeps_trying
Reach-IsPatient (start junk) = ((refl, omega arith), tt, refl)
Reach-IsPatient (next r st) = Step-IsPatient st (Reach-IsPatient r)
