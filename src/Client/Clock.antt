-- ===== src/Client/Clock.antt =====
-- When the client connects again: its timer, and what the slots and the calls make of it.
use qdocdb.Prelude.{
  ℕ, ◌+◌, ◌%◌, ◌^◌, ◌≤◌, ◌≡◌, refl, sym, subst, Bool, true, false, not, ◌||◌, Option, none, some,
  List, [], ◌∷◌, at, Bool-cases, inl, inr, if◌then◌else◌, put_at, ltb, arith,
}
use qdocdb.Json.{Json}
use qdocdb.Server.{Request}
use qdocdb.Client.{
  Client, ObserverInfo, Input, received, link_removed, observe_data_process, destroy_reply, receive,
  process, process_observe_data, remove_reply, canceled, cancel_all, cancel_all_active_queries,
  client_removed, disconnect_from_server, take_input, connect_to_server, retry_later,
}
use qdocdb.Client.Calls.{finishes, wait_for_done, judge, send_and_wait_reply, ask}
use qdocdb.Client.Observing.{
  observe_request, note_observer, observe, unobserve_request, unobserve, unobserve_ids,
  observe_again, on_connect_timer,
}

-- The fields that say when the client connects again: the timer, the next interval, whether it is to be
-- connected, and whether it is.
pub record Clock : Type 0 where
  pub timer : Option ℕ
  pub interval : ℕ
  pub is_needed : Bool
  pub is_linked : Bool

abbrev pub clock_of : Client → Clock
clock_of c = record {
  timer = c.timer;
  interval = c.next_connect_wait_timeout;
  is_needed = c.need_connected;
  is_linked = c.connected;
}

process_step-clock :
    (id : ℕ) (reply : List Json) (l : List (ℕ × List Json)) (c : Client) (o : Option (Option ℕ))
    → at id c.subs ≡ o
    → ((d : Client) → clock_of (process l d) ≡ clock_of d)
    → clock_of (process ((id, reply) ∷ l) c) ≡ clock_of c
unfolding process
process_step-clock id reply l c none e ih =
    rw (e, process) (ih (record c { subs = put_at id none c.subs }))
process_step-clock id reply l c (some none) e ih = rw (e, process) (ih c)
process_step-clock id reply l c (some (some sub)) e ih =
    rw (e, process) (ih (record c { notified = (sub, id, reply) ∷ c.notified }))

process-clock : (l : List (ℕ × List Json)) (c : Client) → clock_of (process l c) ≡ clock_of c
unfolding process
process-clock [] c = refl
process-clock ((id, reply) ∷ l) c =
    process_step-clock id reply l c (at id c.subs) refl (process-clock l)

cancel_all-clock : (l : List (ℕ × Request)) (c : Client) → clock_of (cancel_all l c) ≡ clock_of c
unfolding cancel_all
cancel_all-clock [] c = refl
cancel_all-clock ((id, r) ∷ l) c =
    cancel_all-clock l (record c { replies = put_at id (canceled (at id c.replies)) c.replies })

-- One second, or more by a multiple of five, up to 61.
abbrev pub IsInterval : ℕ → Type 0
IsInterval n = (n % 5000 ≡ 1000) × (n ≤ 61000)

-- What the timer waits is such an interval, the next one or the one before it.
abbrev pub IsTimer : Option ℕ → ℕ → Type 0
IsTimer none next = Unit {0}
IsTimer (some n) next = IsInterval n × (n ≤ next) × (next ≤ n + 5000)

-- A client that is to be connected is so, or its timer runs.
unfoldable pub keeps_trying : Clock → Bool
keeps_trying k = not k.is_needed || k.is_linked || elim k.timer [ none ↦ false | some n ↦ true ]

abbrev pub IsSteady : Clock → Type 0
IsSteady k = IsInterval k.interval × IsTimer k.timer k.interval × (keeps_trying k ≡ true)

abbrev pub IsPatient : Client → Type 0
IsPatient c = IsSteady (clock_of c)

same-IsPatient : (c d : Client) → clock_of d ≡ clock_of c → IsPatient c → IsPatient d
same-IsPatient c d e h = subst IsSteady (sym e) h

-- The clock of a client whose link has gone.
abbrev unlinked : Clock → Clock
unlinked k = record k {
  timer = if k.is_needed then some k.interval else k.timer;
  is_linked = false;
}

unlinked-IsSteady : (k : Clock) → IsSteady k → IsSteady (unlinked k)
unfolding keeps_trying
unlinked-IsSteady k (i, t, e) = elim (Bool-cases k.is_needed) [
  | inl h ↦ rw h (i, (i, omega arith, omega arith), refl)
  | inr h ↦ rw h (i, t, refl)
]

client_removed-clock : (c : Client) → clock_of (client_removed c) ≡ unlinked (clock_of c)
unfolding client_removed cancel_all_active_queries
client_removed-clock c =
    ground (arith, cancel_all-clock c.active_queries (record c { connected = false }))

pub take_input-IsPatient : (i : Input) (c : Client) → IsPatient c → IsPatient (take_input i c)
unfolding take_input receive process_observe_data remove_reply
take_input-IsPatient (received m) c h = ground (arith, h)
take_input-IsPatient link_removed c h =
    subst IsSteady (sym (client_removed-clock c)) (unlinked-IsSteady (clock_of c) h)
take_input-IsPatient observe_data_process c h = ground (arith, process-clock c.observe_data c, h)
take_input-IsPatient (destroy_reply id) c h = h

wait_for_done-IsPatient :
    (id : ℕ) (inputs : List Input) (c : Client)
    → IsPatient c
    → IsPatient (wait_for_done id inputs c).2
unfolding wait_for_done
wait_for_done-IsPatient id [] c h = h
wait_for_done-IsPatient id (i ∷ is) c h =
    let t = take_input-IsPatient i c h in
    let rest = wait_for_done-IsPatient id is (take_input i c) t in
    elim (Bool-cases (finishes id i c)) [ inl e ↦ rw e t | inr e ↦ rw e rest ]

-- A call does nothing to the clock but what the inputs do that it waits over.
ask-clock :
    (request : ℕ → Request) (inputs : List Input) (c : Client)
    → let id = c.next_f_id in
      let c1 : Client = record c {
        next_f_id = (id + 1) % 2 ^ 32;
        active_queries = put_at id (request id) c.active_queries;
        sent = request id ∷ c.sent;
      } in
      clock_of (ask request inputs c).2 ≡ clock_of (wait_for_done id inputs c1).2
unfolding ask send_and_wait_reply judge
ask-clock request inputs c = ground arith

pub ask-IsPatient :
    (request : ℕ → Request) (inputs : List Input) (c : Client)
    → IsPatient c
    → IsPatient (ask request inputs c).2
ask-IsPatient request inputs c h =
    subst IsSteady (sym (ask-clock request inputs c))
      (wait_for_done-IsPatient c.next_f_id inputs _ h)

observe-clock :
    (info : ObserverInfo) (prefered : Option ℕ) (inputs : List Input) (c : Client)
    → clock_of (observe info prefered inputs c).2
      ≡ clock_of
          (ask
            (observe_request info.url info.query info.query_options prefered)
            inputs
            (record c { observe_data_lock = true })).2
unfolding observe note_observer
observe-clock info prefered inputs c = ground arith

pub observe-IsPatient :
    (info : ObserverInfo) (prefered : Option ℕ) (inputs : List Input) (c : Client)
    → IsPatient c
    → IsPatient (observe info prefered inputs c).2
observe-IsPatient info prefered inputs c h =
    subst IsSteady (sym (observe-clock info prefered inputs c)) (ask-IsPatient _ inputs _ h)

unobserve-clock :
    (id : ℕ) (inputs : List Input) (c : Client)
    → clock_of (unobserve id inputs c).2 ≡ clock_of (ask (unobserve_request id) inputs c).2
unfolding unobserve
unobserve-clock id inputs c = ground arith

pub unobserve-IsPatient :
    (id : ℕ) (inputs : List Input) (c : Client) → IsPatient c → IsPatient (unobserve id inputs c).2
unobserve-IsPatient id inputs c h =
    subst IsSteady (sym (unobserve-clock id inputs c)) (ask-IsPatient _ inputs c h)

pub unobserve_ids-IsPatient :
    (ids : List ℕ) (inputs : List Input) (c : Client)
    → IsPatient c
    → IsPatient (unobserve_ids ids inputs c).2
unfolding unobserve_ids
unobserve_ids-IsPatient [] inputs c h = h
unobserve_ids-IsPatient (id ∷ ids) inputs c h =
    unobserve_ids-IsPatient ids _ _ (unobserve-IsPatient id inputs c h)

observe_again-IsPatient :
    (l : List (ℕ × ObserverInfo)) (inputs : List Input) (c : Client)
    → IsPatient c
    → IsPatient (observe_again l inputs c).2
unfolding observe_again
observe_again-IsPatient [] inputs c h = h
observe_again-IsPatient ((id, info) ∷ l) inputs c h =
    observe_again-IsPatient l _ _ (observe-IsPatient info (some id) inputs c h)

pub on_connect_timer-IsPatient :
    (reached : Bool) (inputs : List Input) (c : Client)
    → IsPatient c
    → IsPatient (on_connect_timer reached inputs c).2
unfolding on_connect_timer connect_to_server retry_later keeps_trying
on_connect_timer-IsPatient true inputs c h =
    observe_again-IsPatient c.observer_info inputs _ ((refl, omega arith), tt, ground arith)
on_connect_timer-IsPatient false inputs c (i, t, k) =
    elim (Bool-cases (ltb c.next_connect_wait_timeout 60000)) [
      | inl e ↦ rw e (ground arith, (i, omega arith, omega arith), ground arith)
      | inr e ↦ rw e (i, (i, omega arith, omega arith), ground arith)
    ]

pub connect_to_server-IsPatient :
    (reached : Bool) (c : Client) → IsPatient c → IsPatient (connect_to_server reached c).1
unfolding connect_to_server keeps_trying
connect_to_server-IsPatient true c (i, t, k) = (i, t, ground arith)
connect_to_server-IsPatient false c h = h

pub disconnect_from_server-IsPatient :
    (c : Client) → IsPatient c → IsPatient (disconnect_from_server c)
unfolding disconnect_from_server keeps_trying
disconnect_from_server-IsPatient c (i, t, k) = (i, t, refl)
