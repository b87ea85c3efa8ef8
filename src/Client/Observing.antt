-- ===== src/Client/Observing.antt =====
-- qdocdb/qdocdbclient.cpp: observe, unobserve, subscriberDestroyed, and the timer that connects again
-- and observes again.
use qdocdb.Prelude.{
  ℕ, pos, Bool, true, false, Option, none, some, List, [], ◌∷◌, ◌++◌, Text, put_at, remove_at, eqb,
  if◌then◌else◌,
}
use qdocdb.Json.{Fields}
use qdocdb.Link.Types.{type_observe, type_unobserve}
use qdocdb.Server.{Request}
use qdocdb.Server.Numbers.{has_key_at}
use qdocdb.Client.{Client, ObserverInfo, Input, connect_to_server, retry_later}
use qdocdb.Client.Calls.{Status, Call, is_success, new_request, ask, number_of}

unfoldable pub observe_request : Text → Fields → Fields → Option ℕ → ℕ → Request
observe_request url query query_options prefered_id id = record (new_request id type_observe) {
  url = url;
  query = query;
  query_options = query_options;
  prefered_id = prefered_id;
}

-- The observer is noted, unless there is one of that id, and its subscriber is.
unfoldable pub note_observer : ℕ → ObserverInfo → Client → Client
note_observer id info c = record c {
  observer_info =
      if has_key_at id c.observer_info then c.observer_info else put_at id info c.observer_info;
  subs = put_at id (some info.sub) c.subs;
  observe_data_lock = false;
  queued = c.queued ++ Input.observe_data_process ∷ [];
}

-- `observe`: the id, or none for -1. Until it has returned no subscriber is called.
unfoldable pub observe : ObserverInfo → Option ℕ → Call (Option ℕ)
observe info prefered_id inputs c =
    let ((status, body), rest, c') =
      ask (observe_request info.url info.query info.query_options prefered_id) inputs
        (record c { observe_data_lock = true }) in
    if is_success status
    then (some (number_of body), rest, note_observer (number_of body) info c')
    else (none, rest, record c' { observe_data_lock = false })

unfoldable pub unobserve_request : ℕ → ℕ → Request
unobserve_request observe_id id = record (new_request id type_unobserve) {
  observe_id = pos observe_id;
}

unfoldable pub unobserve : ℕ → Call Status
unobserve observe_id inputs c =
    let ((status, body), rest, c') = ask (unobserve_request observe_id) inputs c in
    if is_success status
    then (
      status,
      rest,
      record c' {
        subs = remove_at observe_id c'.subs;
        observer_info = remove_at observe_id c'.observer_info;
      },
    )
    else (status, rest, c')

-- The ids of a subscriber, and the table without them.
unfoldable pub ids_of : ℕ → List (ℕ × Option ℕ) → List ℕ
ids_of sub [] = []
ids_of sub ((id, none) ∷ l) = ids_of sub l
ids_of sub ((id, some s) ∷ l) = let rest = ids_of sub l in if eqb s sub then id ∷ rest else rest

unfoldable pub without_sub : ℕ → List (ℕ × Option ℕ) → List (ℕ × Option ℕ)
without_sub sub [] = []
without_sub sub ((id, none) ∷ l) = (id, none) ∷ without_sub sub l
without_sub sub ((id, some s) ∷ l) =
    let rest = without_sub sub l in if eqb s sub then rest else (id, some s) ∷ rest

unfoldable pub unobserve_ids : List ℕ → Call (Unit {0})
unobserve_ids [] inputs c = (tt, inputs, c)
unobserve_ids (id ∷ ids) inputs c =
    let (status, rest, c') = unobserve id inputs c in unobserve_ids ids rest c'

unfoldable pub subscriber_destroyed : ℕ → Call (Unit {0})
subscriber_destroyed sub inputs c =
    unobserve_ids (ids_of sub c.subs) inputs (record c { subs = without_sub sub c.subs })

-- The loop of `onConnectTimer`: each observer is asked for again under its own id. A round that
-- notes an observer under another id would be visited as well, which is left out.
unfoldable pub observe_again : List (ℕ × ObserverInfo) → Call (Unit {0})
observe_again [] inputs c = (tt, inputs, c)
observe_again ((id, info) ∷ l) inputs c =
    let (answer, rest, c') = observe info (some id) inputs c in observe_again l rest c'

-- `onConnectTimer`; `reached` says that the socket connects.
unfoldable pub on_connect_timer : Bool → Call (Unit {0})
on_connect_timer reached inputs c0 =
    let (connected, c1) = connect_to_server reached (record c0 { timer = none }) in
    if connected
    then observe_again c1.observer_info inputs (record c1 { next_connect_wait_timeout = 1000 })
    else (tt, inputs, retry_later c1)
