-- ===== src/Examples/Clients.antt =====
-- Examples for the client: a call among other messages, a call without a reply, and two attempts to
-- connect again.
use qdocdb.Prelude.{refl, pos, negsuc, false, none, some, List, [], ◌∷◌}
use qdocdb.Link.Types.{type_count}
use qdocdb.Server.{is_data, Request, Message, count_reply, observe_data, unknown}
use qdocdb.Client.{Client, Input, received, observe_data_process, destroy_reply, new_client}
use qdocdb.Client.Calls.{new_request}
use qdocdb.Client.Answered.{
  IsTaken, all_other, is_reply, is_other, same_id, send_and_wait_reply-answered,
}
use qdocdb.Client.Observing.{on_connect_timer}
use qdocdb.Client.Patience.{start, next, timeout, Reach-IsPatient}
use qdocdb.Client.Clock.{IsPatient}

abbrev newcomer : Client
newcomer = new_client false

abbrev counting : Request
counting = new_request 1 type_count

abbrev counted : Message
counted = record { id = pos 1; body = count_reply 7; error = some [] }

-- The reply to another call, and data for an observer.
abbrev noise : List Input
noise =
    received (record { id = pos 9; body = unknown; error = some [] })
    ∷ received (record { id = negsuc 0; body = observe_data 4 []; error = none })
    ∷ destroy_reply 9
    ∷ []

send_and_wait_reply-answered_example :
    IsTaken 1 counting counted noise (observe_data_process ∷ []) newcomer
send_and_wait_reply-answered_example =
    send_and_wait_reply-answered 1 counting counted noise (observe_data_process ∷ []) newcomer
      (unfold all_other is_other is_data same_id in refl) (unfold is_reply is_data same_id in refl)

Reach-IsPatient_example :
    IsPatient (on_connect_timer false [] (on_connect_timer false [] newcomer).2).2
Reach-IsPatient_example =
    Reach-IsPatient (next (next (start false) (timeout false [])) (timeout false []))
