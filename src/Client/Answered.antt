-- ===== src/Client/Answered.antt =====
-- Which message a call takes for its reply.
use qdocdb.Prelude.{
  ℕ, ◌≡◌, refl, ap, ◌∙◌, ℤ, pos, negsuc, Bool, true, false, not, ◌&&◌, Option, none, some, List, [],
  ◌∷◌, ◌++◌, at, put_at, at-put_at, eqb, if◌then◌else◌, arith, ◌⊎◌, ◌≢◌,
}
use qdocdb.Json.{Json}
use qdocdb.Server.{is_data, Request, Message}
use qdocdb.Server.Numbers.{has_key_at}
use qdocdb.Client.{
  Client, Input, received, link_removed, observe_data_process, destroy_reply, is_active, receive,
  process, process_observe_data, remove_reply, take_input,
}
use qdocdb.Client.Calls.{
  success, error, finishes, wait_for_done, error_of, judge, send_and_wait_reply,
}

unfoldable pub same_id : ℤ → ℕ → Bool
same_id (pos n) id = eqb n id
same_id (negsuc n) id = false

-- An input that is not the reply to the query, and does not end it.
unfoldable pub is_other : ℕ → Input → Bool
unfolding is_data same_id
is_other id (received m) = if is_data m.body then true else not (same_id m.id id)
is_other id link_removed = false
is_other id observe_data_process = true
is_other id (destroy_reply j) = true

unfoldable pub all_other : ℕ → List Input → Bool
all_other id [] = true
all_other id (i ∷ is) = is_other id i && all_other id is

-- One round of `process`, over the rest of the replies.
process_step-active :
    (id : ℕ) (reply : List Json) (l : List (ℕ × List Json)) (c : Client) (o : Option (Option ℕ))
    → at id c.subs ≡ o
    → ((d : Client) → (process l d).active_queries ≡ d.active_queries)
    → (process ((id, reply) ∷ l) c).active_queries ≡ c.active_queries
unfolding process
process_step-active id reply l c none e ih =
    rw (e, process) (ih (record c { subs = put_at id none c.subs }))
process_step-active id reply l c (some none) e ih = rw (e, process) (ih c)
process_step-active id reply l c (some (some sub)) e ih =
    rw (e, process) (ih (record c { notified = (sub, id, reply) ∷ c.notified }))

process-active :
    (l : List (ℕ × List Json)) (c : Client) → (process l c).active_queries ≡ c.active_queries
unfolding process
process-active [] c = refl
process-active ((id, reply) ∷ l) c =
    process_step-active id reply l c (at id c.subs) refl (process-active l)

other-active :
    (id : ℕ) (i : Input) (c : Client)
    → is_other id i ≡ true
    → (take_input i c).active_queries ≡ c.active_queries
unfolding take_input is_other receive process_observe_data remove_reply
other-active id (received m) c h = ground arith
other-active id link_removed c h = cc
other-active id observe_data_process c h = ground (arith, process-active c.observe_data c)
other-active id (destroy_reply j) c h = refl

other-goes_on : (id : ℕ) (i : Input) (c : Client) → is_other id i ≡ true → finishes id i c ≡ false
unfolding is_other finishes is_active is_data same_id
other-goes_on id (received m) c h = ground arith
other-goes_on id link_removed c h = cc
other-goes_on id observe_data_process c h = refl
other-goes_on id (destroy_reply j) c h = refl

-- The reply to a query: not a reply for an observer, and with the id of the query.
unfoldable pub is_reply : ℕ → Message → Bool
unfolding is_data same_id
is_reply id m = not (is_data m.body) && same_id m.id id

reply-finishes :
    (id : ℕ) (m : Message) (c : Client)
    → is_reply id m ≡ true
    → has_key_at id c.active_queries ≡ true
    → (finishes id (received m) c ≡ true)
      × (receive m c ≡ record c { replies = put_at id m c.replies })
unfolding is_reply is_data same_id finishes receive is_active
reply-finishes id m c h k = ground arith

-- The wait passes over the other inputs and ends with the reply.
wait-reply :
    (id : ℕ) (m : Message) (pre post : List Input) (c : Client)
    → all_other id pre ≡ true
    → is_reply id m ≡ true
    → has_key_at id c.active_queries ≡ true
    → let (done, rest, c') = wait_for_done id (pre ++ received m ∷ post) c in
      (done ≡ true) × (rest ≡ post) × (at id c'.replies ≡ some m)
unfolding wait_for_done all_other take_input
wait-reply id m [] post c o r k =
    let (f, e) = reply-finishes id m c r k in ground (arith, f, e, at-put_at id id m c.replies)
wait-reply id m (i ∷ pre) post c o r k =
    let one : is_other id i ≡ true = ground (arith, o) in
    let rest : all_other id pre ≡ true = ground (arith, o) in
    let same = other-active id i c one in
    ground (
      arith,
      other-goes_on id i c one,
      wait-reply id m pre post (take_input i c) rest r (ap (has_key_at id) same ∙ k),
    )

-- A call takes a message among its inputs for its reply: it keeps the message, leaves the inputs after
-- it, and answers success if the message has no error, else the code error, with the last error.
abbrev pub IsTaken : ℕ → Request → Message → List Input → List Input → Client → Type 0
IsTaken id r m pre post c =
    let (status, rest, c') = send_and_wait_reply id r (pre ++ received m ∷ post) c in
    (rest ≡ post)
    × (at id c'.replies ≡ some m)
    × (((error_of (some m) ≡ []) × (status ≡ success))
        ⊎ ((error_of (some m) ≢ []) × (status ≡ error) × (c'.last_error ≡ error_of (some m))))

-- A call ends with the first message that has its id and is not for an observer, whatever messages,
-- event calls and other replies come before it: it answers success if that message has no error, else
-- the code error with the message's error as the last error; the message is the one that is kept for
-- the call, and the inputs after it are left.
pub send_and_wait_reply-answered :
    (id : ℕ) (r : Request) (m : Message) (pre post : List Input) (c : Client)
    → all_other id pre ≡ true
    → is_reply id m ≡ true
    → IsTaken id r m pre post c
unfolding send_and_wait_reply judge
send_and_wait_reply-answered id r m pre post c o h =
    let c1 : Client = record c {
      active_queries = put_at id r c.active_queries;
      sent = r ∷ c.sent;
    } in
    let k : has_key_at id c1.active_queries ≡ true =
      unfold has_key_at in ground (arith, at-put_at id id r c.active_queries) in
    let (d, e, f) = wait-reply id m pre post c1 o h k in ground (arith, d, e, f)
