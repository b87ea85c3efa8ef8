-- ===== src/Client/Calls.antt =====
-- qdocdb/qdocdbclient.cpp: the calls of the client. A call sends a request and waits in an event loop;
-- what happens meanwhile is a list of inputs, and the call hands on what is left of it. That the list
-- ends is the timeout.
use qdocdb.Prelude.{
  ℕ, ◌+◌, ◌%◌, ◌^◌, ℤ, pos, Bool, true, false, Option, none, some, List, [], ◌∷◌, ◌++◌, Text, codes,
  at, put_at, remove_at, eqb, if◌then◌else◌,
}
use qdocdb.Json.{Json, Fields, end}
use qdocdb.Link.Types.{
  LinkType, type_find, type_find_one, type_count, type_create_index, type_new_transaction,
  type_write_transaction, type_discard_transaction, type_insert, type_remove, type_remove_id,
  type_set, type_new_snapshot, type_revert_to_snapshot, type_remove_snapshot,
  type_get_snapshot_list, type_get_modified, type_exclusive_lock, type_unlock,
}
use qdocdb.Server.{
  Request, Body, find_reply, find_one_reply, count_reply, get_modified_reply, new_transaction_reply,
  insert_reply, get_snapshot_list_reply, observe_reply, observe_data, Message,
}
use qdocdb.Server.Numbers.{has_key_at}
use qdocdb.Client.{Client, Input, received, link_removed, destroy_reply, is_active, take_input}

-- enum resultEnum
pub data Status : Type 0 where
  success error_connection error : Status

unfoldable pub is_success : Status → Bool
is_success success = true
is_success _ = false

-- A call: what it answers, the inputs that are left, and the client.
abbrev pub Call : Type 0 → Type 0
Call A = List Input → Client → A × List Input × Client

-- `newLinkObject`: a request with an id and a type, and no other key
unfoldable pub new_request : ℕ → LinkType → Request
new_request id type = record {
  type = type;
  id = pos id;
  url = [];
  snapshot = [];
  query = end;
  query_options = end;
  field_name = [];
  index_name = [];
  transaction_id = pos 0;
  ignore_read_only_value = none;
  document = end;
  document_id = [];
  overwrite = false;
  documents = [];
  prefered_id = some 0;
  observe_id = pos 0;
}

-- Whether an input makes the query `id` done.
unfoldable pub finishes : ℕ → Input → Client → Bool
finishes id (received m) c = elim m.body [
  | observe_data j reply ↦ false
  | _ ↦ elim (is_active m.id c) [ none ↦ false | some j ↦ eqb j id ]
]
finishes id link_removed c = if c.connected then has_key_at id c.active_queries else false
finishes id _ c = false

-- `waitForDone`. What the socket still delivers of the same read once the query is done is left to
-- the inputs that follow.
unfoldable pub wait_for_done : ℕ → Call Bool
wait_for_done id [] c = (false, [], c)
wait_for_done id (i ∷ is) c =
    let rest = wait_for_done id is (take_input i c) in
    if finishes id i c then (true, is, take_input i c) else rest

-- The error of a reply, the empty text if there is no reply.
unfoldable pub error_of : Option Message → Text
error_of none = []
error_of (some m) = elim m.error [ none ↦ [] | some t ↦ t ]

unfoldable pub judge : Text → Client → Status × Client
judge [] c = (success, c)
judge (x ∷ t) c = (error, record c { last_error = x ∷ t })

unfoldable pub send_and_wait_reply : ℕ → Request → Call Status
send_and_wait_reply id r inputs c0 =
    let c1 : Client = record c0 {
      active_queries = put_at id r c0.active_queries;
      sent = r ∷ c0.sent;
    } in
    let (ok, rest, c2) = wait_for_done id inputs c1 in
    let c3 : Client = record c2 {
      active_queries = remove_at id c2.active_queries;
      queued = c2.queued ++ destroy_reply id ∷ [];
    } in
    if ok
    then (let (status, c4) = judge (error_of (at id c3.replies)) c3 in (status, rest, c4))
    else (error_connection, rest, record c3 { last_error = codes "Error: Timeout waiting reply" })

-- The calls: the request of a new id is sent, and the body of its reply is read on success.
unfoldable pub ask : (ℕ → Request) → Call (Status × Option Body)
ask request inputs c0 =
    let id = c0.next_f_id in
    let c1 : Client = record c0 { next_f_id = (id + 1) % 2 ^ 32 } in
    let (status, rest, c2) = send_and_wait_reply id (request id) inputs c1 in
    (
      (
        status,
        if is_success status
            then elim (at id c2.replies) [ none ↦ none | some m ↦ some m.body ]
            else none,
      ),
      rest,
      c2,
    )

module _ {A B : Type 0} where
  abbrev pub map_call : (A → B) → Call A → Call B
  map_call f call inputs c = let (a, rest, c') = call inputs c in (f a, rest, c')

-- A call that answers a code alone.
abbrev pub plain : (ℕ → Request) → Call Status
plain request = map_call (λ p. p.0) (ask request)

-- The value of a reply, as the conversions of QVariant give it for what is not there.
unfoldable pub list_of : Option Body → List Json
list_of (some (find_reply l)) = l
list_of _ = []

unfoldable pub document_of : Option Body → Fields
document_of (some (find_one_reply d)) = d
document_of _ = end

unfoldable pub number_of : Option Body → ℕ
number_of (some (count_reply n)) = n
number_of (some (new_transaction_reply n)) = n
number_of (some (observe_reply n)) = n
number_of _ = 0

unfoldable pub bytes_of : Option Body → List ℕ
bytes_of (some (insert_reply id)) = id
bytes_of _ = []

unfoldable pub texts_of : Option Body → List Text
texts_of (some (get_snapshot_list_reply l)) = l
texts_of (some (get_modified_reply l)) = l
texts_of _ = []

unfoldable pub search_request : LinkType → Text → Fields → Fields → Text → ℕ → Request
search_request type url query query_options snapshot id = record (new_request id type) {
  url = url;
  snapshot = snapshot;
  query = query;
  query_options = query_options;
}

unfoldable pub find : Text → Fields → Fields → Text → Call (Status × List Json)
find url query query_options snapshot =
    map_call (λ p. (p.0, list_of p.1))
      (ask (search_request type_find url query query_options snapshot))

unfoldable pub find_one : Text → Fields → Fields → Text → Call (Status × Fields)
find_one url query query_options snapshot =
    map_call (λ p. (p.0, document_of p.1))
      (ask (search_request type_find_one url query query_options snapshot))

unfoldable pub count : Text → Fields → Fields → Text → Call (Status × ℕ)
count url query query_options snapshot =
    map_call (λ p. (p.0, number_of p.1))
      (ask (search_request type_count url query query_options snapshot))

unfoldable pub create_index : Text → Text → Text → Call Status
create_index url field_name index_name = plain (λ id. record (new_request id type_create_index) {
  url = url;
  field_name = field_name;
  index_name = index_name;
})

unfoldable pub snapshot_request : LinkType → Text → Text → ℕ → Request
snapshot_request type url snapshot id = record (new_request id type) {
  url = url;
  snapshot = snapshot;
}

unfoldable pub new_snapshot : Text → Text → Call Status
new_snapshot url snapshot = plain (snapshot_request type_new_snapshot url snapshot)

unfoldable pub revert_to_snapshot : Text → Text → Call Status
revert_to_snapshot url snapshot = plain (snapshot_request type_revert_to_snapshot url snapshot)

unfoldable pub remove_snapshot : Text → Text → Call Status
remove_snapshot url snapshot = plain (snapshot_request type_remove_snapshot url snapshot)

unfoldable pub get_snapshot_list : Text → Call (Status × List Text)
get_snapshot_list url =
    map_call (λ p. (p.0, texts_of p.1))
      (ask (λ id. record (new_request id type_get_snapshot_list) { url = url }))

unfoldable pub get_modified : Text → Text → Call (Status × List (List ℕ))
get_modified url snapshot =
    map_call (λ p. (p.0, texts_of p.1)) (ask (snapshot_request type_get_modified url snapshot))

-- The number of a reply, or none for -1.
unfoldable pub number_if_success : Status × Option Body → Option ℕ
number_if_success (success, b) = some (number_of b)
number_if_success (_, b) = none

unfoldable pub new_transaction : Text → Call (Option ℕ)
new_transaction url =
    map_call number_if_success
      (ask (λ id. record (new_request id type_new_transaction) { url = url }))

unfoldable pub transaction_request : LinkType → ℤ → ℕ → Request
transaction_request type transaction_id id = record (new_request id type) {
  transaction_id = transaction_id;
}

unfoldable pub write_transaction : ℤ → Call Status
write_transaction transaction_id = plain (transaction_request type_write_transaction transaction_id)

unfoldable pub discard_transaction : ℤ → Call Status
discard_transaction transaction_id =
    plain (transaction_request type_discard_transaction transaction_id)

unfoldable pub insert : Text → Fields → Bool → Bool → ℤ → Call (Status × List ℕ)
insert url doc overwrite ignore_read_only_value transaction_id =
    map_call (λ p. (p.0, bytes_of p.1))
      (ask (λ id. record (new_request id type_insert) {
        url = url;
        transaction_id = transaction_id;
        document = doc;
        overwrite = overwrite;
        ignore_read_only_value = some ignore_read_only_value;
      }))

unfoldable pub remove : Text → Fields → ℤ → Call Status
remove url query transaction_id = plain (λ id. record (new_request id type_remove) {
  url = url;
  query = query;
  transaction_id = transaction_id;
})

unfoldable pub remove_id : Text → List ℕ → Bool → ℤ → Call Status
remove_id url doc_id ignore_read_only_value transaction_id = plain (λ id.
    record (new_request id type_remove_id) {
      url = url;
      document_id = doc_id;
      transaction_id = transaction_id;
      ignore_read_only_value = some ignore_read_only_value;
    })

unfoldable pub set : Text → Fields → List Json → ℤ → Call Status
set url query docs transaction_id = plain (λ id. record (new_request id type_set) {
  url = url;
  query = query;
  documents = docs;
  transaction_id = transaction_id;
})

unfoldable pub exclusive_lock : Text → Call Status
exclusive_lock url = plain (λ id. record (new_request id type_exclusive_lock) { url = url })

unfoldable pub unlock : Text → Call Status
unlock url = plain (λ id. record (new_request id type_unlock) { url = url })
