-- ===== src/Examples/Servers.antt =====
-- Examples for the server: two clients and two databases in memory.
use qdocdb.Prelude.{
  ℕ, ◌^◌, ◌≤◌, ◌<◌, ◌≡◌, refl, ℤ, pos, true, false, none, some, List, [], ◌∷◌, Text, codes, take,
  drop, at, assoc, ◌==◌, arith,
}
use qdocdb.Json.{end}
use qdocdb.Qt.Concrete.{concrete_qt}
use qdocdb.Kv.KvMap.{map_kv}
use qdocdb.Database.{Database}
use qdocdb.Link.Types.{
  LinkType, type_find, type_new_transaction, func_name, assign_type, assign_type-func_name,
}
use qdocdb.Server.{Url, Request, Host, Server, is_client}
use qdocdb.Server.Numbers.{get_next_transaction_id}
use qdocdb.Server.Numbers.Fresh.{get_next_transaction_id-fresh}
use qdocdb.Server.Receive.{receive, is_url_needed}
use qdocdb.Server.Slots.{new_server, new_connection, connect, request, Reach, start, next}
use qdocdb.Server.Elsewhere.{Untouched}
use qdocdb.Server.Exclusive.{receive_each, receive_each-excluded}
use qdocdb.Server.Reached.{IsOrderly, Reach-IsOrderly}
use qdocdb.Server.Owner.{Step-lock, is_step_of}
use qdocdb.Examples.{sample_context, fresh}

-- "/a?c" names the collection c of the database a.
abbrev short_url : Text → Url
short_url t = record { path = take 2 t; has_query = true; collection = drop 3 t; persistent = none }

abbrev sample_host : Host map_kv
sample_host = record {
  setup = record {
    qt = concrete_qt;
    config = sample_context.config;
    system = sample_context.system;
    junk = false;
  };
  file_system = record { exists = λ dir. true; mkpath = λ dir. true; canonical_path = λ dir. dir };
  base_dir = codes "base";
  open_store = λ dir in_memory. some [];
  parse_url = short_url;
  number = λ n. codes "n";
  unset = 0;
}

abbrev ask : LinkType → Text → ℤ → Request
ask type url transaction_id = record {
  type = type;
  id = pos 5;
  url = url;
  snapshot = [];
  query = end;
  query_options = end;
  field_name = [];
  index_name = [];
  transaction_id = transaction_id;
  ignore_read_only_value = none;
  document = end;
  document_id = [];
  overwrite = false;
  documents = [];
  prefered_id = none;
  observe_id = pos 0;
}

abbrev empty_server : Server map_kv
empty_server = new_server map_kv fresh.id_gen

abbrev database_a : Database map_kv
database_a = record { is_opened = true; base_dir = codes "base/a"; coll_list = [] }

-- Client 1 has locked the database a.
abbrev locked : Server map_kv
locked = record empty_server {
  databases = (codes "a", database_a) ∷ [];
  clients = 1 ∷ 2 ∷ [];
  database_locks = (codes "a", 1) ∷ [];
}

abbrev find_a : Request
find_a = ask type_find (codes "/a?c") (pos 0)

abbrev find_b : Request
find_b = ask type_find (codes "/b?c") (pos 0)

abbrev begin_a : Request
begin_a = ask type_new_transaction (codes "/a?c") (pos 0)

get_next_transaction_id-fresh_example :
    let m : List (ℕ × ℕ) = (0, 7) ∷ (1, 7) ∷ [] in
    (id : ℕ) × (next : ℕ) × (get_next_transaction_id m 0 ≡ some (id, next))
    × (at id m ≡ none)
    × (id < 2 ^ 31)
    × (next ≤ 2 ^ 31)
get_next_transaction_id-fresh_example =
    get_next_transaction_id-fresh ((0, 7) ∷ (1, 7) ∷ []) 0 (omega arith) (omega arith)

receive_each-excluded_example :
    Untouched map_kv sample_host
      (codes "a")
      locked
      (receive_each map_kv sample_host (codes "a") ((2, find_a) ∷ (2, find_b) ∷ []) locked)
receive_each-excluded_example =
    receive_each-excluded map_kv sample_host (codes "a") 1 ((2, find_a) ∷ (2, find_b) ∷ []) locked
      database_a (refl, unfold is_url_needed in refl, (refl, unfold is_url_needed in refl, tt))
      (unfold assoc ◌==◌ new_server in refl) (unfold assoc ◌==◌ new_server in refl)

abbrev connected : Server map_kv
connected = new_connection map_kv 1 empty_server

reach_connected : Reach map_kv sample_host connected
reach_connected = next (start fresh.id_gen) (connect 1 (unfold new_server is_client in refl))

abbrev asked : Server map_kv
asked = receive map_kv sample_host 1 begin_a connected

-- Client 1 has sent a request.
reach_asked : Reach map_kv sample_host asked
reach_asked = next reach_connected (
    request 1 begin_a (unfold new_server new_connection is_client in refl)
      (unfold new_server new_connection in omega arith))

Reach-IsOrderly_example : IsOrderly map_kv sample_host asked
Reach-IsOrderly_example = Reach-IsOrderly map_kv sample_host reach_asked

Step-lock_example :
    assoc (codes "a") (receive map_kv sample_host 2 find_b locked).database_locks ≡ some 1
Step-lock_example =
    Step-lock map_kv sample_host {s = locked} 1 (codes "a")
      (request 2 find_b (unfold is_client new_server in refl) (unfold new_server in omega arith))
      (unfold is_step_of in refl) (unfold assoc ◌==◌ new_server in refl)

assign_type-func_name_example : assign_type (func_name type_find) ≡ type_find
assign_type-func_name_example = assign_type-func_name type_find

abbrev find_in_b : ℕ → Request
find_in_b id = record find_b { id = pos id }
