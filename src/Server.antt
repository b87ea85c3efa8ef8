-- ===== src/Server.antt =====
-- qdocdb/qdocdbserver.cpp and .h, class QDocdbServer: the state of the server. Its requests and
-- replies, its handlers and its proofs are in the modules below.
pub mod Operations
pub mod Numbers
pub mod Receive
pub mod Slots
pub mod Quiet
pub mod Replies
pub mod Tables
pub mod Kinds
pub mod Sound
pub mod Elsewhere
pub mod Exclusive
pub mod Connected
pub mod Reached
pub mod Owner
pub mod Durable
use qdocdb.Prelude.{
  ℕ, zero, suc, ℤ, Bool, true, false, Option, none, some, List, [], ◌∷◌, ◌++◌, map, reverse, Text,
  assoc, assoc_put, get_elem?, contains, eqb, if◌then◌else◌,
}
use qdocdb.Json.{Json, Fields}
use qdocdb.IdGen.{IdGen}
use qdocdb.Kv.Interface.{KvInterface}
use qdocdb.Transaction.{Transaction}
use qdocdb.OpenCollection.{OpenCollection, Setup}
use qdocdb.Database.{Database, FileSystem}
use qdocdb.Link.Types.{LinkType}

-- The parts of a QUrl that the server reads.
pub record Url : Type 0 where
  pub path : Text
  pub has_query : Bool
  pub collection : Text
  pub persistent : Option Text

-- A request, each key of its QVariantMap as the type that the server converts it to.
pub record Request : Type 0 where
  pub type : LinkType
  pub id : ℤ
  pub url : Text
  pub snapshot : Text
  pub query : Fields
  pub query_options : Fields
  pub field_name : Text
  pub index_name : Text
  pub transaction_id : ℤ
  pub ignore_read_only_value : Option Bool
  pub document : Fields
  pub document_id : List ℕ
  pub overwrite : Bool
  pub documents : List Json
  -- none for -1; smaller numbers are left out
  pub prefered_id : Option ℕ
  pub observe_id : ℤ

-- What a message of the server says, by its type.
pub data Body : Type 0 where
  find_reply : List Json → Body
  find_one_reply : Fields → Body
  count_reply : ℕ → Body
  get_modified_reply : List (List ℕ) → Body
  new_transaction_reply : ℕ → Body
  insert_reply : List ℕ → Body
  get_snapshot_list_reply : List Text → Body
  observe_reply : ℕ → Body
  observe_data : ℕ → List Json → Body
  unknown : Body

-- The body of a message that no request asks for.
unfoldable pub is_data : Body → Bool
is_data (observe_data id reply) = true
is_data _ = false

-- `error` is none where the key is not set.
pub record Message : Type 0 where
  pub id : ℤ
  pub body : Body
  pub error : Option Text

-- A pointer to a collection: its database, and its index there.
pub record Place : Type 0 where
  pub database : Text
  pub index : ℕ

-- What waits in the event queue: signals that are connected to be delivered later.
pub data Event : Type 0 where
  unlocked : ℕ → Text → Event
  observe_query_changed : ℕ → List Json → Event

-- What the server is given: the configuration, the file system, the stores, and of Qt the parser of
-- URLs and `QString::number`. `unset` is what a variable without a value holds.
pub record Host (kv : KvInterface) : Type 0 where
  pub setup : Setup
  pub file_system : FileSystem
  pub base_dir : Text
  pub open_store : Text → Bool → Option kv.Db
  pub parse_url : Text → Url
  pub number : ℤ → Text
  pub unset : ℕ

-- A transaction with its parent collection and the snapshot that it was made for.
pub record OpenTransaction (kv : KvInterface) : Type 0 where
  pub place : Place
  pub snapshot_id : ℕ
  pub state : Transaction kv

-- A client is a number, for the pointer to its link. `transaction_id` is an int, by its 32-bit
-- pattern. `unlock_wait` is that of the links, `sent` what has been sent, the last message first, and
-- `crashed` says that a null pointer has been used. `transactionClient` is left out: nothing is ever
-- put into it.
pub record Server (kv : KvInterface) : Type 0 where
  pub transaction_id : ℕ
  pub transactions : List (ℕ × OpenTransaction kv)
  pub databases : List (Text × Database kv)
  pub clients : List ℕ
  pub database_locks : List (Text × ℕ)
  pub observe_client : List (ℕ × Option ℕ)
  pub observe_collection : List (ℕ × Place)
  pub unlock_wait : List (ℕ × Request)
  pub id_gen : IdGen
  pub sent : List (ℕ × Message)
  pub pending : List Event
  pub crashed : Bool

unfoldable pub is_client : ℕ → List ℕ → Bool
is_client c [] = false
is_client c (d ∷ ds) = let rest = is_client c ds in if eqb d c then true else rest

unfoldable pub signals : List (ℕ × List Json) → List Event
signals [] = []
signals ((id, reply) ∷ l) = signals l ++ observe_query_changed id reply ∷ []

module _ (kv : KvInterface) where
  -- The collection behind a pointer, with the generator of ids that all collections share.
  unfoldable pub collection_at : Place → Server kv → Option (OpenCollection kv)
  collection_at p s = elim (assoc p.database s.databases) [
    | none ↦ none
    | some db ↦ elim (get_elem? db.coll_list p.index) [
      | none ↦ none
      | some (dir, coll) ↦ some (record coll { id_gen = s.id_gen })
    ]
  ]

  unfoldable pub replace_collection :
      ℕ → OpenCollection kv → List (Text × OpenCollection kv) → List (Text × OpenCollection kv)
  replace_collection i coll [] = []
  replace_collection zero coll ((dir, old) ∷ l) = (dir, coll) ∷ l
  replace_collection (suc i) coll (x ∷ l) = x ∷ replace_collection i coll l

  -- The collection after a call of it: what it has emitted goes to the event queue.
  unfoldable pub put_collection : Place → OpenCollection kv → Server kv → Server kv
  unfolding replace_collection signals
  put_collection p coll s = elim (assoc p.database s.databases) [
    | none ↦ s
    | some db ↦ record s {
      databases =
          assoc_put p.database
            (record db {
              coll_list = replace_collection p.index (record coll { emitted = [] }) db.coll_list;
            })
            s.databases;
      id_gen = coll.id_gen;
      pending = s.pending ++ signals coll.emitted;
    }
  ]
