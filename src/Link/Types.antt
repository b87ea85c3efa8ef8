-- ===== src/Link/Types.antt =====
-- qdocdb/qdocdblinkbase.h and .cpp: the types of messages and their names.
use qdocdb.Prelude.{◌≡◌, refl, List, [], ◌∷◌, Text, codes, ◌==◌, if◌then◌else◌}

-- enum LinkObjectType
pub data LinkType : Type 0 where
  type_find type_find_one type_find_reply type_find_one_reply type_count : LinkType
  type_count_reply type_create_index type_new_transaction type_new_transaction_reply
        type_write_transaction :
      LinkType
  type_discard_transaction type_insert type_insert_reply type_remove type_remove_id : LinkType
  type_set type_new_snapshot type_revert_to_snapshot type_remove_snapshot type_get_snapshot_list :
      LinkType
  type_get_snapshot_list_reply type_observe type_observe_reply type_observe_data type_unobserve :
      LinkType
  type_get_modified type_get_modified_reply type_exclusive_lock type_unlock type_unknown : LinkType

-- QDOCDB_FUNCMAP
unfoldable pub func_name : LinkType → Text
func_name type_find = codes "find"
func_name type_find_one = codes "findOne"
func_name type_find_reply = codes "findReply"
func_name type_find_one_reply = codes "findOneReply"
func_name type_count = codes "count"
func_name type_count_reply = codes "countReply"
func_name type_create_index = codes "createIndex"
func_name type_new_transaction = codes "newTransaction"
func_name type_new_transaction_reply = codes "newTransactionReply"
func_name type_write_transaction = codes "writeTransaction"
func_name type_discard_transaction = codes "discardTransaction"
func_name type_insert = codes "insert"
func_name type_insert_reply = codes "insertReply"
func_name type_remove = codes "remove"
func_name type_remove_id = codes "removeId"
func_name type_set = codes "set"
func_name type_new_snapshot = codes "newSnapshot"
func_name type_revert_to_snapshot = codes "revertToSnapshot"
func_name type_remove_snapshot = codes "removeSnapshot"
func_name type_get_snapshot_list = codes "getSnapshotList"
func_name type_get_snapshot_list_reply = codes "getSnapshotListReply"
func_name type_observe = codes "observe"
func_name type_observe_reply = codes "observeReply"
func_name type_observe_data = codes "observeData"
func_name type_unobserve = codes "unobserve"
func_name type_get_modified = codes "getModified"
func_name type_get_modified_reply = codes "getModifiedReply"
func_name type_exclusive_lock = codes "exclusiveLock"
func_name type_unlock = codes "unlock"
func_name type_unknown = codes "unknown"

-- The keys of QDOCDB_FUNCMAP, in their order.
abbrev pub link_types : List LinkType
link_types =
    type_find ∷ type_find_one ∷ type_find_reply ∷ type_find_one_reply ∷ type_count
    ∷ type_count_reply ∷ type_create_index ∷ type_new_transaction ∷ type_new_transaction_reply
    ∷ type_write_transaction ∷ type_discard_transaction ∷ type_insert ∷ type_insert_reply
    ∷ type_remove ∷ type_remove_id ∷ type_set ∷ type_new_snapshot ∷ type_revert_to_snapshot
    ∷ type_remove_snapshot ∷ type_get_snapshot_list ∷ type_get_snapshot_list_reply ∷ type_observe
    ∷ type_observe_reply ∷ type_observe_data ∷ type_unobserve ∷ type_get_modified
    ∷ type_get_modified_reply ∷ type_exclusive_lock ∷ type_unlock ∷ type_unknown ∷ []

-- QMap::key: the first key with a value, or else the first type of the enumeration.
unfoldable pub key_of : Text → List LinkType → LinkType
key_of name [] = type_find
key_of name (t ∷ ts) = if func_name t == name then t else key_of name ts

-- `assignType`, of the name in `func`
unfoldable pub assign_type : Text → LinkType
unfolding func_name key_of
assign_type name = key_of name link_types

-- A message that is made for a type, sent and read again has that type: no two types share a name.
pub assign_type-func_name : (t : LinkType) → assign_type (func_name t) ≡ t
unfolding assign_type func_name key_of ◌==◌
assign_type-func_name type_find = refl
assign_type-func_name type_find_one = refl
assign_type-func_name type_find_reply = refl
assign_type-func_name type_find_one_reply = refl
assign_type-func_name type_count = refl
assign_type-func_name type_count_reply = refl
assign_type-func_name type_create_index = refl
assign_type-func_name type_new_transaction = refl
assign_type-func_name type_new_transaction_reply = refl
assign_type-func_name type_write_transaction = refl
assign_type-func_name type_discard_transaction = refl
assign_type-func_name type_insert = refl
assign_type-func_name type_insert_reply = refl
assign_type-func_name type_remove = refl
assign_type-func_name type_remove_id = refl
assign_type-func_name type_set = refl
assign_type-func_name type_new_snapshot = refl
assign_type-func_name type_revert_to_snapshot = refl
assign_type-func_name type_remove_snapshot = refl
assign_type-func_name type_get_snapshot_list = refl
assign_type-func_name type_get_snapshot_list_reply = refl
assign_type-func_name type_observe = refl
assign_type-func_name type_observe_reply = refl
assign_type-func_name type_observe_data = refl
assign_type-func_name type_unobserve = refl
assign_type-func_name type_get_modified = refl
assign_type-func_name type_get_modified_reply = refl
assign_type-func_name type_exclusive_lock = refl
assign_type-func_name type_unlock = refl
assign_type-func_name type_unknown = refl
