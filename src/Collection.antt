-- ===== src/Collection.antt =====
-- qdocdb/qdoccollection.cpp and .h: the document collection over a key-value store. The result codes
-- and the layout of the keys; the operations are in the modules below.
pub mod Iterator
use qdocdb.Prelude.{ℕ, List, [], ◌∷◌, ◌++◌, Text, Bytes, codes}
use qdocdb.Json.{Json}
use qdocdb.Qt.{Qt}
use qdocdb.Serialize.{marshal}

-- enum resultEnum and resultTransactionEnum, errors only. `kv_failed` is a code of the key-value
-- store that `removeById` hands on, and `undefined_behaviour` no code but a run without a defined
-- result.
pub data Code : Type 0 where
  error_query error_invalid_object error_already_exists error_database : Code
  error_snapshot_is_exists error_type error_object_is_read_only : Code
  error_write_transaction kv_failed undefined_behaviour : Code

pub data Result {ℓ} (A : Type ℓ) : Type ℓ where
  ok : A → Result A
  err : Code → Result A

-- d:DOCUMENT_ID:
unfoldable pub document_start_key : Bytes → Bytes
document_start_key id = codes "d:" ++ (id ++ b':' ∷ [])

-- d:DOCUMENT_ID:\xHH
unfoldable pub document_link_key : Bytes → ℕ → Bytes
unfolding document_start_key
document_link_key id snapshot_id = document_start_key id ++ snapshot_id ∷ []

-- iv:INDEX_NAME:\xHH:
unfoldable pub index_value_start_key : Qt → Text → ℕ → Bytes
index_value_start_key qt index_name snapshot_id =
    qt.to_local8bit (codes "iv:" ++ (index_name ++ b':' ∷ [])) ++ snapshot_id ∷ b':' ∷ []

-- iv:INDEX_NAME:\xHH:VALUE, of the bytes of a value and of a value
unfoldable pub index_value_key_of : Qt → Text → ℕ → Bytes → Bytes
unfolding index_value_start_key
index_value_key_of qt index_name snapshot_id value_data =
    index_value_start_key qt index_name snapshot_id ++ value_data

unfoldable pub index_value_key : Qt → Text → ℕ → Json → Bytes
unfolding index_value_key_of
index_value_key qt index_name snapshot_id v =
    index_value_key_of qt index_name snapshot_id (marshal qt v)
