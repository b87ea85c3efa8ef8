-- ===== src/Kv.antt =====
-- qdocdb/qdockvinterface.h: the key-value interface. What its methods answer is a result; an error
-- carries the text that `getLastError` returns after it.
pub mod Sorted
pub mod Interface
pub mod KvMap
pub mod LevelDb
use qdocdb.Prelude.{Text, Bytes, Option, none, some}

-- The errors of `resultEnum` and of the transactions' own enumerations.
pub data KvError : Type 0 where
  error_is_not_transaction error_operation error_write_transaction : KvError

pub data KvResult {ℓ} (A : Type ℓ) : Type ℓ where
  ok : A → KvResult A
  failed : KvError → Text → KvResult A

abbrev pub Entry : Type 0
Entry = Bytes × Bytes

-- What a read found, with the reason of a failure left out.
unfoldable pub found {ℓ} : {A : Type ℓ} → KvResult A → Option A
found (ok a) = some a
found (failed e t) = none
