-- ===== src/Transaction/Reads.antt =====
-- What a transaction reads after its own writes, whatever the key-value store below it.
use qdocdb.Prelude.{◌≡◌, Option, none, some, [], Bytes, ◌==◌, if◌then◌else◌, arith}
use qdocdb.Json.{Json}
use qdocdb.Serialize.{marshal}
use qdocdb.Kv.{found}
use qdocdb.Kv.Interface.{KvInterface, KvLaws}
use qdocdb.Collection.{ok, document_start_key, document_link_key}
use qdocdb.Transaction.{Transaction, Context, check_kv, put_value, delete_value, put_json_value}

-- What a transaction finds at a key.
abbrev pub holds : (kv : KvInterface) → Context kv → Transaction kv → Bytes → Option Bytes
holds kv c s j = found (kv.get_value j s.tx c.db)

module _ (kv : KvInterface) (laws : KvLaws kv) (c : Context kv) where
  pub put_value-eq :
      (k v : Bytes) (s : Transaction kv)
      → put_value kv c k v s ≡ (ok tt, record s { tx = (kv.put_value k v s.tx).1 })
  unfolding put_value check_kv
  put_value-eq k v s = ground (arith, laws.put-ok k v s.tx)

  pub delete_value-eq :
      (k : Bytes) (s : Transaction kv)
      → delete_value kv c k s ≡ (ok tt, record s { tx = (kv.delete_value k s.tx).1 })
  unfolding delete_value check_kv
  delete_value-eq k s = ground (arith, laws.delete-ok k s.tx)

  pub holds-put_value :
      (k v j : Bytes) (s : Transaction kv)
      → holds kv c (put_value kv c k v s).1 j ≡ (if k == j then some v else holds kv c s j)
  holds-put_value k v j s = rw (put_value-eq k v s) (laws.get-put k v j s.tx c.db)

  pub holds-delete_value :
      (k j : Bytes) (s : Transaction kv)
      → holds kv c (delete_value kv c k s).1 j ≡ (if k == j then none else holds kv c s j)
  holds-delete_value k j s = rw (delete_value-eq k s) (laws.get-delete k j s.tx c.db)

  pub put_json_value-eq :
      (id : Bytes) (v : Json) (s : Transaction kv)
      → put_json_value kv c id v s ≡ (
        ok tt,
        (put_value kv c
            (document_link_key id c.snapshot_id)
            (marshal c.qt v)
            (put_value kv c (document_start_key id) [] s).1).1,
      )
  unfolding put_json_value
  put_json_value-eq id v s = ground (
    arith,
    put_value-eq (document_start_key id) [] s,
    put_value-eq (document_link_key id c.snapshot_id) (marshal c.qt v)
        (put_value kv c (document_start_key id) [] s).1,
  )

  -- `putJsonValue` succeeds, and then the transaction finds the value at the link key, an empty
  -- value at the start key, and at every other key what it found before.
  pub put_json_value-holds :
      (id : Bytes) (v : Json) (s : Transaction kv) (j : Bytes)
      → ((put_json_value kv c id v s).0 ≡ ok tt)
        × (holds kv c (put_json_value kv c id v s).1 j ≡ (
            if document_link_key id c.snapshot_id == j
            then some (marshal c.qt v)
            else if document_start_key id == j
            then some []
            else holds kv c s j))
  put_json_value-holds id v s j = ground (
    arith,
    put_json_value-eq id v s,
    holds-put_value (document_start_key id) [] j s,
    holds-put_value (document_link_key id c.snapshot_id) (marshal c.qt v) j
        (put_value kv c (document_start_key id) [] s).1,
  )
