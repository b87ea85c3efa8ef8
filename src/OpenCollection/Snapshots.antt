-- ===== src/OpenCollection/Snapshots.antt =====
-- qdocdb/qdoccollection.cpp: newSnapshot, getSnapshot, revertToSnapshot and removeSnapshot.
pub mod Shift
pub mod Names
pub mod Keys
pub mod Dropped
pub mod Created
use qdocdb.Prelude.{
  ℕ, zero, suc, ◌+◌, ◌-◌, ◌%◌, Bool, true, false, not, ◌&&◌, Option, none, some, List, [], ◌∷◌,
  ◌++◌, map, Text, Bytes, codes, ltb, eqb, take, drop, length, init, last?, get_elem?, starts_with,
  if◌then◌else◌,
}
use qdocdb.Json.{Json, is_undefined}
use qdocdb.Qt.{Qt}
use qdocdb.Serialize.{unmarshal, unmarshal_index_value, marshal_index_value}
use qdocdb.Kv.{Entry}
use qdocdb.Kv.Interface.{KvInterface}
use qdocdb.Collection.{
  Code, Result, ok, err, error_snapshot_is_exists, error_type, undefined_behaviour,
  index_value_start_key,
}
use qdocdb.Collection.Iterator.{is_empty}
use qdocdb.Find.{get_snapshots_value, get_snapshot_id, get_indexes}
use qdocdb.Transaction.{
  Transaction, Context, Exec, pure, fail, ◌>>=◌, ◌>>◌, continue, source, put_value, delete_value,
  put_snapshots_value, copy_index_values,
}
use qdocdb.OpenCollection.{
  OpenCollection, Setup, ClassType, type_collection, type_read_only_snapshot, source_of, context,
  start, commit, reload_observers,
}

abbrev pub current : Text
current = codes "__CURRENT"

-- `snapshots[snapshots.size() - 1] = name`, of a list that is not empty
unfoldable pub rename_last : Text → List Text → List Text
rename_last name l = init l ++ name ∷ []

-- `key[key.size() - 2] == ':'`: the key of a version, not the start key of a document
unfoldable pub is_version_key : Bytes → Bool
is_version_key k = elim (last? (init k)) [ none ↦ false | some c ↦ eqb c b':' ]

unfoldable pub has_id : ℕ → List ℕ → Bool
has_id s [] = false
has_id s (x ∷ xs) = let rest = has_id s xs in if eqb x s then true else rest

-- From `n` down to `k`, without `k`: the ids of the snapshots that go, as unsigned chars.
unfoldable pub ids_above : ℕ → ℕ → List ℕ
ids_above k zero = []
ids_above k (suc n) = let rest = ids_above k n in if ltb k (suc n) then (suc n % 256) ∷ rest else []

module _ (kv : KvInterface) (c : Context kv) where
  open c use {qt, db}

  unfoldable pub delete_single : Bytes → Bool → Exec kv (Unit {0})
  delete_single start_key is_single =
      if is_single && not (is_empty start_key) then delete_value kv c start_key else pure tt

  -- The loop of `revertToSnapshot` over the documents. The result codes are not looked at.
  unfoldable pub drop_versions : List ℕ → List Entry → Bytes → Bool → Exec kv (Unit {0})
  drop_versions s_ids [] start_key is_single = delete_single start_key is_single
  drop_versions s_ids ((k, v) ∷ rest) start_key is_single =
      if starts_with (codes "d:") k
      then if is_version_key k
        then elim (last? k) [
          | none ↦ pure tt
          | some s ↦
              if has_id s s_ids
              then (do delete_value kv c k; drop_versions s_ids rest start_key is_single)
              else drop_versions s_ids rest start_key false
        ]
        else (do delete_single start_key is_single; drop_versions s_ids rest k true)
      else delete_single start_key is_single

  unfoldable pub delete_prefixed : Bytes → List Entry → Exec kv (Unit {0})
  delete_prefixed p [] = pure tt
  delete_prefixed p ((k, v) ∷ rest) =
      if starts_with p k then (do delete_value kv c k; delete_prefixed p rest) else pure tt

  unfoldable pub drop_index : Text → List ℕ → Exec kv (Unit {0})
  drop_index index_name [] = pure tt
  drop_index index_name (s ∷ s_ids) =
      let key = index_value_start_key qt index_name s in
      do delete_prefixed key (kv.seek key db); drop_index index_name s_ids

  unfoldable pub drop_indexes : List (Text × Text) → List ℕ → Exec kv (Unit {0})
  drop_indexes [] s_ids = pure tt
  drop_indexes ((field_name, index_name) ∷ indexes) s_ids = do
    drop_index index_name s_ids
    drop_indexes indexes s_ids

  unfoldable pub revert : List Text → List ℕ → Exec kv (Unit {0})
  revert snapshots s_ids = do
    put_snapshots_value kv c snapshots
    drop_versions s_ids (kv.seek_to_first db) [] false
    (λ s. drop_indexes (get_indexes kv qt (source kv c s)) s_ids s)

module _ (kv : KvInterface) (setup : Setup) where
  open setup use {qt}

  unfoldable pub new_snapshot : Text → OpenCollection kv → Result (Unit {0}) × OpenCollection kv
  new_snapshot name coll = elim coll.class_type [
    | type_read_only_snapshot ↦ (err error_type, coll)
    | type_collection ↦ elim (get_snapshot_id kv qt (source_of kv setup coll) name) [
      | ok id ↦ (
        err error_snapshot_is_exists,
        record coll { last_error = codes "Snapshot is already exists" },
      )
      | err e ↦ elim (get_snapshots_value kv qt (source_of kv setup coll)) [
        | err e' ↦ (err e', coll)
        | ok [] ↦ (err undefined_behaviour, coll)
        | ok (t ∷ l) ↦
            let (r, s) =
              (do
                put_snapshots_value kv (context kv setup coll)
                    (rename_last name (t ∷ l) ++ current ∷ [])
                copy_index_values kv (context kv setup coll) ((coll.snapshot_id + 1) % 256)
                    coll.snapshot_id)
                (start kv setup coll) in
            elim r [
              | err e' ↦ (err e', coll)
              | ok u ↦
                  let (r', coll') = commit kv setup s coll in
                  elim r' [
                    | err e' ↦ (err e', coll')
                    | ok u' ↦ (ok tt, record coll' { snapshot_id = (coll'.snapshot_id + 1) % 256 })
                  ]
            ]
      ]
    ]
  ]

  -- The snapshot's id is not set where the name is not found: `unset` is what it then holds.
  unfoldable pub get_snapshot : ℕ → Text → OpenCollection kv → Option (OpenCollection kv)
  get_snapshot unset name coll = elim coll.class_type [
    | type_read_only_snapshot ↦ none
    | type_collection ↦
        let id : ℕ = elim (get_snapshot_id kv qt (source_of kv setup coll) name) [
          | err e ↦ unset
          | ok i ↦ i
        ] in
        some (record coll {
          class_type = type_read_only_snapshot;
          snapshot_id = id;
          observers = [];
          emitted = [];
        })
  ]

  unfoldable pub revert_to_snapshot :
      Text → OpenCollection kv → Result (Unit {0}) × OpenCollection kv
  revert_to_snapshot name coll = elim (get_snapshot_id kv qt (source_of kv setup coll) name) [
    | err e ↦ (err e, coll)
    | ok id ↦ elim (get_snapshots_value kv qt (source_of kv setup coll)) [
      | err e ↦ (err e, coll)
      | ok snapshots ↦
          let (r, s) =
            revert kv (context kv setup coll) (rename_last current (take (suc id) snapshots))
              (ids_above id (length snapshots - 1)) (start kv setup coll) in
          let (r', coll') = commit kv setup s coll in
          elim r' [
            | err e ↦ (err e, coll')
            | ok u ↦ (ok tt, reload_observers kv setup (record coll' { snapshot_id = id }))
          ]
    ]
  ]
