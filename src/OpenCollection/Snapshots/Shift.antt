-- ===== src/OpenCollection/Snapshots/Shift.antt =====
-- QDocCollection::removeSnapshot: the versions and index values after the snapshot move down by one.
use qdocdb.Prelude.{
  ℕ, zero, suc, ◌+◌, ◌-◌, ◌%◌, Bool, true, false, not, ◌&&◌, ◌||◌, none, some, List, [], ◌∷◌, ◌++◌,
  map, Text, Bytes, codes, ltb, eqb, length, init, last?, starts_with, if◌then◌else◌,
}
use qdocdb.Json.{is_undefined}
use qdocdb.Serialize.{unmarshal, unmarshal_index_value, marshal_index_value}
use qdocdb.Kv.{Entry}
use qdocdb.Kv.Interface.{KvInterface}
use qdocdb.Collection.{Result, ok, err, index_value_start_key}
use qdocdb.Collection.Iterator.{is_empty}
use qdocdb.Find.{get_snapshots_value, get_snapshot_id, get_indexes}
use qdocdb.Transaction.{
  Context, Exec, pure, ◌>>=◌, ◌>>◌, source, put_value, delete_value, put_snapshots_value,
}
use qdocdb.OpenCollection.{
  OpenCollection, Setup, source_of, context, start, commit, reload_observers,
}
use qdocdb.OpenCollection.Snapshots.{is_version_key, delete_prefixed}

-- `key[key.size() - 1] = s`
unfoldable pub with_last : Bytes → ℕ → Bytes
with_last k s = init k ++ s ∷ []

-- `QByteArray::replace`: every occurrence, the first argument counts the bytes to pass over.
unfoldable pub replace_all : ℕ → Bytes → Bytes → Bytes → Bytes
replace_all skip old new [] = []
replace_all (suc skip) old new (x ∷ s) = replace_all skip old new s
replace_all zero old new (x ∷ s) =
    let found = new ++ replace_all (length old - 1) old new s in
    let other = x ∷ replace_all zero old new s in if starts_with old (x ∷ s) then found else other

-- A link to a version after the snapshot moves down by one.
unfoldable pub shift_link : ℕ → Bytes → Bytes
shift_link id link = elim (last? link) [
  | none ↦ link
  | some s ↦ if ltb id s then with_last link (s - 1) else link
]

unfoldable pub is_later_link : ℕ → Bytes → Bool
is_later_link id link = elim (last? link) [ none ↦ false | some s ↦ ltb id s ]

unfoldable pub any_later_link : ℕ → List Bytes → Bool
unfolding is_later_link
any_later_link id [] = false
any_later_link id (l ∷ ls) = is_later_link id l || any_later_link id ls

unfoldable pub remove_nth : ℕ → List Text → List Text
remove_nth i [] = []
remove_nth zero (t ∷ l) = l
remove_nth (suc i) (t ∷ l) = t ∷ remove_nth i l

-- `n` ids from `s` on
unfoldable pub ids_from : ℕ → ℕ → List ℕ
ids_from s zero = []
ids_from s (suc n) = s ∷ ids_from (suc s) n

-- The variables of the loop over the documents.
pub record Shifting : Type 0 where
  pub last_key : Bytes
  pub start_key : Bytes
  pub remove_start_key : Bool

module _ (kv : KvInterface) (c : Context kv) where
  open c use {qt, db}

  unfoldable pub delete_key_if : Bool → Bytes → Exec kv (Unit {0})
  delete_key_if b k = if b && not (is_empty k) then delete_value kv c k else pure tt

  -- At the end of a document: its last version has moved, and its start key may have to go.
  unfoldable pub finish_document : Shifting → Exec kv (Unit {0})
  finish_document v = do delete_key_if true v.last_key; delete_key_if v.remove_start_key v.start_key

  -- A version `s` after the snapshot, with its value.
  unfoldable pub shift_version : ℕ → ℕ → Bytes → Bytes → Shifting → Exec kv Shifting
  shift_version id s k v w =
      let key = with_last k (s - 1) in
      if is_undefined (unmarshal qt v)
      then (do
        delete_value kv c key
        pure (record w { last_key = k; remove_start_key = eqb s (id + 1) || w.remove_start_key }))
      else (do put_value kv c key v; pure (record w { last_key = k; remove_start_key = false }))

  unfoldable pub shift_documents : ℕ → List Entry → Shifting → Exec kv (Unit {0})
  shift_documents id [] w = finish_document w
  shift_documents id ((k, v) ∷ rest) w =
      if starts_with (codes "d:") k
      then if is_version_key k
        then elim (last? k) [
          | none ↦ pure tt
          | some s ↦
              if ltb id s
              then (do w' ← shift_version id s k v w; shift_documents id rest w')
              else shift_documents id rest w
        ]
        else (do
          finish_document w
          shift_documents id rest
              (record { last_key = []; start_key = k; remove_start_key = false }))
      else finish_document w

  -- The data of an index value: written anew if a link has moved.
  unfoldable pub shift_links : ℕ → Bytes → Bytes
  shift_links id v =
      let links = unmarshal_index_value qt v in
      if any_later_link id links then marshal_index_value qt (map (shift_link id) links) else v

  -- The index values of one snapshot are those of the next, with their links moved.
  unfoldable pub copy_down : ℕ → Bytes → Bytes → List Entry → Exec kv (Unit {0})
  copy_down id start_key start_key1 [] = pure tt
  copy_down id start_key start_key1 ((k, v) ∷ rest) =
      if starts_with start_key1 k
      then (do
        put_value kv c (replace_all 0 start_key1 start_key k) (shift_links id v)
        copy_down id start_key start_key1 rest)
      else pure tt

  unfoldable pub shift_index : ℕ → Text → List ℕ → Exec kv (Unit {0})
  shift_index id index_name [] = pure tt
  shift_index id index_name (s ∷ ids) =
      let start_key = index_value_start_key qt index_name s in
      let start_key1 = index_value_start_key qt index_name ((s + 1) % 256) in
      do
        delete_prefixed kv c start_key (kv.seek start_key db)
        copy_down id start_key start_key1 (kv.seek start_key1 db)
        shift_index id index_name ids

  unfoldable pub shift_indexes : ℕ → List ℕ → List (Text × Text) → Exec kv (Unit {0})
  shift_indexes id ids [] = pure tt
  shift_indexes id ids ((field_name, index_name) ∷ indexes) = do
    shift_index id index_name ids
    shift_indexes id ids indexes

  unfoldable pub shift : ℕ → List Text → Exec kv (Unit {0})
  shift id snapshots = do
    shift_documents id (kv.seek_to_first db)
        (record { last_key = []; start_key = []; remove_start_key = false })
    (λ s.
        shift_indexes id (ids_from id (length snapshots - id)) (get_indexes kv qt (source kv c s))
          s)
    put_snapshots_value kv c (remove_nth id snapshots)

module _ (kv : KvInterface) (setup : Setup) where
  open setup use {qt}

  unfoldable pub remove_snapshot : Text → OpenCollection kv → Result (Unit {0}) × OpenCollection kv
  remove_snapshot name coll = elim (get_snapshot_id kv qt (source_of kv setup coll) name) [
    | err e ↦ (err e, coll)
    | ok id ↦ elim (get_snapshots_value kv qt (source_of kv setup coll)) [
      | err e ↦ (err e, coll)
      | ok snapshots ↦
          let (r, s) = shift kv (context kv setup coll) id snapshots (start kv setup coll) in
          elim r [
            | err e ↦ (err e, coll)
            | ok u ↦
                let (r', coll') = commit kv setup s coll in
                elim r' [
                  | err e ↦ (err e, coll')
                  | ok u' ↦ (
                    ok tt,
                    reload_observers kv setup
                        (record coll' { snapshot_id = (coll'.snapshot_id + 255) % 256 }),
                  )
                ]
          ]
    ]
  ]
