-- ===== src/Server/Operations.antt =====
-- qdocdb/qdocdbserver.cpp, the cases of `receive` that work on one collection.
use qdocdb.Prelude.{
  Bool, false, Option, none, some, [], ◌∷◌, ◌++◌, map, Text, codes, ◌==◌, remove_all, if◌then◌else◌,
}
use qdocdb.Json.{end}
use qdocdb.Kv.{KvResult}
use qdocdb.Kv.Interface.{KvInterface}
use qdocdb.Collection.{Result, ok, err}
use qdocdb.Find.{find, find_one, count, get_modified, get_snapshots_value}
use qdocdb.Transaction.{Transaction, Context, create_index}
use qdocdb.Transaction.Insert.{insert}
use qdocdb.Transaction.Remove.{remove_by_id, remove, set, write_transaction}
use qdocdb.OpenCollection.{OpenCollection, source_of, context, new_transaction, commit}
use qdocdb.OpenCollection.Snapshots.{current, new_snapshot, get_snapshot, revert_to_snapshot}
use qdocdb.OpenCollection.Snapshots.Shift.{remove_snapshot}
use qdocdb.Link.Types.{
  type_find, type_find_one, type_count, type_insert, type_remove, type_remove_id, type_set,
  type_new_snapshot, type_revert_to_snapshot,
}
use qdocdb.Server.{
  Request, Host, Body, find_reply, find_one_reply, count_reply, get_modified_reply, insert_reply,
  get_snapshot_list_reply,
}

-- What a case leaves: `replyObject`, if it has been made, and `errorString`; or a null pointer that
-- has been used.
pub data Outcome : Type 0 where
  done : Option Body → Text → Outcome
  null_pointer : Outcome

abbrev pub success : Outcome
success = done none []

abbrev pub reply_with : Body → Outcome
reply_with b = done (some b) []

abbrev pub failure : Text → Outcome
failure t = done none t

-- `snapshotName`
unfoldable pub snapshot_name : Request → Text
snapshot_name r = elim r.snapshot [ [] ↦ current | c ∷ l ↦ c ∷ l ]

unfoldable pub ignores_read_only : Request → Bool
ignores_read_only r = elim r.ignore_read_only_value [ none ↦ false | some b ↦ b ]

module _ (kv : KvInterface) (host : Host kv) where
  open host use {setup}
  open setup use {qt, junk}

  -- The search of a request in `coll1`, with the last error of `coll`.
  unfoldable pub search_in : Request → OpenCollection kv → Text → Outcome
  search_in r coll1 last_error =
      let src = source_of kv setup coll1 in
      elim r.type [
        | type_find ↦
            let (result, found) = find kv qt src junk r.query r.query_options in
            elim result [
              | ok u ↦ reply_with (find_reply (map (λ p. p.0) found))
              | err e ↦ failure last_error
            ]
        | type_find_one ↦ elim (find_one kv qt src junk r.query r.query_options end) [
          | ok doc ↦ reply_with (find_one_reply doc)
          | err e ↦ failure last_error
        ]
        | type_count ↦ elim (count kv qt src junk r.query r.query_options) [
          | ok n ↦ reply_with (count_reply n)
          | err e ↦ failure last_error
        ]
        | _ ↦ reply_with (get_modified_reply (get_modified kv qt src))
      ]

  -- `lastError` after the list of snapshots has been read, as the calls on snapshots begin.
  unfoldable pub note_error : OpenCollection kv → OpenCollection kv
  note_error coll = elim (kv.db_get (codes "s:") coll.db) [
    | KvResult.ok v ↦ coll
    | KvResult.failed e t ↦ record coll { last_error = t }
  ]

  -- `find`, `findOne`, `count` and `getModified`, of the collection or of a snapshot
  unfoldable pub search : Request → OpenCollection kv → Outcome × OpenCollection kv
  search r coll =
      if snapshot_name r == current
      then (search_in r coll coll.last_error, coll)
      else elim (get_snapshot kv setup host.unset (snapshot_name r) coll) [
        | none ↦ (null_pointer, coll)
        | some coll1 ↦ (search_in r coll1 (note_error coll).last_error, note_error coll)
      ]

  -- `writeTransaction`, and the transaction's last error if it fails
  unfoldable pub write : Transaction kv → OpenCollection kv → Option Text × OpenCollection kv
  write tx coll =
      let (r, coll') = commit kv setup tx coll in
      let (r', tx', db', observers') =
        write_transaction kv (context kv setup coll) tx coll.observers in
      elim r [ ok u ↦ (none, coll') | err e ↦ (some tx'.last_error, coll') ]

  unfoldable pub index_collection : Request → OpenCollection kv → Outcome × OpenCollection kv
  index_collection r coll = elim (new_transaction kv setup coll) [
    | none ↦ (null_pointer, coll)
    | some tx ↦
        let (result, tx') = create_index kv (context kv setup coll) r.field_name r.index_name tx in
        elim result [
          | err e ↦ (failure tx'.last_error, coll)
          | ok u ↦
              let (error, coll') = write tx' coll in
              (elim error [ none ↦ success | some t ↦ failure t ], coll')
        ]
  ]

  -- `insert`, `remove`, `removeId` and `set` in a transaction
  unfoldable pub alter :
      Context kv → Request → Transaction kv → (Option Body × Text) × Transaction kv
  alter c r tx = elim r.type [
    | type_insert ↦
        let (result, tx') = insert kv c r.document r.overwrite (ignores_read_only r) tx in
        elim result [
          | ok id ↦ ((some (insert_reply id), []), tx')
          | err e ↦ ((none, tx'.last_error), tx')
        ]
    | type_remove ↦
        let (result, tx') = remove kv c r.query tx in
        elim result [ ok u ↦ ((none, []), tx') | err e ↦ ((none, tx'.last_error), tx') ]
    | type_remove_id ↦
        let (result, tx') = remove_by_id kv c r.document_id (ignores_read_only r) tx in
        elim result [ ok u ↦ ((none, []), tx') | err e ↦ ((none, tx'.last_error), tx') ]
    | type_set ↦
        let (result, tx') = set kv c r.query r.documents tx in
        elim result [ ok u ↦ ((none, []), tx') | err e ↦ ((none, tx'.last_error), tx') ]
    | _ ↦ ((none, []), tx)
  ]

  -- The same in a transaction of its own, which is written also if the operation fails.
  unfoldable pub alter_alone : Request → OpenCollection kv → Outcome × OpenCollection kv
  alter_alone r coll = elim (new_transaction kv setup coll) [
    | none ↦ (null_pointer, coll)
    | some tx ↦
        let ((body, text), tx') = alter (context kv setup coll) r tx in
        let (error, coll') = write tx' coll in
        (elim error [ none ↦ done body text | some t ↦ done body t ], coll')
  ]

  unfoldable pub list_snapshots : OpenCollection kv → Outcome × OpenCollection kv
  list_snapshots coll = elim (get_snapshots_value kv qt (source_of kv setup coll)) [
    | err e ↦ (failure (note_error coll).last_error, note_error coll)
    | ok names ↦ (reply_with (get_snapshot_list_reply (remove_all current names)), coll)
  ]

  unfoldable pub answer_result : Result (Unit {0}) × OpenCollection kv → Outcome × OpenCollection kv
  answer_result (ok u, coll) = (success, coll)
  answer_result (err e, coll) = (failure coll.last_error, coll)

  -- `newSnapshot`, `revertToSnapshot` and `removeSnapshot`
  unfoldable pub change_snapshots : Request → OpenCollection kv → Outcome × OpenCollection kv
  change_snapshots r coll =
      let name = snapshot_name r in
      if name == current
      then (failure (codes "Invalid snapshot name: " ++ name), coll)
      else elim r.type [
        | type_new_snapshot ↦ answer_result (new_snapshot kv setup name (note_error coll))
        | type_revert_to_snapshot ↦
            answer_result (revert_to_snapshot kv setup name (note_error coll))
        | _ ↦ answer_result (remove_snapshot kv setup name (note_error coll))
      ]
