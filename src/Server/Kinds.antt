-- ===== src/Server/Kinds.antt =====
-- The calls of a collection that is no snapshot: none uses a null pointer, and the collection stays
-- one that has transactions.
use qdocdb.Prelude.{ℕ, ◌≡◌, refl, ◌≢◌, Bool, Option, some, Text, arith}
use qdocdb.Json.{Fields}
use qdocdb.IdGen.{IdGen}
use qdocdb.Kv.Interface.{KvInterface}
use qdocdb.Transaction.{Transaction}
use qdocdb.OpenCollection.{
  OpenCollection, commit, new_transaction, observe, unobserve, add_observer, emit_observers,
  reload_observers, open_collection,
}
use qdocdb.OpenCollection.Snapshots.{new_snapshot, revert_to_snapshot, get_snapshot}
use qdocdb.OpenCollection.Snapshots.Shift.{remove_snapshot}
use qdocdb.Server.{Request, Host}
use qdocdb.Server.Operations.{
  Outcome, null_pointer, snapshot_name, note_error, search_in, search, write, index_collection,
  alter_alone, list_snapshots, change_snapshots, answer_result,
}
use qdocdb.Server.Receive.{write_in, open_at}
use qdocdb.Server.Tables.{IsOpen}

module _ {kv : KvInterface} where
  -- What a call of an open collection leaves.
  abbrev pub Fine : Outcome × OpenCollection kv → Type 0
  Fine (o, coll) = (o ≢ null_pointer) × IsOpen coll

module _ (kv : KvInterface) (host : Host kv) where
  open host use {setup}

  commit-IsOpen :
      (tx : Transaction kv) (coll : OpenCollection kv)
      → IsOpen coll
      → IsOpen (commit kv setup tx coll).1
  unfolding commit emit_observers
  commit-IsOpen tx coll h = ground arith

  pub open_at-IsOpen :
      (g : IdGen) (dir : Text) (in_memory : Bool) (coll : OpenCollection kv)
      → open_at kv host g dir in_memory ≡ some coll
      → IsOpen coll
  unfolding open_at open_collection commit emit_observers
  open_at-IsOpen g dir in_memory coll e = ground arith

  new_snapshot-IsOpen :
      (name : Text) (coll : OpenCollection kv)
      → IsOpen coll
      → IsOpen (new_snapshot kv setup name coll).1
  unfolding new_snapshot commit emit_observers
  new_snapshot-IsOpen name coll h = ground arith

  revert_to_snapshot-IsOpen :
      (name : Text) (coll : OpenCollection kv)
      → IsOpen coll
      → IsOpen (revert_to_snapshot kv setup name coll).1
  unfolding revert_to_snapshot reload_observers emit_observers commit
  revert_to_snapshot-IsOpen name coll h = ground arith

  remove_snapshot-IsOpen :
      (name : Text) (coll : OpenCollection kv)
      → IsOpen coll
      → IsOpen (remove_snapshot kv setup name coll).1
  unfolding remove_snapshot reload_observers emit_observers commit
  remove_snapshot-IsOpen name coll h = ground arith

  note_error-IsOpen : (coll : OpenCollection kv) → IsOpen coll → IsOpen (note_error kv host coll)
  unfolding note_error
  note_error-IsOpen coll h = ground arith

  pub observe-IsOpen :
      (q o : Fields) (prefered : Option ℕ) (coll : OpenCollection kv)
      → IsOpen coll
      → IsOpen (observe kv setup q o prefered coll).1
  unfolding observe add_observer
  observe-IsOpen q o prefered coll h = ground arith

  pub unobserve-IsOpen :
      (id : ℕ) (coll : OpenCollection kv) → IsOpen coll → IsOpen (unobserve kv setup id coll)
  unfolding unobserve
  unobserve-IsOpen id coll h = h

  search_in-ne :
      (r : Request) (coll : OpenCollection kv) (t : Text)
      → search_in kv host r coll t ≢ null_pointer
  unfolding search_in
  search_in-ne r coll t = ground arith

  get_snapshot-some :
      (name : Text) (coll : OpenCollection kv)
      → IsOpen coll
      → (coll1 : OpenCollection kv) × (get_snapshot kv setup host.unset name coll ≡ some coll1)
  unfolding get_snapshot
  get_snapshot-some name coll h = rw h (_, refl)

  pub search-Fine :
      (r : Request) (coll : OpenCollection kv) → IsOpen coll → Fine (search kv host r coll)
  unfolding search
  search-Fine r coll h =
      let (coll1, e) = get_snapshot-some (snapshot_name r) coll h in
      ground (
        arith,
        e,
        note_error-IsOpen coll h,
        search_in-ne r coll coll.last_error,
        search_in-ne r coll1 (note_error kv host coll).last_error,
      )

  write-IsOpen :
      (tx : Transaction kv) (coll : OpenCollection kv)
      → IsOpen coll
      → IsOpen (write kv host tx coll).1
  unfolding write
  write-IsOpen tx coll h = ground (arith, commit-IsOpen tx coll h)

  pub write_in-Fine :
      (tx : Transaction kv) (coll : OpenCollection kv)
      → IsOpen coll
      → Fine (write_in kv host tx coll)
  unfolding write_in
  write_in-Fine tx coll h = ground (arith, write-IsOpen (record tx { id_gen = coll.id_gen }) coll h)

  pub index_collection-Fine :
      (r : Request) (coll : OpenCollection kv)
      → IsOpen coll
      → Fine (index_collection kv host r coll)
  unfolding index_collection new_transaction write commit emit_observers
  index_collection-Fine r coll h = ground arith

  pub alter_alone-Fine :
      (r : Request) (coll : OpenCollection kv) → IsOpen coll → Fine (alter_alone kv host r coll)
  unfolding alter_alone new_transaction write commit emit_observers
  alter_alone-Fine r coll h = ground arith

  pub list_snapshots-Fine :
      (coll : OpenCollection kv) → IsOpen coll → Fine (list_snapshots kv host coll)
  unfolding list_snapshots
  list_snapshots-Fine coll h = ground (arith, note_error-IsOpen coll h)

  pub change_snapshots-Fine :
      (r : Request) (coll : OpenCollection kv)
      → IsOpen coll
      → Fine (change_snapshots kv host r coll)
  unfolding change_snapshots answer_result
  change_snapshots-Fine r coll h =
      let noted = note_error-IsOpen coll h in
      let name = snapshot_name r in
      ground (
        arith,
        new_snapshot-IsOpen name (note_error kv host coll) noted,
        revert_to_snapshot-IsOpen name (note_error kv host coll) noted,
        remove_snapshot-IsOpen name (note_error kv host coll) noted,
      )
