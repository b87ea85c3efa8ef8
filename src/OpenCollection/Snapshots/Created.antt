-- ===== src/OpenCollection/Snapshots/Created.antt =====
-- QDocCollection::newSnapshot, down to the store.
use qdocdb.Prelude.{
  ℕ, ◌+◌, ◌%◌, ◌≡◌, refl, ap, ◌∙◌, true, false, some, none, List, [], ◌∷◌, ◌++◌, Text, Bytes, codes,
  ◌==◌, ==_iff, starts_with, starts_with_append, drop, length, arith, Bool-cases, inl, inr,
}
use qdocdb.Qt.{QtLaws}
use qdocdb.Serialize.{marshal_snapshots_value}
use qdocdb.Serialize.RoundTrip.{unmarshal-marshal_lists}
use qdocdb.Kv.{Entry, KvResult, found}
use qdocdb.Kv.Interface.{KvInterface, KvLaws, CommitLaws}
use qdocdb.Collection.{Result, ok, index_value_start_key}
use qdocdb.Find.{Source, get_indexes, get_snapshots_value, get_snapshot_id, index_of}
use qdocdb.Transaction.{
  Transaction, Context, Exec, ◌>>◌, source, put_value, put_snapshots_value, copy_entries,
  copy_indexes, copy_index_values,
}
use qdocdb.Transaction.Reads.{holds, put_value-eq}
use qdocdb.Transaction.Remove.{write_transaction}
use qdocdb.OpenCollection.{
  OpenCollection, Setup, type_collection, source_of, context, start, commit, emit_observers,
}
use qdocdb.OpenCollection.Snapshots.{new_snapshot}
use qdocdb.OpenCollection.Snapshots.Names.{added, index_of-added}
use qdocdb.OpenCollection.Snapshots.Keys.{start_key-other, document-other, not_snapshots}

append-other : (p k j : Bytes) → starts_with p j ≡ false → (p ++ k) == j ≡ false
append-other p k j h = ground (arith, ==_iff (p ++ k) j, starts_with_append p k)

module _ (kv : KvInterface) (c : Context kv) where
  -- What newSnapshot writes: the list, then the values of the indexes.
  abbrev pub noted : List Text → ℕ → ℕ → Exec kv (Unit {0})
  noted snapshots dst src = do put_snapshots_value kv c snapshots; copy_index_values kv c dst src

module _ (kv : KvInterface) (laws : KvLaws kv) (cl : CommitLaws kv) (c : Context kv) where
  -- A step that succeeds, leaves a key as it was, and keeps the commit reliable.
  abbrev Spares : Bytes → Transaction kv → Result (Unit {0}) × Transaction kv → Type 0
  Spares j s r =
      (r.0 ≡ ok tt)
      × (holds kv c r.1 j ≡ holds kv c s j)
      × (cl.Consistent s.tx → cl.Consistent r.1.tx)

  then-Spares :
      (j : Bytes) (s : Transaction kv) (m n : Exec kv (Unit {0}))
      → Spares j s (m s)
      → Spares j (m s).1 (n (m s).1)
      → Spares j s ((m >> n) s)
  then-Spares j s m n (o, a, f) (p, b, g) = rw o (p, b ∙ a, λ h. g (f h))

  put_value-Spares :
      (k v j : Bytes) (s : Transaction kv) → k == j ≡ false → Spares j s (put_value kv c k v s)
  put_value-Spares k v j s h =
      rw (put_value-eq kv laws c k v s)
        (refl, laws.get-put k v j s.tx c.db ∙ rw h refl, cl.put-Consistent k v s.tx)

  copy_entries-Spares :
      (src dst : Bytes) (es : List Entry) (j : Bytes) (s : Transaction kv)
      → starts_with dst j ≡ false
      → Spares j s (copy_entries kv c src dst es s)
  unfolding copy_entries
  copy_entries-Spares src dst [] j s h = (refl, refl, λ x. x)
  copy_entries-Spares src dst ((k, v) ∷ es) j s h = elim (Bool-cases (starts_with src k)) [
    | inl e ↦
        let m : Exec kv (Unit {0}) = put_value kv c (dst ++ drop (length src) k) v in
        rw e (
          then-Spares j s m (copy_entries kv c src dst es)
            (put_value-Spares (dst ++ drop (length src) k) v j s (append-other dst _ j h))
            (copy_entries-Spares src dst es j (m s).1 h))
    | inr e ↦ rw e (refl, refl, λ x. x)
  ]

  copy_indexes-Spares :
      (qt_laws : QtLaws c.qt) (dst src : ℕ) (indexes : List (Text × Text)) (j : Bytes)
      (s : Transaction kv)
      → starts_with (codes "iv:") j ≡ false
      → Spares j s (copy_indexes kv c dst src indexes s)
  unfolding copy_indexes
  copy_indexes-Spares qt_laws dst src [] j s h = (refl, refl, λ x. x)
  copy_indexes-Spares qt_laws dst src ((f, n) ∷ indexes) j s h =
      let src_key = index_value_start_key c.qt n src in
      let dst_key = index_value_start_key c.qt n dst in
      let m : Exec kv (Unit {0}) = copy_entries kv c src_key dst_key (kv.seek src_key c.db) in
      then-Spares j s m (copy_indexes kv c dst src indexes)
        (copy_entries-Spares src_key dst_key (kv.seek src_key c.db) j s
          (start_key-other c.qt qt_laws n dst j h))
        (copy_indexes-Spares qt_laws dst src indexes j (m s).1 h)

  noted-holds :
      (qt_laws : QtLaws c.qt) (snapshots : List Text) (dst src : ℕ) (s : Transaction kv)
      → ((noted kv c snapshots dst src s).0 ≡ ok tt)
        × (holds kv c (noted kv c snapshots dst src s).1 (codes "s:")
            ≡ some (marshal_snapshots_value c.qt snapshots))
        × ((j : Bytes)
            → starts_with (codes "d:") j ≡ true
            → holds kv c (noted kv c snapshots dst src s).1 j ≡ holds kv c s j)
        × (cl.Consistent s.tx → cl.Consistent (noted kv c snapshots dst src s).1.tx)
  unfolding put_snapshots_value copy_index_values
  noted-holds qt_laws snapshots dst src s =
      let data_bytes = marshal_snapshots_value c.qt snapshots in
      let s1 : Transaction kv = record s { tx = (kv.put_value (codes "s:") data_bytes s.tx).1 } in
      let copied = λ (j : Bytes).
        copy_indexes-Spares qt_laws dst src (get_indexes kv c.qt (source kv c s1)) j s1 in
      let (o, listed, f) = copied (codes "s:") (unfold starts_with in refl) in
      let put = λ (j : Bytes). laws.get-put (codes "s:") data_bytes j s.tx c.db in
      rw (put_value-eq kv laws c (codes "s:") data_bytes s) (
        o,
        listed ∙ (put (codes "s:") ∙ unfold ◌==◌ in refl),
        λ j h. (copied j (document-other j h)).1 ∙ (put j ∙ rw (not_snapshots j h) refl),
        λ h. f (cl.put-Consistent (codes "s:") data_bytes s.tx h),
      )

module _ (kv : KvInterface) (setup : Setup) where
  open setup use {qt}

  -- The transaction of newSnapshot, before its commit.
  abbrev pub noted_in : Text → List Text → OpenCollection kv → Transaction kv
  noted_in name snapshots coll =
      (noted kv (context kv setup coll) (added name snapshots) ((coll.snapshot_id + 1) % 256)
        coll.snapshot_id (start kv setup coll)).1

  new_snapshot-eq :
      (name t : Text) (l : List Text) (coll : OpenCollection kv)
      → coll.class_type ≡ type_collection
      → get_snapshots_value kv qt (source_of kv setup coll) ≡ ok (t ∷ l)
      → index_of name (t ∷ l) ≡ none
      → (noted kv
          (context kv setup coll)
          (added name (t ∷ l))
          ((coll.snapshot_id + 1) % 256)
          coll.snapshot_id
          (start kv setup coll)).0
        ≡ ok tt
      → (kv.write_transaction (noted_in name (t ∷ l) coll).tx coll.db).0 ≡ KvResult.ok tt
      → ((new_snapshot kv setup name coll).0 ≡ ok tt)
        × ((new_snapshot kv setup name coll).1.db
            ≡ (kv.write_transaction (noted_in name (t ∷ l) coll).tx coll.db).1)
        × ((new_snapshot kv setup name coll).1.snapshot_id ≡ (coll.snapshot_id + 1) % 256)
  unfolding new_snapshot get_snapshot_id commit write_transaction emit_observers
  new_snapshot-eq name t l coll ty e n o w = ground (arith, ty, e, n, o, w)

  get_snapshots_value-read :
      (qt_laws : QtLaws qt) (src : Source kv) (snapshots : List Text)
      → found (src.read (codes "s:")) ≡ some (marshal_snapshots_value qt snapshots)
      → get_snapshots_value kv qt src ≡ ok snapshots
  unfolding get_snapshots_value found
  get_snapshots_value-read qt_laws src snapshots h =
      ground (arith, h, unmarshal-marshal_lists qt qt_laws [] [] snapshots [])

  -- Over a store whose successful commits make the database answer what the transaction answered, as
  -- LevelDB's do: newSnapshot of a collection, with a name that its list of snapshots does not have, where the
  -- commit to its store succeeds: it answers success; the list that is then read is the old one with
  -- the name in place of the last entry and "__CURRENT" after it; getSnapshotId of the name answers
  -- the index of the entry that was the last; the number of the collection's snapshot is raised, as
  -- an unsigned char; and no key of a document has been changed in the store.
  pub new_snapshot-listed :
      (laws : KvLaws kv) (cl : CommitLaws kv) (qt_laws : QtLaws qt) (name t : Text) (l : List Text)
      (coll : OpenCollection kv)
      → coll.class_type ≡ type_collection
      → get_snapshots_value kv qt (source_of kv setup coll) ≡ ok (t ∷ l)
      → index_of name (t ∷ l) ≡ none
      → (kv.write_transaction (noted_in name (t ∷ l) coll).tx coll.db).0 ≡ KvResult.ok tt
      → let r = new_snapshot kv setup name coll in
        (r.0 ≡ ok tt)
        × (get_snapshots_value kv qt (source_of kv setup r.1) ≡ ok (added name (t ∷ l)))
        × (get_snapshot_id kv qt (source_of kv setup r.1) name ≡ ok (length l % 256))
        × (r.1.snapshot_id ≡ (coll.snapshot_id + 1) % 256)
        × ((j : Bytes)
            → starts_with (codes "d:") j ≡ true
            → found (kv.db_get j r.1.db) ≡ found (kv.db_get j coll.db))
  unfolding get_snapshot_id get_snapshots_value
  new_snapshot-listed laws cl qt_laws name t l coll ty e n w =
      let c : Context kv = context kv setup coll in
      let s : Transaction kv = noted_in name (t ∷ l) coll in
      let (o, h, d, f) =
        noted-holds kv laws cl c qt_laws (added name (t ∷ l)) ((coll.snapshot_id + 1) % 256)
          coll.snapshot_id (start kv setup coll) in
      let (r, db, id) = new_snapshot-eq name t l coll ty e n o w in
      let read = λ (j : Bytes).
        ap (λ x. found (kv.db_get j x)) db
        ∙ cl.commit-reads s.tx coll.db j (f cl.new-Consistent) w in
      let listed =
        get_snapshots_value-read qt_laws (source_of kv setup (new_snapshot kv setup name coll).1)
          (added name (t ∷ l)) (read (codes "s:") ∙ h) in
      (
        r,
        listed,
        rw (listed, index_of-added name t l n) refl,
        id,
        λ j k. read j ∙ (d j k ∙ laws.get-new j coll.db),
      )
