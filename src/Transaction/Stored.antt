-- ===== src/Transaction/Stored.antt =====
-- What an insert writes of a document, once its id is known.
use qdocdb.Prelude.{
  ◌≡◌, refl, inl, inr, Bool, true, not, ◌&&◌, ◌||◌, some, List, [], ◌∷◌, Text, Bytes, codes, ◌==◌,
  ==_iff, starts_with, if◌then◌else◌, arith, Bool-cases,
}
use qdocdb.Json.{Json, Fields, end, field, object, string, value, has_key, insert_field}
use qdocdb.Qt.{QtLaws}
use qdocdb.Serialize.{marshal}
use qdocdb.Utils.{get_json_value_by_path}
use qdocdb.Kv.Interface.{KvInterface, KvLaws}
use qdocdb.Collection.{ok, document_start_key, document_link_key}
use qdocdb.Find.{get_indexes}
use qdocdb.IdGen.{IdGen, get_uuid, is_uuid_path_valid}
use qdocdb.Transaction.{
  Transaction, Context, Exec, pure, ◌>>◌, add_index_value, put_json_value, source,
}
use qdocdb.Transaction.Reads.{holds, put_json_value-holds}
use qdocdb.Transaction.Links.{add_index_value-links, add_index_value-frame}
use qdocdb.Transaction.Insert.{add_uuid, add_to_indexes, observe_insert, notify, store_document}

pub value-insert_field :
    (k j : Text) (v : Json) (fs : Fields)
    → value (insert_field k v fs) j ≡ (if k == j then v else value fs j)
unfolding value insert_field
value-insert_field k j v end = refl
value-insert_field k j v (field i w fs) =
    ground (arith, ==_iff k j, ==_iff i k, ==_iff i j, value-insert_field k j v fs)

pub link_key-starts :
    (id : Bytes) (s : Prim.Native.Nat.ℕ) → starts_with (codes "d:") (document_link_key id s) ≡ true
unfolding document_link_key document_start_key starts_with
link_key-starts id s = refl

pub start_key-starts : (id : Bytes) → starts_with (codes "d:") (document_start_key id) ≡ true
unfolding document_start_key starts_with
start_key-starts id = refl

-- The members of a document, but for those of two keys.
abbrev pub Kept : Text → Text → Fields → Fields → Type 0
Kept a b before after =
    (k : Text) → value after k ≡ (if a == k || b == k then value after k else value before k)

module _ (kv : KvInterface) (laws : KvLaws kv) (c : Context kv) (qt_laws : QtLaws c.qt) where
  add_to_indexes-frame :
      (indexes : List (Text × Text)) (doc : Fields) (id : Bytes) (s : Transaction kv) (j : Bytes)
      → starts_with (codes "d:") j ≡ true
      → ((add_to_indexes kv c indexes doc id s).0 ≡ ok tt)
        × (holds kv c (add_to_indexes kv c indexes doc id s).1 j ≡ holds kv c s j)
  unfolding add_to_indexes
  add_to_indexes-frame [] doc id s j h = (refl, refl)
  add_to_indexes-frame ((f, n) ∷ indexes) doc id s j h =
      let v = get_json_value_by_path c.qt (object doc) f in
      ground (
        arith,
        add_index_value-links kv laws c qt_laws n v id s,
        add_index_value-frame kv laws c qt_laws n v id s j h,
        add_to_indexes-frame indexes doc id (add_index_value kv c n v id s).1 j h,
      )

  -- A new document may be given a UUID, and nothing else of it changes.
  pub add_uuid-eq :
      (exists : Bool) (doc0 : Fields) (s : Transaction kv)
      → (doc : Fields) × (g : IdGen) × (add_uuid kv c exists doc0 s
          ≡ (ok doc, record s { id_gen = g }))
        × Kept (codes "_id") c.config.uuid_path doc0 doc
  unfolding add_uuid
  add_uuid-eq exists doc0 s =
      elim (Bool-cases
        (not exists && (is_uuid_path_valid c.config && not (has_key doc0 c.config.uuid_path)))) [
          | inl e ↦ (
            insert_field c.config.uuid_path
                (string (c.qt.from_latin1 (get_uuid c.system s.id_gen).0)) doc0,
            (get_uuid c.system s.id_gen).1,
            rw e,
            λ k. ground (
              arith,
              value-insert_field c.config.uuid_path k
                  (string (c.qt.from_latin1 (get_uuid c.system s.id_gen).0)) doc0,
            ),
          )
          | inr e ↦ (doc0, s.id_gen, rw e, λ k. ground arith)
        ]

  -- The steps that follow: the document, its index values, the observers.
  write_document : Bool → Bytes → Fields → Exec kv Bytes
  write_document exists id doc = do
    put_json_value kv c id (object doc)
    (λ s. add_to_indexes kv c (get_indexes kv c.qt (source kv c s)) doc id s)
    notify kv c (observe_insert kv c exists doc)
    pure id

  write_document-holds :
      (exists : Bool) (id : Bytes) (doc : Fields) (s : Transaction kv)
      → ((write_document exists id doc s).0 ≡ ok id)
        × (holds kv c (write_document exists id doc s).1 (document_link_key id c.snapshot_id)
            ≡ some (marshal c.qt (object doc)))
  unfolding write_document notify
  write_document-holds exists id doc s =
      let s1 = (put_json_value kv c id (object doc) s).1 in
      let link = document_link_key id c.snapshot_id in
      ground (
        arith,
        put_json_value-holds kv laws c id (object doc) s link,
        add_to_indexes-frame (get_indexes kv c.qt (source kv c s1)) doc id s1 link
            (link_key-starts id c.snapshot_id),
        ==_iff link link,
      )

  -- A document that is written, after an id has been chosen.
  pub store_document-holds :
      (exists : Bool) (id : Bytes) (doc0 : Fields) (s : Transaction kv)
      → ((store_document kv c exists id doc0 s).0 ≡ ok id)
        × ((doc : Fields) × (holds kv c
                (store_document kv c exists id doc0 s).1
                (document_link_key id c.snapshot_id)
              ≡ some (marshal c.qt (object doc)))
            × Kept (codes "_id") c.config.uuid_path doc0 doc)
  unfolding store_document write_document
  store_document-holds exists id doc0 s =
      let (doc, g, e, kept) = add_uuid-eq exists doc0 s in
      let w = write_document-holds exists id doc (record s { id_gen = g }) in
      (rw e w.0, (doc, rw e w.1, kept))
