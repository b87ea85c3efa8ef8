-- ===== src/Transaction/Links.antt =====
-- The index values: what addIndexValue and removeIndexValue make of the list of links of a value,
-- and that they leave the keys of documents alone.
use qdocdb.Prelude.{
  ◌≡◌, refl, ap, true, false, Option, none, some, List, [], ◌∷◌, ◌++◌, Text, Bytes, codes, ◌==◌,
  ==_iff, contains, remove_all, starts_with, if◌then◌else◌, arith, Option-cases, inl, inr,
}
use qdocdb.Json.{Json}
use qdocdb.Qt.{Qt, QtLaws}
use qdocdb.Serialize.{marshal_index_value, unmarshal_index_value}
use qdocdb.Serialize.RoundTrip.{unmarshal-marshal_lists}
use qdocdb.Kv.{found}
use qdocdb.Kv.Interface.{KvInterface, KvLaws}
use qdocdb.Collection.{
  ok, err, error_database, document_link_key, index_value_key, index_value_key_of,
  index_value_start_key,
}
use qdocdb.Transaction.{
  Transaction, Context, links_of, add_index_value, remove_index_value, put_value, delete_value,
}
use qdocdb.Transaction.Reads.{
  holds, put_value-eq, delete_value-eq, holds-put_value, holds-delete_value,
}

-- The list of links that a value of the store stands for.
abbrev pub links_in : Qt → Option Bytes → List Bytes
links_in qt none = unmarshal_index_value qt []
links_in qt (some b) = unmarshal_index_value qt b

-- Keys of documents are no keys of index values.
pub index_value_key-other :
    (qt : Qt) (laws : QtLaws qt) (index_name : Text) (s : Prim.Native.Nat.ℕ) (v : Json) (j : Bytes)
    → starts_with (codes "d:") j ≡ true
    → index_value_key qt index_name s v == j ≡ false
unfolding index_value_key index_value_key_of index_value_start_key starts_with ◌==◌
index_value_key-other qt laws index_name s v [] h = cc
index_value_key-other qt laws index_name s v (x ∷ j) h =
    rw (laws.local8bit_ascii (index_name ++ b':' ∷ [])) (ground arith)

remove_all_absent : (k : Bytes) (l : List Bytes) → contains k l ≡ false → remove_all k l ≡ l
unfolding contains remove_all
remove_all_absent k [] h = refl
remove_all_absent k (x ∷ l) h = ground (arith, remove_all_absent k l)

links_in-none : (qt : Qt) → links_in qt none ≡ []
unfolding unmarshal_index_value
links_in-none qt = refl

module _ (kv : KvInterface) (laws : KvLaws kv) (c : Context kv) where
  pub links_of-holds :
      (k : Bytes) (s : Transaction kv) → links_of kv c k s ≡ links_in c.qt (holds kv c s k)
  unfolding links_of found
  links_of-holds k s = ground arith

  -- The two ways that `addIndexValue` may go.
  pub add_index_value-cases :
      (index_name : Text) (v : Json) (id : Bytes) (s : Transaction kv)
      → let k = index_value_key c.qt index_name c.snapshot_id v in
        let link = document_link_key id c.snapshot_id in
        let links = links_in c.qt (holds kv c s k) in
        add_index_value kv c index_name v id s ≡ (
          if contains link links
          then (ok tt, s)
          else (ok tt, (put_value kv c k (marshal_index_value c.qt (links ++ link ∷ [])) s).1))
  unfolding add_index_value
  add_index_value-cases index_name v id s = ground (
    arith,
    links_of-holds (index_value_key c.qt index_name c.snapshot_id v) s,
    put_value-eq kv laws c (index_value_key c.qt index_name c.snapshot_id v)
        (marshal_index_value c.qt (
          links_of kv c (index_value_key c.qt index_name c.snapshot_id v) s
          ++ document_link_key id c.snapshot_id ∷ []))
        s,
  )

  -- `addIndexValue` succeeds, and then the links of the value are those that it had, and the link to
  -- the document at the end if it was not among them.
  pub add_index_value-links :
      (qt_laws : QtLaws c.qt) (index_name : Text) (v : Json) (id : Bytes) (s : Transaction kv)
      → let k = index_value_key c.qt index_name c.snapshot_id v in
        let link = document_link_key id c.snapshot_id in
        let links = links_of kv c k s in
        ((add_index_value kv c index_name v id s).0 ≡ ok tt)
        × (links_of kv c k (add_index_value kv c index_name v id s).1
            ≡ (if contains link links then links else links ++ link ∷ []))
  add_index_value-links qt_laws index_name v id s =
      let k = index_value_key c.qt index_name c.snapshot_id v in
      let b =
        marshal_index_value c.qt
          (links_in c.qt (holds kv c s k) ++ document_link_key id c.snapshot_id ∷ []) in
      ground (
        arith,
        add_index_value-cases index_name v id s,
        links_of-holds k s,
        links_of-holds k (put_value kv c k b s).1,
        holds-put_value kv laws c k b k s,
        ==_iff k k,
        (unmarshal-marshal_lists c.qt qt_laws []
            (links_in c.qt (holds kv c s k) ++ document_link_key id c.snapshot_id ∷ []) [] []).1,
      )

  -- It leaves what the transaction finds at the keys of documents.
  pub add_index_value-frame :
      (qt_laws : QtLaws c.qt) (index_name : Text) (v : Json) (id : Bytes) (s : Transaction kv)
      (j : Bytes)
      → starts_with (codes "d:") j ≡ true
      → holds kv c (add_index_value kv c index_name v id s).1 j ≡ holds kv c s j
  add_index_value-frame qt_laws index_name v id s j h = ground (
    arith,
    add_index_value-cases index_name v id s,
    index_value_key-other c.qt qt_laws index_name c.snapshot_id v j h,
    holds-put_value kv laws c (index_value_key c.qt index_name c.snapshot_id v)
        (marshal_index_value c.qt (
          links_in c.qt (holds kv c s (index_value_key c.qt index_name c.snapshot_id v))
          ++ document_link_key id c.snapshot_id ∷ []))
        j s,
  )

  -- The list of links of a value, written back: a value with no links goes.
  write_links : Bytes → List Bytes → Transaction kv → Transaction kv
  write_links k [] s = (delete_value kv c k s).1
  write_links k (l ∷ ls) s = (put_value kv c k (marshal_index_value c.qt (l ∷ ls)) s).1

  write_links-eq :
      (k : Bytes) (l : List Bytes) (s : Transaction kv)
      → (elim l [
        | [] ↦ delete_value kv c k s
        | x ∷ xs ↦ put_value kv c k (marshal_index_value c.qt (x ∷ xs)) s
      ])
        ≡ (ok tt, write_links k l s)
  unfolding write_links
  write_links-eq k [] s = ground (arith, delete_value-eq kv laws c k s)
  write_links-eq k (x ∷ xs) s =
      ground (arith, put_value-eq kv laws c k (marshal_index_value c.qt (x ∷ xs)) s)

  write_links-other :
      (k : Bytes) (l : List Bytes) (s : Transaction kv) (j : Bytes)
      → k == j ≡ false
      → holds kv c (write_links k l s) j ≡ holds kv c s j
  unfolding write_links
  write_links-other k [] s j h = ground (arith, holds-delete_value kv laws c k j s)
  write_links-other k (x ∷ xs) s j h =
      ground (arith, holds-put_value kv laws c k (marshal_index_value c.qt (x ∷ xs)) j s)

  write_links-links :
      (qt_laws : QtLaws c.qt) (k : Bytes) (l : List Bytes) (s : Transaction kv)
      → links_in c.qt (holds kv c (write_links k l s) k) ≡ l
  unfolding write_links
  write_links-links qt_laws k [] s =
      ground (arith, holds-delete_value kv laws c k k s, ==_iff k k, links_in-none c.qt)
  write_links-links qt_laws k (x ∷ xs) s = ground (
    arith,
    holds-put_value kv laws c k (marshal_index_value c.qt (x ∷ xs)) k s,
    ==_iff k k,
    (unmarshal-marshal_lists c.qt qt_laws [] (x ∷ xs) [] []).1,
  )

  -- The ways that `removeIndexValue` may go, by what the store holds of the value.
  remove_index_value-cases :
      (index_name : Text) (v : Json) (link : Bytes) (s : Transaction kv)
      → let k = index_value_key c.qt index_name c.snapshot_id v in
        let r = remove_index_value kv c index_name v link s in
        (holds kv c s k ≡ none → (r.0 ≡ err error_database) × (r.1.tx ≡ s.tx))
        × ((b : Bytes)
            → holds kv c s k ≡ some b
            → r ≡ (
                if contains link (unmarshal_index_value c.qt b)
                then (ok tt, write_links k (remove_all link (unmarshal_index_value c.qt b)) s)
                else (ok tt, s)))
  unfolding remove_index_value found
  remove_index_value-cases index_name v link s =
      let k = index_value_key c.qt index_name c.snapshot_id v in
      (
        ground arith,
        λ b h. ground (arith, write_links-eq k (remove_all link (unmarshal_index_value c.qt b)) s),
      )

  -- `removeIndexValue` fails with errorDatabase if the value is not in the store, and succeeds
  -- otherwise; the links of the value are then those that it had, without any occurrence of the link.
  pub remove_index_value-links :
      (qt_laws : QtLaws c.qt) (index_name : Text) (v : Json) (link : Bytes) (s : Transaction kv)
      → let k = index_value_key c.qt index_name c.snapshot_id v in
        let r = remove_index_value kv c index_name v link s in
        (r.0 ≡ elim (holds kv c s k) [ none ↦ err error_database | some b ↦ ok tt ])
        × (links_of kv c k r.1 ≡ remove_all link (links_of kv c k s))
  unfolding remove_all
  remove_index_value-links qt_laws index_name v link s =
      let k = index_value_key c.qt index_name c.snapshot_id v in
      let cases = remove_index_value-cases index_name v link s in
      let before = links_of-holds k s in
      let after = links_of-holds k (remove_index_value kv c index_name v link s).1 in
      elim (Option-cases (holds kv c s k)) [
        | inl e ↦ ground (
          arith,
          cases.0 e,
          ap (λ tx. found (kv.get_value k tx c.db)) (cases.0 e).1,
          before,
          after,
          links_in-none c.qt,
        )
        | inr (b, e) ↦ ground (
          arith,
          cases.1 b e,
          remove_all_absent link (unmarshal_index_value c.qt b),
          before,
          after,
          write_links-links qt_laws k (remove_all link (unmarshal_index_value c.qt b)) s,
        )
      ]

  -- It leaves what the transaction finds at the keys of documents, also where it fails.
  pub remove_index_value-frame :
      (qt_laws : QtLaws c.qt) (index_name : Text) (v : Json) (link : Bytes) (s : Transaction kv)
      (j : Bytes)
      → starts_with (codes "d:") j ≡ true
      → holds kv c (remove_index_value kv c index_name v link s).1 j ≡ holds kv c s j
  remove_index_value-frame qt_laws index_name v link s j h =
      let k = index_value_key c.qt index_name c.snapshot_id v in
      let cases = remove_index_value-cases index_name v link s in
      elim (Option-cases (holds kv c s k)) [
        | inl e ↦ ap (λ tx. found (kv.get_value j tx c.db)) (cases.0 e).1
        | inr (b, e) ↦ ground (
          arith,
          cases.1 b e,
          index_value_key-other c.qt qt_laws index_name c.snapshot_id v j h,
          write_links-other k (remove_all link (unmarshal_index_value c.qt b)) s j,
        )
      ]
