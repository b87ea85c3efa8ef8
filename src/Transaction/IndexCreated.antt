-- ===== src/Transaction/IndexCreated.antt =====
-- QDocCollectionTransaction::createIndex: the table of indexes, and the documents that it links.
use qdocdb.Prelude.{
  Bool, ◌≡◌, refl, true, false, not, ◌&&◌, ◌||◌, none, some, List, [], ◌∷◌, ◌++◌, Text, Bytes,
  codes, ◌==◌, ==_iff, assoc, assoc_put, assoc-assoc_put, arith,
}
use qdocdb.Json.{Json, is_object}
use qdocdb.Qt.{Qt, QtLaws}
use qdocdb.Serialize.{marshal_indexes, unmarshal_indexes}
use qdocdb.Serialize.RoundTrip.{unmarshal-marshal_lists}
use qdocdb.Utils.{get_json_value_by_path}
use qdocdb.Kv.{found}
use qdocdb.Kv.Interface.{KvInterface, KvLaws}
use qdocdb.Collection.{
  ok, document_link_key, index_value_key, index_value_key_of, index_value_start_key,
}
use qdocdb.Find.{get_indexes, all_documents}
use qdocdb.Transaction.{
  Transaction, Context, source, put_value, links_of, add_index_value, index_documents, put_indexes,
  create_index,
}
use qdocdb.Transaction.Reads.{holds, put_value-eq, holds-put_value}
use qdocdb.Transaction.Links.{links_of-holds, add_index_value-links}
use qdocdb.Transaction.Indexed.{is_linked, add_index_value-linked, add_index_value-keeps}

indexes-not-value :
    (qt : Qt) (laws : QtLaws qt) (n : Text) (s : Prim.Native.Nat.ℕ) (v : Json)
    → codes "in:" == index_value_key qt n s v ≡ false
unfolding index_value_key index_value_key_of index_value_start_key ◌==◌
indexes-not-value qt laws n s v = rw (laws.local8bit_ascii (n ++ b':' ∷ [])) refl

module _ (kv : KvInterface) (c : Context kv) where
  -- The value at the path of each object of the list is linked to it.
  unfoldable pub all_linked : Text → Text → List (Json × Bytes) → Transaction kv → Bool
  all_linked f n [] s = true
  all_linked f n ((v, id) ∷ docs) s =
      (not (is_object v)
        || is_linked kv c s (index_value_key c.qt n c.snapshot_id (get_json_value_by_path c.qt v f))
            (document_link_key id c.snapshot_id))
      && all_linked f n docs s

module _ (kv : KvInterface) (laws : KvLaws kv) (c : Context kv) (qt_laws : QtLaws c.qt) where
  index_documents-keeps :
      (f n : Text) (docs : List (Json × Bytes)) (s : Transaction kv) (k link : Bytes)
      → is_linked kv c s k link ≡ true
      → is_linked kv c (index_documents kv c f n docs s).1 k link ≡ true
  unfolding index_documents
  index_documents-keeps f n [] s k link h = h
  index_documents-keeps f n ((v, id) ∷ docs) s k link h =
      let w = get_json_value_by_path c.qt v f in
      let s1 = (add_index_value kv c n w id s).1 in
      ground (
        arith,
        add_index_value-links kv laws c qt_laws n w id s,
        index_documents-keeps f n docs s k link h,
        index_documents-keeps f n docs s1 k link
            (add_index_value-keeps kv laws c qt_laws n w id s k link h),
      )

  index_documents-ok :
      (f n : Text) (docs : List (Json × Bytes)) (s : Transaction kv)
      → (index_documents kv c f n docs s).0 ≡ ok tt
  unfolding index_documents
  index_documents-ok f n [] s = refl
  index_documents-ok f n ((v, id) ∷ docs) s =
      let w = get_json_value_by_path c.qt v f in
      ground (
        arith,
        add_index_value-links kv laws c qt_laws n w id s,
        index_documents-ok f n docs s,
        index_documents-ok f n docs (add_index_value kv c n w id s).1,
      )

  index_documents-all_linked :
      (f n : Text) (docs : List (Json × Bytes)) (s : Transaction kv)
      → all_linked kv c f n docs (index_documents kv c f n docs s).1 ≡ true
  unfolding index_documents all_linked
  index_documents-all_linked f n [] s = refl
  index_documents-all_linked f n ((v, id) ∷ docs) s =
      let w = get_json_value_by_path c.qt v f in
      let s1 = (add_index_value kv c n w id s).1 in
      ground (
        arith,
        add_index_value-links kv laws c qt_laws n w id s,
        index_documents-keeps f n docs s1 (index_value_key c.qt n c.snapshot_id w)
            (document_link_key id c.snapshot_id)
            (add_index_value-linked kv laws c qt_laws n w id s),
        index_documents-all_linked f n docs s,
        index_documents-all_linked f n docs s1,
      )

  get_indexes-holds :
      (s : Transaction kv) (b : Bytes)
      → holds kv c s (codes "in:") ≡ some b
      → get_indexes kv c.qt (source kv c s) ≡ unmarshal_indexes c.qt b
  unfolding get_indexes found
  get_indexes-holds s b h = ground arith

  -- A write to another key leaves the links of a value.
  put_value-linked :
      (j b : Bytes) (s : Transaction kv) (k : Bytes)
      → j == k ≡ false
      → links_of kv c k (put_value kv c j b s).1 ≡ links_of kv c k s
  put_value-linked j b s k h = ground (
    arith,
    h,
    links_of-holds kv laws c k s,
    links_of-holds kv laws c k (put_value kv c j b s).1,
    holds-put_value kv laws c j b k s,
  )

  -- The state that `createIndex` leaves of a new index.
  indexed : Text → Text → Transaction kv → Transaction kv
  indexed f n s =
      let s1 = (put_value kv c (index_value_key_of c.qt n c.snapshot_id []) [] s).1 in
      (index_documents kv c f n (all_documents kv c.qt (source kv c s)) s1).1

  -- The write of the table leaves the links.
  put_table-all_linked :
      (f n : Text) (docs : List (Json × Bytes)) (b : Bytes) (s : Transaction kv)
      → all_linked kv c f n docs (put_value kv c (codes "in:") b s).1 ≡ all_linked kv c f n docs s
  unfolding all_linked
  put_table-all_linked f n [] b s = refl
  put_table-all_linked f n ((v, id) ∷ docs) b s =
      let w = get_json_value_by_path c.qt v f in
      let k = index_value_key c.qt n c.snapshot_id w in
      rw
        (
          put_value-linked (codes "in:") b s k (indexes-not-value c.qt qt_laws n c.snapshot_id w),
          put_table-all_linked f n docs b s,
        )
        refl

  create_index-eq :
      (f n : Text) (s : Transaction kv)
      → assoc f (get_indexes kv c.qt (source kv c s)) ≡ none
      → create_index kv c f n s ≡ (
        ok tt,
        (put_value kv c
            (codes "in:")
            (marshal_indexes c.qt (assoc_put f n (get_indexes kv c.qt (source kv c s))))
            (indexed f n s)).1,
      )
  unfolding create_index put_indexes indexed
  create_index-eq f n s h =
      let s1 = (put_value kv c (index_value_key_of c.qt n c.snapshot_id []) [] s).1 in
      let docs = all_documents kv c.qt (source kv c s) in
      ground (
        arith,
        h,
        put_value-eq kv laws c (index_value_key_of c.qt n c.snapshot_id []) [] s,
        index_documents-ok f n docs s1,
        put_value-eq kv laws c (codes "in:")
            (marshal_indexes c.qt (assoc_put f n (get_indexes kv c.qt (source kv c s))))
            (index_documents kv c f n docs s1).1,
      )

  -- If the table of indexes has none for a path, `createIndex` succeeds; the table then has the index
  -- for the path, and the value at the path of each object that the snapshot has, if it has any, is
  -- linked to it.
  pub create_index-linked :
      (f n : Text) (s : Transaction kv)
      → assoc f (get_indexes kv c.qt (source kv c s)) ≡ none
      → let s' = (create_index kv c f n s).1 in
        ((create_index kv c f n s).0 ≡ ok tt)
        × (assoc f (get_indexes kv c.qt (source kv c s')) ≡ some n)
        × (all_linked kv c f n (all_documents kv c.qt (source kv c s)) s' ≡ true)
  unfolding indexed
  create_index-linked f n s h =
      let b = marshal_indexes c.qt (assoc_put f n (get_indexes kv c.qt (source kv c s))) in
      let docs = all_documents kv c.qt (source kv c s) in
      let s1 = (put_value kv c (index_value_key_of c.qt n c.snapshot_id []) [] s).1 in
      let s2 = indexed f n s in
      let table : get_indexes kv c.qt (source kv c (put_value kv c (codes "in:") b s2).1)
          ≡ unmarshal_indexes c.qt b =
        get_indexes-holds (put_value kv c (codes "in:") b s2).1 b (
          ground (
            arith,
            holds-put_value kv laws c (codes "in:") b (codes "in:") s2,
            ==_iff (codes "in:") (codes "in:"),
          )) in
      let entry : assoc f (unmarshal_indexes c.qt b) ≡ some n = ground (
        arith,
        (unmarshal-marshal_lists c.qt qt_laws (assoc_put f n (get_indexes kv c.qt (source kv c s)))
            [] [] f).0,
        assoc-assoc_put f f n (get_indexes kv c.qt (source kv c s)),
        ==_iff f f,
      ) in
      rw (create_index-eq f n s h, table, put_table-all_linked f n docs b s2)
        (refl, entry, index_documents-all_linked f n docs s1)
