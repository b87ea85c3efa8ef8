-- ===== src/Transaction/Indexed.antt =====
-- The indexes: what an insert adds to them is there afterwards.
use qdocdb.Prelude.{
  ◌≡◌, refl, Bool, true, ◌||◌, List, [], ◌∷◌, ◌++◌, Text, Bytes, ==_iff, contains, arith,
}
use qdocdb.Json.{Json, Fields, object}
use qdocdb.Qt.{QtLaws}
use qdocdb.Serialize.{marshal_index_value}
use qdocdb.Serialize.RoundTrip.{unmarshal-marshal_lists}
use qdocdb.Utils.{get_json_value_by_path}
use qdocdb.Kv.Interface.{KvInterface, KvLaws}
use qdocdb.Collection.{document_link_key, index_value_key}
use qdocdb.Transaction.{Transaction, Context, put_value, links_of, add_index_value}
use qdocdb.Transaction.Reads.{holds, holds-put_value}
use qdocdb.Transaction.Links.{
  links_in, links_of-holds, add_index_value-cases, add_index_value-links,
}
use qdocdb.Transaction.Insert.{add_to_indexes}

contains-append :
    (k : Bytes) (l r : List Bytes) → contains k (l ++ r) ≡ contains k l || contains k r
unfolding contains
contains-append k [] r = refl
contains-append k (x ∷ l) r = ground (arith, contains-append k l r)

contains_self : (k : Bytes) (l : List Bytes) → contains k (l ++ k ∷ []) ≡ true
unfolding contains
contains_self k [] = ground (arith, ==_iff k k)
contains_self k (x ∷ l) = ground (arith, contains_self k l)

-- Does an index value have a link?
abbrev pub is_linked : (kv : KvInterface) → Context kv → Transaction kv → Bytes → Bytes → Bool
is_linked kv c s k link = contains link (links_of kv c k s)

module _ (kv : KvInterface) (laws : KvLaws kv) (c : Context kv) (qt_laws : QtLaws c.qt) where
  -- The link that is added is there, and no link of any value goes.
  pub add_index_value-linked :
      (n : Text) (v : Json) (id : Bytes) (s : Transaction kv)
      → is_linked kv c
          (add_index_value kv c n v id s).1
          (index_value_key c.qt n c.snapshot_id v)
          (document_link_key id c.snapshot_id)
        ≡ true
  add_index_value-linked n v id s =
      let links = links_of kv c (index_value_key c.qt n c.snapshot_id v) s in
      ground (
        arith,
        add_index_value-links kv laws c qt_laws n v id s,
        contains_self (document_link_key id c.snapshot_id) links,
      )

  pub add_index_value-keeps :
      (n : Text) (v : Json) (id : Bytes) (s : Transaction kv) (k link : Bytes)
      → is_linked kv c s k link ≡ true
      → is_linked kv c (add_index_value kv c n v id s).1 k link ≡ true
  add_index_value-keeps n v id s k link h =
      let k' = index_value_key c.qt n c.snapshot_id v in
      let new = document_link_key id c.snapshot_id in
      let links = links_in c.qt (holds kv c s k') in
      let b = marshal_index_value c.qt (links ++ new ∷ []) in
      ground (
        arith,
        h,
        add_index_value-cases kv laws c n v id s,
        links_of-holds kv laws c k s,
        links_of-holds kv laws c k' s,
        links_of-holds kv laws c k (put_value kv c k' b s).1,
        holds-put_value kv laws c k' b k s,
        ==_iff k' k,
        contains-append link links (new ∷ []),
        (unmarshal-marshal_lists c.qt qt_laws [] (links ++ new ∷ []) [] []).1,
      )

  add_to_indexes-keeps :
      (indexes : List (Text × Text)) (doc : Fields) (id : Bytes) (s : Transaction kv)
      (k link : Bytes)
      → is_linked kv c s k link ≡ true
      → is_linked kv c (add_to_indexes kv c indexes doc id s).1 k link ≡ true
  unfolding add_to_indexes
  add_to_indexes-keeps [] doc id s k link h = h
  add_to_indexes-keeps ((f, n) ∷ indexes) doc id s k link h =
      let v = get_json_value_by_path c.qt (object doc) f in
      let s1 = (add_index_value kv c n v id s).1 in
      ground (
        arith,
        add_index_value-links kv laws c qt_laws n v id s,
        add_to_indexes-keeps indexes doc id s1 k link (add_index_value-keeps n v id s k link h),
      )

  -- After a document has been added to a table of indexes, the value that it has at the path of each
  -- of them is linked to it.
  pub add_to_indexes-linked :
      (f n : Text) (before after : List (Text × Text)) (doc : Fields) (id : Bytes)
      (s : Transaction kv)
      → is_linked kv c
          (add_to_indexes kv c (before ++ (f, n) ∷ after) doc id s).1
          (index_value_key c.qt n c.snapshot_id (get_json_value_by_path c.qt (object doc) f))
          (document_link_key id c.snapshot_id)
        ≡ true
  unfolding add_to_indexes
  add_to_indexes-linked f n [] after doc id s =
      let v = get_json_value_by_path c.qt (object doc) f in
      let s1 = (add_index_value kv c n v id s).1 in
      ground (
        arith,
        add_index_value-links kv laws c qt_laws n v id s,
        add_to_indexes-keeps after doc id s1 (index_value_key c.qt n c.snapshot_id v)
            (document_link_key id c.snapshot_id) (add_index_value-linked n v id s),
      )
  add_to_indexes-linked f n ((f', n') ∷ before) after doc id s =
      let v = get_json_value_by_path c.qt (object doc) f' in
      let s1 = (add_index_value kv c n' v id s).1 in
      ground (
        arith,
        add_index_value-links kv laws c qt_laws n' v id s,
        add_to_indexes-linked f n before after doc id s1,
      )
