-- ===== src/Examples/Documents.antt =====
-- Examples for queries, searches, and the iteration over documents.
use mathlib.Core.List.{Perm}
use qdocdb.Prelude.{
  ◌≡◌, refl, List, [], ◌∷◌, Bytes, codes, ◌==◌, starts_with, true, false, arith, assoc, Distinct,
  ap, ◌∙◌, subst,
}
use qdocdb.Json.{
  to_string, value, to_object, is_array, Json, Fields, end, field, object, array, string, null, nil,
  cons,
}
use qdocdb.Qt.Concrete.{concrete_qt, concrete-QtLaws}
use qdocdb.Serialize.{marshal}
use qdocdb.Kv.{Entry}
use qdocdb.Kv.Sorted.{from_key}
use qdocdb.Kv.KvMap.{map_kv, db_get, from_key-append}
use qdocdb.Collection.{ok}
use qdocdb.Collection.Iterator.{DocIterator, documents, is_modified_later}
use qdocdb.Collection.Iterator as Iterator
use qdocdb.Collection.Iterator.Visible.{seen, latest, value-latest}
use qdocdb.Collection.Iterator.Later.{any_later, is_modified_later-any_later}
use qdocdb.Collection.Iterator.Visit.{
  Document, Seeks, Separate, shown, listing, encode, documents-listing,
}
use qdocdb.Collection.Iterator.Isolated.{done, grown, created}
use qdocdb.Query.{check_valid_r, by_key, is_operator, is_comparison}
use qdocdb.Query.Meaning.{well_formed, matches, check_valid_r-matches}
use qdocdb.Options.{apply_options, order_reply, id_of}
use qdocdb.Options.Bubble.{IsOrdered}
use qdocdb.Options.Order.{is_misplaced, order_reply-IsOrdered}
use qdocdb.Find.{Source, find, all_documents}
use qdocdb.Find.Matches.{satisfying, find-satisfying}
use qdocdb.Find.Isolated.{find-isolated}
use qdocdb.Utils.{get_json_value_by_path}
use qdocdb.Utils.Path.{join, follow, get-join}
use qdocdb.Examples.{
  person, old_ann, new_ann, two_documents, other_entries, sample_db, sample_db-Seeks, ann_versions,
  bob_versions,
}

-- { "$or": [ { "name": "Ann" }, { "age": { "$gt": "30" } } ] }
abbrev older_or_ann : Fields
older_or_ann =
    field (codes "$or")
      (array (
        cons (object (field (codes "_id") (string (codes "b")) end)) (
          cons
            (object
              (field (codes "age") (object (field (codes "$gt") (string (codes "30")) end)) end))
            nil)))
      end

check_valid_r-matches_example :
    check_valid_r concrete_qt true (object older_or_ann) (object new_ann) false
    ≡ ok (matches concrete_qt older_or_ann (object new_ann))
check_valid_r-matches_example =
    check_valid_r-matches concrete_qt true older_or_ann (object new_ann) false
      (unfold well_formed by_key is_operator is_comparison ◌==◌ in refl)

abbrev at_ann : DocIterator
at_ann = record {
  kvit = sample_db;
  snapshot_id = 1;
  begin_key = codes "d:a:";
  prefix = codes "d:a";
}

value-latest_example :
    Iterator.value map_kv concrete_qt sample_db at_ann ≡ seen concrete_qt (latest 1 ann_versions)
value-latest_example =
    value-latest map_kv concrete_qt sample_db at_ann [] ann_versions
      (encode (record { id = codes "b"; mark = []; versions = bob_versions } ∷ []) other_entries)
      (sample_db-Seeks [] (codes "d:a:") [] _ refl) (unfold starts_with in refl) (omega arith, tt)

is_modified_later-any_later_example :
    is_modified_later map_kv concrete_qt sample_db at_ann ≡ any_later 1 ann_versions
is_modified_later-any_later_example =
    is_modified_later-any_later map_kv concrete_qt sample_db at_ann [] ann_versions
      (encode (record { id = codes "b"; mark = []; versions = bob_versions } ∷ []) other_entries)
      (sample_db-Seeks [] (codes "d:a:") [] _ refl) (unfold starts_with in refl) refl

two_documents-Separate : Separate two_documents other_entries
unfolding starts_with
two_documents-Separate = ((omega arith, tt), refl, (tt, refl, tt))

documents-listing_example :
    shown map_kv concrete_qt sample_db (documents map_kv concrete_qt sample_db 1)
    ≡ listing concrete_qt 1 two_documents
documents-listing_example =
    documents-listing map_kv concrete_qt sample_db 1 two_documents other_entries sample_db-Seeks
      refl (unfold starts_with in refl) two_documents-Separate

abbrev sample_source : Source map_kv
sample_source = record { db = sample_db; read = λ k. db_get k sample_db; snapshot_id = 1 }

find-satisfying_example : find map_kv concrete_qt sample_source false older_or_ann end ≡ (
  ok tt,
  apply_options concrete_qt end
      (satisfying concrete_qt older_or_ann (all_documents map_kv concrete_qt sample_source)),
)
find-satisfying_example =
    find-satisfying map_kv concrete_qt sample_source false older_or_ann end
      (unfold well_formed by_key is_operator is_comparison ◌==◌ in refl)
      (unfold is_array ◌==◌ in ground arith)

abbrev one_document : List Document
one_document =
    record { id = codes "a"; mark = []; versions = (0, marshal concrete_qt (object old_ann)) ∷ [] }
    ∷ []

abbrev earlier_db : List Entry
earlier_db = encode one_document other_entries

earlier_db-Distinct : Distinct earlier_db
unfolding assoc ◌==◌
earlier_db-Distinct = (refl, (refl, (refl, (refl, tt))))

earlier_db-Seeks : Seeks map_kv earlier_db
earlier_db-Seeks pre k v post e =
    ap (from_key k) e ∙ from_key-append k v pre post (subst Distinct e earlier_db-Distinct)

abbrev first_snapshot : List Entry → Source map_kv
first_snapshot db = record { db = db; read = λ k. db_get k db; snapshot_id = 0 }

find-isolated_example :
    find map_kv concrete_qt (first_snapshot sample_db) false older_or_ann end
    ≡ find map_kv concrete_qt (first_snapshot earlier_db) false older_or_ann end
find-isolated_example =
    find-isolated map_kv concrete_qt (first_snapshot earlier_db) (first_snapshot sample_db)
      one_document two_documents other_entries other_entries false older_or_ann end refl
      (earlier_db-Seeks, refl, unfold starts_with in refl, (tt, unfold starts_with in refl, tt))
      (sample_db-Seeks, refl, unfold starts_with in refl, two_documents-Separate)
      (grown (codes "a") [] [] ((0, marshal concrete_qt (object old_ann)) ∷ [])
        ((2, marshal concrete_qt (object new_ann)) ∷ []) (omega arith, tt)
        (created (codes "b") [] bob_versions (omega arith, tt) done))
      (unfold well_formed by_key is_operator is_comparison ◌==◌ in refl)
      (unfold is_array ◌==◌ in ground arith) (unfold is_array ◌==◌ in ground arith)

abbrev reply : List (Json × Bytes)
reply =
    (object (person (codes "b") (string (codes "31"))), codes "b")
    ∷ (object old_ann, codes "a")
    ∷ []

order_reply-IsOrdered_example :
    IsOrdered
      (λ p q. is_misplaced concrete_qt (codes "age") true p.0 q.0)
      (order_reply concrete_qt (codes "age") true reply)
    × Perm (order_reply concrete_qt (codes "age") true reply) reply
order_reply-IsOrdered_example =
    order_reply-IsOrdered concrete_qt concrete-QtLaws (codes "age") true reply
      (unfold assoc id_of ◌==◌ to_string value to_object in (refl, (refl, tt)))

abbrev nested : Json
nested = object (field (codes "list") (array (cons null (cons (object new_ann) nil))) end)

get-join_example :
    get_json_value_by_path concrete_qt nested (join (codes "list" ∷ codes "1" ∷ codes "age" ∷ []))
    ≡ follow concrete_qt nested (codes "list" ∷ codes "1" ∷ codes "age" ∷ [])
get-join_example = get-join concrete_qt nested (codes "list" ∷ codes "1" ∷ codes "age" ∷ []) refl
