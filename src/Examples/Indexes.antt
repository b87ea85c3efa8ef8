-- ===== src/Examples/Indexes.antt =====
-- Examples for indexes and for the revert to a snapshot.
use qdocdb.Prelude.{
  ◌≡◌, refl, true, ◌&&◌, List, [], ◌∷◌, Text, codes, none, some, ◌==◌, starts_with, assoc,
  if◌then◌else◌,
}
use qdocdb.Json.{object}
use qdocdb.Qt.Concrete.{concrete_qt, concrete-QtLaws, read_texts, hash_of}
use qdocdb.Serialize.{marshal_indexes, unmarshal_indexes}
use qdocdb.Utils.{get_json_value_by_path}
use qdocdb.Kv.KvMap.{map_kv, map_kv-KvLaws, get_value, db_get, is_deleted, new_transaction}
use qdocdb.Collection.{ok, document_link_key, document_start_key, index_value_key}
use qdocdb.Find.{get_indexes, all_documents}
use qdocdb.Transaction.{Transaction, source, create_index}
use qdocdb.Transaction.Insert.{add_to_indexes}
use qdocdb.Transaction.Reads.{holds}
use qdocdb.Transaction.Indexed.{is_linked, add_to_indexes-linked}
use qdocdb.Transaction.IndexCreated.{all_linked, create_index-linked}
use qdocdb.OpenCollection.Snapshots.{revert, is_version_key}
use qdocdb.OpenCollection.Snapshots.Dropped.{is_reached, is_version_of, revert-reached}
use qdocdb.Examples.{new_ann, sample_db, sample_context, fresh}

add_to_indexes-linked_example :
    is_linked map_kv sample_context
      (add_to_indexes map_kv sample_context
        ((codes "age", codes "by_age") ∷ [])
        new_ann
        (codes "a")
        fresh).1
      (index_value_key concrete_qt
        (codes "by_age")
        1
        (get_json_value_by_path concrete_qt (object new_ann) (codes "age")))
      (document_link_key (codes "a") 1)
    ≡ true
add_to_indexes-linked_example =
    add_to_indexes-linked map_kv map_kv-KvLaws sample_context concrete-QtLaws (codes "age")
      (codes "by_age") [] [] new_ann (codes "a") fresh

no_index :
    assoc (codes "name") (get_indexes map_kv concrete_qt (source map_kv sample_context fresh))
    ≡ none
unfolding get_indexes get_value db_get is_deleted new_transaction assoc ◌==◌ marshal_indexes
    unmarshal_indexes read_texts hash_of
no_index = refl

created : Transaction map_kv
created = (create_index map_kv sample_context (codes "name") (codes "by_name") fresh).1

create_index-linked_example :
    ((create_index map_kv sample_context (codes "name") (codes "by_name") fresh).0 ≡ ok tt)
    × (assoc (codes "name") (get_indexes map_kv concrete_qt (source map_kv sample_context created))
        ≡ some (codes "by_name"))
    × (all_linked map_kv sample_context
          (codes "name")
          (codes "by_name")
          (all_documents map_kv concrete_qt (source map_kv sample_context fresh))
          created
        ≡ true)
unfolding created
create_index-linked_example =
    create_index-linked map_kv map_kv-KvLaws sample_context concrete-QtLaws (codes "name")
      (codes "by_name") fresh no_index

abbrev two : List Text
two = codes "one" ∷ codes "__CURRENT" ∷ []

revert-reached_example :
    ((revert map_kv sample_context two (2 ∷ []) fresh).0 ≡ ok tt)
    × (holds map_kv sample_context
          (revert map_kv sample_context two (2 ∷ []) fresh).1
          (document_link_key (codes "a") 2)
        ≡ (if is_reached sample_db (document_link_key (codes "a") 2)
              && is_version_of (2 ∷ []) (document_link_key (codes "a") 2)
            then none
            else holds map_kv sample_context fresh (document_link_key (codes "a") 2)))
revert-reached_example =
    revert-reached map_kv map_kv-KvLaws sample_context concrete-QtLaws two (2 ∷ []) fresh
      (document_link_key (codes "a") 2)
      (unfold document_link_key document_start_key starts_with in refl)
      (unfold document_link_key document_start_key is_version_key in refl)
