-- ===== src/Examples/Transactions.antt =====
-- Examples for transactions: inserts, removals, index values, and the observers after a commit.
use qdocdb.Prelude.{
  ◌≡◌, refl, not, Bytes, codes, starts_with, arith, none, some, ◌==◌, remove_all, true, false,
  if◌then◌else◌,
}
use qdocdb.Json.{
  to_object, to_bool, object, string, value, undefined, has_key, is_undefined, is_object,
}
use qdocdb.Qt.Concrete.{concrete_qt, concrete-QtLaws, decode, write, read, read_number, read_text}
use qdocdb.Serialize.{marshal, unmarshal, unmarshal_document}
use qdocdb.Kv.KvMap.{map_kv, map_kv-KvLaws}
use qdocdb.Collection.{
  Result, ok, err, error_database, error_already_exists, error_object_is_read_only,
  document_start_key, document_link_key, index_value_key,
}
use qdocdb.Collection.Iterator.{
  get_json_value, get_scan, is_valid, is_empty, seek, setup_prefix, new_iterator, scan_document,
  scan, scan_entry, scan_version, scanned_value,
}
use qdocdb.Find.{get_json_value_by_link_key}
use qdocdb.Transaction.{Transaction, source, links_of, add_index_value, remove_index_value}
use qdocdb.Transaction.Reads.{holds}
use qdocdb.Transaction.Links.{remove_index_value-links}
use qdocdb.Transaction.Insert.{insert, is_read_only}
use qdocdb.Transaction.Inserted.{Inserted, insert-Inserted, insert-answer}
use qdocdb.Transaction.Remove.{remove_by_id}
use qdocdb.Transaction.Erased.{remove_by_id-refused, remove_by_id-erased}
use qdocdb.Utils.{get_json_value_by_path, by_path, at_key, first_key, next_path}
use qdocdb.IdGen.{is_read_only_key_valid}
use qdocdb.Kv.Sorted.{from_key}
use qdocdb.Examples.{sample_db, old_ann, new_ann, bob, sample_context, fresh}

-- What the snapshot 1 has of the two documents.
read_ann : get_json_value map_kv concrete_qt sample_db (codes "a") 1 ≡ object old_ann
unfolding get_json_value get_scan is_valid is_empty seek setup_prefix new_iterator scan_document
    scan scan_entry scan_version scanned_value document_start_key from_key starts_with ◌==◌ marshal
    unmarshal unmarshal_document to_object decode write read read_number read_text
read_ann = refl

read_bob : get_json_value map_kv concrete_qt sample_db (codes "b") 1 ≡ object bob
unfolding get_json_value get_scan is_valid is_empty seek setup_prefix new_iterator scan_document
    scan scan_entry scan_version scanned_value document_start_key from_key starts_with ◌==◌ marshal
    unmarshal unmarshal_document to_object decode write read read_number read_text
read_bob = refl

protected_bob : is_read_only map_kv sample_context (object bob) false ≡ true
unfolding is_read_only is_read_only_key_valid get_json_value_by_path by_path at_key value ◌==◌
    first_key next_path is_undefined to_bool
protected_bob = refl

open_ann : is_read_only map_kv sample_context (object old_ann) false ≡ false
unfolding is_read_only is_read_only_key_valid get_json_value_by_path by_path at_key value ◌==◌
    first_key next_path is_undefined to_bool
open_ann = refl

abbrev age_key : Bytes
age_key = index_value_key concrete_qt (codes "by_age") 1 (string (codes "31"))

abbrev linked : Result (Unit {0}) × Transaction map_kv
linked =
    add_index_value map_kv sample_context (codes "by_age") (string (codes "31")) (codes "a") fresh

abbrev unlinked : Result (Unit {0}) × Transaction map_kv
unlinked =
    remove_index_value map_kv sample_context (codes "by_age") (string (codes "31"))
      (document_link_key (codes "a") 1) linked.1

remove_index_value-links_example :
    (unlinked.0 ≡ elim (holds map_kv sample_context linked.1 age_key) [
      | none ↦ err error_database
      | some b ↦ ok tt
    ])
    × (links_of map_kv sample_context age_key unlinked.1
        ≡ remove_all
            (document_link_key (codes "a") 1)
            (links_of map_kv sample_context age_key linked.1))
remove_index_value-links_example =
    remove_index_value-links map_kv map_kv-KvLaws sample_context concrete-QtLaws (codes "by_age")
      (string (codes "31")) (document_link_key (codes "a") 1) linked.1

insert-Inserted_example :
    Inserted map_kv map_kv-KvLaws sample_context concrete-QtLaws new_ann fresh
      (insert map_kv sample_context new_ann true false fresh)
insert-Inserted_example =
    insert-Inserted map_kv map_kv-KvLaws sample_context concrete-QtLaws new_ann true false fresh

insert-answer_example :
    let doc_old = get_json_value map_kv concrete_qt sample_context.db (codes "a") 1 in
    (insert map_kv sample_context new_ann true false fresh).0 ≡ (
      if is_undefined doc_old
      then ok (codes "a")
      else if not true
      then err error_already_exists
      else if is_read_only map_kv sample_context doc_old false
      then err error_object_is_read_only
      else ok (codes "a"))
insert-answer_example =
    insert-answer map_kv map_kv-KvLaws sample_context concrete-QtLaws new_ann (codes "a") true false
      fresh (unfold has_key ◌==◌ in refl) (unfold value ◌==◌ in refl)

abbrev removed : Bytes → Result (Unit {0}) × Transaction map_kv
removed id = remove_by_id map_kv sample_context id false fresh

remove_by_id-refused_example :
    ((removed (codes "b")).0
      ≡ err (
          if is_object (get_json_value map_kv concrete_qt sample_context.db (codes "b") 1)
          then error_object_is_read_only
          else error_database))
    × ((removed (codes "b")).1.tx ≡ fresh.tx)
remove_by_id-refused_example =
    remove_by_id-refused map_kv map_kv-KvLaws sample_context concrete-QtLaws (codes "b") false fresh
      (unfold is_object in ground (arith, read_bob, protected_bob))

remove_by_id-erased_example :
    get_json_value_by_link_key map_kv concrete_qt
      (source map_kv sample_context (removed (codes "a")).1)
      (document_link_key (codes "a") 1)
    ≡ undefined
remove_by_id-erased_example =
    remove_by_id-erased map_kv map_kv-KvLaws sample_context concrete-QtLaws (codes "a") false fresh
      (unfold is_object in ground (arith, read_ann, open_ann))
