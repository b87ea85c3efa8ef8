-- ===== src/Examples/Calls.antt =====
-- Examples for the ids of documents, the signals of observers and the table of open collections.
use qdocdb.Prelude.{
  at, none, if◌then◌else◌, refl, Bool, List, Option, Text, [], ap, arith, codes, false, reverse,
  some, true, ℕ, ◌+◌, ◌++◌, ◌==◌, ◌∷◌, ◌≡◌, ◌≢◌,
}
use qdocdb.Database.{Database, collection, find_collection}
use qdocdb.Database.Shared.{collection-again}
use qdocdb.Json.{null, end}
use qdocdb.Qt.Concrete.{concrete_qt}
use qdocdb.IdGen.{get_id, new_id_gen}
use qdocdb.IdGen.Fresh.{after_ids, new_id_gen-fresh}
use qdocdb.Kv.KvMap.{map_kv}
use qdocdb.OpenCollection.{OpenCollection, Setup, type_collection, emit_observers, commit}
use qdocdb.OpenCollection.Committed.{Told, commit-Told}
use qdocdb.Transaction.{Transaction}
use qdocdb.OpenCollection.Signals.{triggered_replies, emit_observers-replies}
use qdocdb.Examples.{sample_context, sample_db, fresh}

abbrev one_digit : ℕ → List ℕ
one_digit n = n ∷ []

first_digit : List ℕ → ℕ
first_digit [] = 0
first_digit (n ∷ l) = n

new_id_gen-fresh_example :
    (get_id concrete_qt sample_context.system
      (after_ids concrete_qt sample_context.system 2 (new_id_gen (λ seed n. seed + n) 7))).0
    ≢ (get_id concrete_qt sample_context.system
        (after_ids concrete_qt sample_context.system 5 (new_id_gen (λ seed n. seed + n) 7))).0
new_id_gen-fresh_example =
    new_id_gen-fresh concrete_qt sample_context.system
      (λ a b e. unfold first_digit in ap first_digit e) (λ seed n. seed + n) 7 2 5 (omega arith)
      (omega arith)

abbrev observed : OpenCollection map_kv
observed = record {
  class_type = type_collection;
  db = sample_db;
  snapshot_id = 1;
  observers =
      (1, record { query = end; query_options = end; reply = null ∷ []; triggered = true })
      ∷ (2, record { query = end; query_options = end; reply = []; triggered = false })
      ∷ [];
  last_error = [];
  id_gen = fresh.id_gen;
  emitted = [];
}

emit_observers-replies_example :
    ((emit_observers observed).emitted ≡ reverse (triggered_replies observed.observers) ++ [])
    × (triggered_replies (emit_observers observed).observers ≡ [])
emit_observers-replies_example = emit_observers-replies observed

abbrev always : Text → Bool → Option (OpenCollection map_kv)
always dir in_memory = some observed

abbrev no_collection : Database map_kv
no_collection = record { is_opened = true; base_dir = codes "db"; coll_list = [] }

collection-again_example :
    let db = (collection map_kv always (codes "one") false no_collection).1 in
    (collection map_kv always (codes "one") true db ≡ (some 0, db))
    × (find_collection map_kv (codes "db/two") db.coll_list
        ≡ elim (find_collection map_kv (codes "db/two") []) [
          | some j ↦ some j
          | none ↦ if codes "db/one" == codes "db/two" then some 0 else none
        ])
collection-again_example =
    collection-again map_kv always (codes "one") (codes "two") false true no_collection 0
      (unfold collection find_collection ◌==◌ in refl)

abbrev sample_setup : Setup
sample_setup = record {
  qt = concrete_qt;
  config = sample_context.config;
  system = sample_context.system;
  junk = false;
}

-- A transaction in which the second observer has a new reply.
abbrev refreshed : Transaction map_kv
refreshed = record fresh {
  observers =
      (2, record { query = end; query_options = end; reply = null ∷ []; triggered = false }) ∷ [];
}

commit-Told_example :
    Told map_kv sample_setup refreshed observed 2
      (map_kv.write_transaction refreshed.tx observed.db).0
      (commit map_kv sample_setup refreshed observed)
unfolding at
commit-Told_example =
    commit-Told map_kv sample_setup refreshed observed 2 (refl, tt) (refl, (refl, tt))
