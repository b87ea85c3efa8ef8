-- ===== src/Collection/Iterator.antt =====
-- QDocCollection::iterator: the documents of a database, seen from a snapshot.
pub mod Visible
pub mod Isolated
pub mod Later
pub mod Visit
use qdocdb.Prelude.{
  ℕ, zero, suc, ◌+◌, Bool, true, false, not, ◌&&◌, Option, none, some, List, [], ◌∷◌, Bytes, codes,
  ltb, eqb, ◌==◌, starts_with, length, take, drop, init, last?, if◌then◌else◌,
}
use qdocdb.Json.{Json, undefined}
use qdocdb.Qt.{Qt}
use qdocdb.Serialize.{unmarshal}
use qdocdb.Kv.{Entry}
use qdocdb.Kv.Interface.{KvInterface}
use qdocdb.Collection.{document_start_key}

-- `kvit` is what the key-value iterator has left to visit.
pub record DocIterator : Type 0 where
  pub kvit : List Entry
  pub snapshot_id : ℕ
  pub begin_key : Bytes
  pub prefix : Bytes

unfoldable pub key : DocIterator → Bytes
key it = drop 2 it.prefix

-- `setupPrefix`: the prefix is the start key without its last byte, the second colon.
unfoldable pub setup_prefix : DocIterator → DocIterator
setup_prefix it = elim it.kvit [
  | [] ↦ it
  | (k, v) ∷ rest ↦
      if take 2 k == codes "d:"
      then record it { begin_key = k; prefix = init k }
      else record it { begin_key = k; prefix = [] }
]

unfoldable pub is_empty {ℓ} : {A : Type ℓ} → List A → Bool
is_empty [] = true
is_empty (x ∷ xs) = false

unfoldable pub is_valid : DocIterator → Bool
unfolding is_empty
is_valid it = not (is_empty it.kvit) && not (is_empty it.prefix)

-- The loop of `next`: past all keys that start with the prefix.
unfoldable pub skip_prefix : Bytes → List Entry → List Entry
skip_prefix p [] = []
skip_prefix p ((k, v) ∷ rest) =
    let more = skip_prefix p rest in if starts_with p k then more else (k, v) ∷ rest

unfoldable pub next : DocIterator → DocIterator
unfolding skip_prefix setup_prefix
next it = setup_prefix (record it { kvit = skip_prefix it.prefix it.kvit })

-- The variables of the loop of `value`. The output parameter `snapshotId` has no value until the
-- loop writes it.
pub record Scan : Type 0 where
  pub value_data : Bytes
  pub version : Option ℕ
  pub is_not_modified_later : Bool
  pub is_naked : Bool
  pub find : Bool

abbrev pub scan_start : Scan
scan_start = record {
  value_data = [];
  version = none;
  is_not_modified_later = true;
  is_naked = true;
  find = false;
}

-- One round, for a key of the document that ends in the byte `s`.
unfoldable pub scan_version : ℕ → ℕ → Bytes → Scan → Scan
scan_version own s v a =
    if ltb s own
    then record a { version = some s; value_data = v; is_naked = false }
    else if eqb s own
    then record a { version = some s; value_data = v; find = true }
    else record a { version = some s; is_not_modified_later = false; is_naked = false }

unfoldable pub scan_entry : Bytes → ℕ → Bytes → Bytes → Scan → Scan
unfolding scan_version
scan_entry p own k v a =
    if ltb (length p + 1) (length k)
    then elim (last? k) [ none ↦ a | some s ↦ scan_version own s v a ]
    else a

unfoldable pub scan : Bytes → ℕ → List Entry → Scan → Scan
unfolding scan_entry
scan p own [] a = a
scan p own ((k, v) ∷ rest) a =
    let more = scan p own rest (scan_entry p own k v a) in
    if starts_with p k && not a.find then more else a

-- The loop of `isModifiedLater`. The last byte is read as an `int` from a signed char, so that one
-- of 128 or more is negative and never later.
unfoldable pub later_entry : Bytes → ℕ → Bytes → Bool
later_entry p own k =
    if ltb (length p + 1) (length k)
    then elim (last? k) [ none ↦ false | some s ↦ ltb s 128 && ltb own s ]
    else false

unfoldable pub scan_later : Bytes → ℕ → List Entry → Bool
unfolding later_entry
scan_later p own [] = false
scan_later p own ((k, v) ∷ rest) =
    let more = scan_later p own rest in
    if starts_with p k then (if later_entry p own k then true else more) else false

unfoldable pub scanned_value : Qt → Scan → Json
scanned_value qt a = elim a.value_data [ [] ↦ undefined | b ∷ bs ↦ unmarshal qt (b ∷ bs) ]

module _ (kv : KvInterface) (qt : Qt) (db : kv.Db) where
  -- `newIterator`, before its first `seek`
  unfoldable pub new_iterator : ℕ → DocIterator
  new_iterator snapshot_id = record {
    kvit = kv.seek_to_first db;
    snapshot_id = snapshot_id;
    begin_key = [];
    prefix = [];
  }

  unfoldable pub seek_to_first : DocIterator → DocIterator
  seek_to_first it = setup_prefix (record it { kvit = kv.seek_to_first db })

  unfoldable pub seek : Bytes → DocIterator → DocIterator
  seek id it = setup_prefix (record it { kvit = kv.seek (document_start_key id) db })

  -- `value`, which reads from `beginKey` on whatever the position was.
  unfoldable pub scan_document : DocIterator → Scan
  unfolding scan
  scan_document it = scan it.prefix it.snapshot_id (kv.seek it.begin_key db) scan_start

  unfoldable pub value : DocIterator → Json
  value it = scanned_value qt (scan_document it)

  unfoldable pub is_modified_later : DocIterator → Bool
  unfolding scan_later
  is_modified_later it = scan_later it.prefix it.snapshot_id (kv.seek it.begin_key db)

  -- The stops of `for (it->seekToFirst(); it->isValid(); it->next())`, on fuel. The calls in the
  -- body move the position inside the document only, past which `next` skips.
  unfoldable pub visit : ℕ → DocIterator → List DocIterator
  visit zero it = []
  visit (suc fuel) it = let rest = visit fuel (next it) in if is_valid it then it ∷ rest else []

  unfoldable pub documents : ℕ → List DocIterator
  documents snapshot_id =
      visit (suc (length (kv.seek_to_first db))) (seek_to_first (new_iterator snapshot_id))

  -- `getJsonValue` with its output parameters: none if the iterator found no document
  unfoldable pub get_scan : Bytes → ℕ → Option Scan
  get_scan id snapshot_id =
      let it = seek id (new_iterator snapshot_id) in
      if is_valid it then some (scan_document it) else none

  unfoldable pub get_json_value : Bytes → ℕ → Json
  get_json_value id snapshot_id = elim (get_scan id snapshot_id) [
    | none ↦ undefined
    | some a ↦ scanned_value qt a
  ]
