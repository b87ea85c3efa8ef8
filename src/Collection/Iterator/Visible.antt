-- ===== src/Collection/Iterator/Visible.antt =====
-- Which version of a document a snapshot sees.
use qdocdb.Prelude.{
  ℕ, ◌≤◌, ◌<◌, ◌≡◌, refl, ap, Bool, true, false, not, Option, none, some, List, [], ◌∷◌, ◌++◌,
  Bytes, ltb, leb, starts_with, starts_with_append, length-append, last?, arith, if◌then◌else◌,
  Option-cases, inl, inr,
}
use qdocdb.Json.{Json, undefined}
use qdocdb.Qt.{Qt}
use qdocdb.Kv.{Entry}
use qdocdb.Kv.Interface.{KvInterface}
use qdocdb.Collection.Iterator.{
  DocIterator, Scan, scan_start, scan_version, scan_entry, scan, scanned_value, value,
  scan_document,
}

-- The versions of a document: the snapshot's byte, and the bytes of the value.
abbrev pub Versions : Type 0
Versions = List (ℕ × Bytes)

abbrev pub version_entries : Bytes → Versions → List Entry
version_entries p [] = []
version_entries p ((s, v) ∷ vs) = (p ++ b':' ∷ s ∷ [], v) ∷ version_entries p vs

-- The keys of a document whose start key is `p` and a colon.
abbrev pub document_entries : Bytes → Bytes → Versions → List Entry
document_entries p e vs = (p ++ b':' ∷ [], e) ∷ version_entries p vs

-- The first key, if any, does not start with `p`.
abbrev pub is_boundary : Bytes → List Entry → Bool
is_boundary p [] = true
is_boundary p ((k, v) ∷ rest) = not (starts_with p k)

-- Versions rise from `s` on.
abbrev pub Above : ℕ → Versions → Type 0
Above s [] = Unit {0}
Above s ((t, v) ∷ vs) = (s < t) × Above t vs

abbrev pub Ascending : Versions → Type 0
Ascending [] = Unit {0}
Ascending ((s, v) ∷ vs) = Above s vs

-- The version with the greatest number that is no more than `own`, in whatever order they stand.
unfoldable pub latest : ℕ → Versions → Option (ℕ × Bytes)
latest own [] = none
latest own ((s, v) ∷ vs) =
    let rest = latest own vs in
    if leb s own
    then elim rest [
      | none ↦ some (s, v)
      | some (t, w) ↦ if ltb s t then some (t, w) else some (s, v)
    ]
    else rest

abbrev bytes_or : Bytes → Option (ℕ × Bytes) → Bytes
bytes_or d none = d
bytes_or d (some (s, v)) = v

abbrev pub seen : Qt → Option (ℕ × Bytes) → Json
seen qt none = undefined
seen qt (some (s, v)) = scanned_value qt (record scan_start { value_data = v })

pub last?-colon : (p : Bytes) (c s : ℕ) → last? (p ++ c ∷ s ∷ []) ≡ some s
last?-colon [] c s = refl
last?-colon (x ∷ []) c s = refl
last?-colon (x ∷ y ∷ p) c s = last?-colon (y ∷ p) c s

scan_entry-version :
    (p v : Bytes) (own s : ℕ) (a : Scan)
    → scan_entry p own (p ++ b':' ∷ s ∷ []) v a ≡ scan_version own s v a
unfolding scan_entry
scan_entry-version p v own s a =
    ground (arith, last?-colon p b':' s, length-append p (b':' ∷ s ∷ []))

scan_entry-start : (p v : Bytes) (own : ℕ) (a : Scan) → scan_entry p own (p ++ b':' ∷ []) v a ≡ a
unfolding scan_entry
scan_entry-start p v own a = ground (arith, length-append p (b':' ∷ []))

scan-boundary :
    (p : Bytes) (own : ℕ) (rest : List Entry) (a : Scan)
    → is_boundary p rest ≡ true
    → scan p own rest a ≡ a
unfolding scan
scan-boundary p own [] a h = refl
scan-boundary p own ((k, v) ∷ rest) a h = ground arith

scan-find : (p : Bytes) (own : ℕ) (l : List Entry) (a : Scan) → a.find ≡ true → scan p own l a ≡ a
unfolding scan
scan-find p own [] a h = refl
scan-find p own ((k, v) ∷ rest) a h = ground arith

scan-version :
    (p v : Bytes) (own s : ℕ) (l : List Entry) (a : Scan)
    → a.find ≡ false
    → scan p own ((p ++ b':' ∷ s ∷ [], v) ∷ l) a ≡ scan p own l (scan_version own s v a)
unfolding scan
scan-version p v own s l a h =
    ground (arith, starts_with_append p (b':' ∷ s ∷ []), scan_entry-version p v own s a)

latest-Above : (own s : ℕ) (vs : Versions) → Above s vs → own ≤ s → latest own vs ≡ none
unfolding latest
latest-Above own s [] h k = refl
latest-Above own s ((t, v) ∷ vs) h k = ground (arith, latest-Above own t vs h.1)

latest-lower :
    (own s t : ℕ) (w : Bytes) (vs : Versions) → Above s vs → latest own vs ≡ some (t, w) → s < t
unfolding latest
latest-lower own s t w [] h e = cc
latest-lower own s t w ((r, v) ∷ vs) h e = ground (arith, latest-lower own r t w vs h.1)

Above-Ascending : (s : ℕ) (vs : Versions) → Above s vs → Ascending vs
Above-Ascending s [] h = tt
Above-Ascending s ((t, v) ∷ vs) h = h.1

-- The bytes that one round leaves, once those of the later rounds are known.
scan_version-latest :
    (own s : ℕ) (v : Bytes) (vs : Versions) (a : Scan) (after : Bytes)
    → Above s vs
    → a.find ≡ false
    → ((scan_version own s v a).find ≡ false
        → after ≡ bytes_or (scan_version own s v a).value_data (latest own vs))
    → ((scan_version own s v a).find ≡ true → after ≡ (scan_version own s v a).value_data)
    → after ≡ bytes_or a.value_data (latest own ((s, v) ∷ vs))
unfolding latest scan_version
scan_version-latest own s v vs a after h f go stop = elim (Option-cases (latest own vs)) [
  | inl e ↦ ground (arith, latest-Above own s vs h)
  | inr (x, e) ↦ ground (arith, latest-Above own s vs h, latest-lower own s x.0 x.1 vs h)
]

scan-latest :
    (p : Bytes) (own : ℕ) (vs : Versions) (rest : List Entry) (a : Scan)
    → is_boundary p rest ≡ true
    → Ascending vs
    → a.find ≡ false
    → (scan p own (version_entries p vs ++ rest) a).value_data
      ≡ bytes_or a.value_data (latest own vs)
unfolding latest
scan-latest p own [] rest a b h f = ap (λ x. x.value_data) (scan-boundary p own rest a b)
scan-latest p own ((s, v) ∷ vs) rest a b h f =
    rw (scan-version p v own s (version_entries p vs ++ rest) a f) (
      scan_version-latest own s v vs a _ h f
        (scan-latest p own vs rest (scan_version own s v a) b (Above-Ascending s vs h))
        (λ e.
          ap (λ x. x.value_data)
            (scan-find p own (version_entries p vs ++ rest) (scan_version own s v a) e)))

scan_document-start :
    (p e : Bytes) (own : ℕ) (l : List Entry)
    → scan p own ((p ++ b':' ∷ [], e) ∷ l) scan_start ≡ scan p own l scan_start
unfolding scan
scan_document-start p e own l =
    ground (arith, starts_with_append p (b':' ∷ []), scan_entry-start p e own scan_start)

seen-bytes_or :
    (qt : Qt) (a : Scan) (o : Option (ℕ × Bytes))
    → a.value_data ≡ bytes_or [] o
    → scanned_value qt a ≡ seen qt o
unfolding scanned_value
seen-bytes_or qt a none h = rw h
seen-bytes_or qt a (some (s, v)) h = rw h

-- At a document whose keys are its start key and its versions in ascending order, before a key that
-- does not start with the document's prefix, `value` answers the version with the greatest number
-- that is no more than the iterator's snapshot, and the undefined value if there is none.
pub value-latest :
    (kv : KvInterface) (qt : Qt) (db : kv.Db) (it : DocIterator) (e : Bytes) (vs : Versions)
    (rest : List Entry)
    → kv.seek it.begin_key db ≡ document_entries it.prefix e vs ++ rest
    → is_boundary it.prefix rest ≡ true
    → Ascending vs
    → value kv qt db it ≡ seen qt (latest it.snapshot_id vs)
unfolding value
value-latest kv qt db it e vs rest at b h =
    seen-bytes_or qt (scan_document kv qt db it) (latest it.snapshot_id vs) (
      unfold scan_document in
      rw (at, scan_document-start it.prefix e it.snapshot_id (version_entries it.prefix vs ++ rest))
        (scan-latest it.prefix it.snapshot_id vs rest scan_start b h refl))
