-- ===== src/Collection/Iterator/Visit.antt =====
-- The iteration over all documents of a database.
use qdocdb.Prelude.{
  ℕ, zero, suc, ◌<◌, ◌≡◌, refl, sym, ap, ap₂, ◌∙◌, true, false, List, [], ◌∷◌, ◌++◌, Bytes, codes,
  ◌==◌, starts_with, starts_with_append, length, length-append, init-snoc, map, arith,
}
use mathlib.Core.List.{append_assoc}
use qdocdb.Json.{Json}
use qdocdb.Qt.{Qt}
use qdocdb.Kv.{Entry}
use qdocdb.Kv.Interface.{KvInterface}
use qdocdb.Collection.Iterator.{
  DocIterator, key, setup_prefix, is_empty, is_valid, skip_prefix, next, visit, documents, value,
  seek_to_first, new_iterator,
}
use qdocdb.Collection.Iterator.Visible.{
  Versions, version_entries, document_entries, is_boundary, Ascending, latest, seen, value-latest,
}

pub record Document : Type 0 where
  pub id : Bytes
  pub mark : Bytes
  pub versions : Versions

-- The key of a document without the last colon.
abbrev pub prefix_of : Bytes → Bytes
prefix_of id = codes "d:" ++ id

abbrev pub encode : List Document → List Entry → List Entry
encode [] tail = tail
encode (d ∷ ds) tail = document_entries (prefix_of d.id) d.mark d.versions ++ encode ds tail

-- Versions ascend, and what follows a document does not start with its prefix.
abbrev pub Separate : List Document → List Entry → Type 0
Separate [] tail = Unit {0}
Separate (d ∷ ds) tail =
    Ascending d.versions × (is_boundary (prefix_of d.id) (encode ds tail) ≡ true) × Separate ds tail

-- The key-value iterator finds each key of the database where it stands.
abbrev pub Seeks : (kv : KvInterface) → kv.Db → Type 0
Seeks kv db =
    (pre : List Entry) (k v : Bytes) (post : List Entry)
    → kv.seek_to_first db ≡ pre ++ (k, v) ∷ post
    → kv.seek k db ≡ (k, v) ∷ post

abbrev stop : ℕ → Bytes → List Entry → DocIterator
stop own id l = record {
  kvit = l;
  snapshot_id = own;
  begin_key = prefix_of id ++ b':' ∷ [];
  prefix = prefix_of id;
}

skip_prefix-boundary : (p : Bytes) (l : List Entry) → is_boundary p l ≡ true → skip_prefix p l ≡ l
unfolding skip_prefix
skip_prefix-boundary p [] h = refl
skip_prefix-boundary p ((k, v) ∷ l) h = ground arith

skip_prefix-versions :
    (p : Bytes) (vs : Versions) (rest : List Entry)
    → is_boundary p rest ≡ true
    → skip_prefix p (version_entries p vs ++ rest) ≡ rest
unfolding skip_prefix
skip_prefix-versions p [] rest h = skip_prefix-boundary p rest h
skip_prefix-versions p ((s, v) ∷ vs) rest h =
    ground (arith, starts_with_append p (b':' ∷ s ∷ []), skip_prefix-versions p vs rest h)

skip_prefix-document :
    (p e : Bytes) (vs : Versions) (rest : List Entry)
    → is_boundary p rest ≡ true
    → skip_prefix p (document_entries p e vs ++ rest) ≡ rest
unfolding skip_prefix
skip_prefix-document p e vs rest h =
    ground (arith, starts_with_append p (b':' ∷ []), skip_prefix-versions p vs rest h)

setup_prefix-document :
    (it : DocIterator) (id e : Bytes) (l : List Entry)
    → setup_prefix (record it { kvit = (prefix_of id ++ b':' ∷ [], e) ∷ l })
      ≡ stop it.snapshot_id id ((prefix_of id ++ b':' ∷ [], e) ∷ l)
unfolding setup_prefix ◌==◌
setup_prefix-document it id e l = ground (arith, init-snoc (b'd' ∷ b':' ∷ id) b':')

-- The keys after the documents do not start with "d:".
setup_prefix-tail :
    (it : DocIterator) (tail : List Entry)
    → is_boundary (codes "d:") tail ≡ true
    → is_valid (setup_prefix (record it { kvit = tail })) ≡ false
unfolding setup_prefix is_valid is_empty ◌==◌ starts_with
setup_prefix-tail it [] h = refl
setup_prefix-tail it (([], v) ∷ tail) h = refl
setup_prefix-tail it ((a ∷ [], v) ∷ tail) h = ground arith
setup_prefix-tail it ((a ∷ b ∷ k, v) ∷ tail) h = ground arith

-- What is shown of an iterator at a stop, and of a document.
abbrev pub shown : (kv : KvInterface) → Qt → kv.Db → List DocIterator → List (Bytes × Json)
shown kv qt db its = map (λ it. (key it, value kv qt db it)) its

abbrev pub listing : Qt → ℕ → List Document → List (Bytes × Json)
listing qt own ds = map (λ d. (d.id, seen qt (latest own d.versions))) ds

length-encode :
    (d : Document) (l : List Entry)
    → length l < length (document_entries (prefix_of d.id) d.mark d.versions ++ l)
length-encode d l =
    omega (arith, length-append {0} (document_entries (prefix_of d.id) d.mark d.versions) l)

next-stop :
    (own : ℕ) (d : Document) (rest : List Entry) (l : List Entry)
    → l ≡ document_entries (prefix_of d.id) d.mark d.versions ++ rest
    → is_boundary (prefix_of d.id) rest ≡ true
    → next (stop own d.id l) ≡ setup_prefix (record (stop own d.id l) { kvit = rest })
unfolding next
next-stop own d rest l e b =
    let skipped : skip_prefix (prefix_of d.id) l ≡ rest =
      rw e (skip_prefix-document (prefix_of d.id) d.mark d.versions rest b) in
    ap (λ m. setup_prefix (record (stop own d.id l) { kvit = m })) skipped

stop-is_valid :
    (own : ℕ) (id k v : Bytes) (l : List Entry) → is_valid (stop own id ((k, v) ∷ l)) ≡ true
unfolding is_valid is_empty
stop-is_valid own id k v l = refl

key-stop : (own : ℕ) (id : Bytes) (l : List Entry) → key (stop own id l) ≡ id
unfolding key
key-stop own id l = refl

module _ (kv : KvInterface) (qt : Qt) (db : kv.Db) (seeks : Seeks kv db) where
  stop-value :
      (own : ℕ) (d : Document) (ds : List Document) (tail pre : List Entry)
      → kv.seek_to_first db ≡ pre ++ encode (d ∷ ds) tail
      → Separate (d ∷ ds) tail
      → value kv qt db (stop own d.id (encode (d ∷ ds) tail)) ≡ seen qt (latest own d.versions)
  stop-value own d ds tail pre e s =
      value-latest kv qt db (stop own d.id (encode (d ∷ ds) tail)) d.mark d.versions
        (encode ds tail) (seeks pre _ _ _ e) s.1 s.0

  shown-visit :
      (own : ℕ) (tail : List Entry)
      → is_boundary (codes "d:") tail ≡ true
      → (fuel : ℕ) (ds : List Document) (pre : List Entry) (it : DocIterator) → it.snapshot_id ≡ own
      → kv.seek_to_first db ≡ pre ++ encode ds tail
      → Separate ds tail
      → length (encode ds tail) < fuel
      → shown kv qt db (visit kv qt db fuel (setup_prefix (record it { kvit = encode ds tail })))
        ≡ listing qt own ds
  unfolding visit
  shown-visit own tail bt zero ds pre it o e s f = absurd (omega arith)
  shown-visit own tail bt (suc fuel) [] pre it o e s f =
      ground (arith, setup_prefix-tail it tail bt)
  shown-visit own tail bt (suc fuel) (d ∷ ds) pre it o e s f =
      rw
        (
          setup_prefix-document it d.id d.mark
              (version_entries (prefix_of d.id) d.versions ++ encode ds tail),
          o,
          stop-is_valid own d.id (prefix_of d.id ++ b':' ∷ []) d.mark
              (version_entries (prefix_of d.id) d.versions ++ encode ds tail),
          next-stop own d (encode ds tail) (encode (d ∷ ds) tail) refl s.1,
        )
        (ap₂ ◌∷◌
          (ap₂ (λ a b. (a, b)) (key-stop own d.id (encode (d ∷ ds) tail))
            (stop-value own d ds tail pre e s))
          (shown-visit own tail bt fuel ds
            (pre ++ document_entries (prefix_of d.id) d.mark d.versions)
            (stop own d.id (encode (d ∷ ds) tail)) refl
            (e
              ∙ sym (
                  append_assoc pre (document_entries (prefix_of d.id) d.mark d.versions)
                    (encode ds tail)))
            s.2 (omega (arith, length-encode d (encode ds tail)))))

-- Over a database whose entries are those of some documents, then keys that do not start with "d:",
-- where versions ascend and no document's prefix starts the key after it: the loop over all
-- documents stops at each of them once, in order, with its id, and with the value that is latest at
-- or below the snapshot.
pub documents-listing :
    (kv : KvInterface) (qt : Qt) (db : kv.Db) (own : ℕ) (ds : List Document) (tail : List Entry)
    → Seeks kv db
    → kv.seek_to_first db ≡ encode ds tail
    → is_boundary (codes "d:") tail ≡ true
    → Separate ds tail
    → shown kv qt db (documents kv qt db own) ≡ listing qt own ds
unfolding documents
documents-listing kv qt db own ds tail seeks e bt s =
    rw (started, e)
      (shown-visit kv qt db seeks own tail bt (suc (length (encode ds tail))) ds []
        (new_iterator kv qt db own) (unfold new_iterator in refl) e s (omega arith))
  where
    started :
        seek_to_first kv qt db (new_iterator kv qt db own)
        ≡ setup_prefix (record (new_iterator kv qt db own) { kvit = encode ds tail })
    started =
        unfold seek_to_first in
        ap (λ m. setup_prefix (record (new_iterator kv qt db own) { kvit = m })) e
