-- ===== src/Find/Isolated.antt =====
-- What a search of a snapshot finds when later snapshots have been written to.
use qdocdb.Prelude.{ℕ, ◌≡◌, refl, ap, ◌∙◌, true, Bool, List, [], ◌∷◌, map, Bytes, codes}
use qdocdb.Json.{Json, Fields, is_object}
use qdocdb.Qt.{Qt}
use qdocdb.Kv.{Entry}
use qdocdb.Kv.Interface.{KvInterface}
use qdocdb.Collection.Iterator.{DocIterator, documents, value, key}
use qdocdb.Collection.Iterator.Visible.{is_boundary}
use qdocdb.Collection.Iterator.Visit.{
  Document, encode, Separate, Seeks, shown, listing, documents-listing,
}
use qdocdb.Collection.Iterator.Isolated.{
  Grown, done, grown, created, latest-Above, latest-append-Above,
}
use qdocdb.Query.Meaning.{well_formed}
use qdocdb.Find.{Source, Reply, get_indexes, all_documents, find}
use qdocdb.Find.Matches.{is_plain, satisfying, find-satisfying}

-- The database holds the documents, then keys that do not start with "d:".
abbrev pub IsListed : (kv : KvInterface) → kv.Db → List Document → List Entry → Type 0
IsListed kv db ds tail =
    Seeks kv db
    × (kv.seek_to_first db ≡ encode ds tail)
    × (is_boundary (codes "d:") tail ≡ true)
    × Separate ds tail

abbrev reply_of : List (Bytes × Json) → Reply
reply_of = map (λ p. (p.1, p.0))

all_documents-shown :
    (kv : KvInterface) (qt : Qt) (db : kv.Db) (its : List DocIterator)
    → map (λ it. (value kv qt db it, key it)) its ≡ reply_of (shown kv qt db its)
all_documents-shown kv qt db [] = refl
all_documents-shown kv qt db (it ∷ its) =
    ap (λ l. (value kv qt db it, key it) ∷ l) (all_documents-shown kv qt db its)

all_documents-listing :
    (kv : KvInterface) (qt : Qt) (src : Source kv) (ds : List Document) (tail : List Entry)
    → IsListed kv src.db ds tail
    → all_documents kv qt src ≡ reply_of (listing qt src.snapshot_id ds)
unfolding all_documents
all_documents-listing kv qt src ds tail (seeks, e, b, s) =
    all_documents-shown kv qt src.db (documents kv qt src.db src.snapshot_id)
    ∙ ap reply_of (documents-listing kv qt src.db src.snapshot_id ds tail seeks e b s)

satisfying-grown :
    (qt : Qt) (query : Fields) (own : ℕ) (ds ds' : List Document)
    → Grown own ds ds'
    → satisfying qt query (reply_of (listing qt own ds'))
      ≡ satisfying qt query (reply_of (listing qt own ds))
unfolding is_object
satisfying-grown qt query own ds ds' done = refl
satisfying-grown qt query own ds ds' (grown id mark mark' vs ws a g) =
    rw (latest-append-Above own vs ws a, satisfying-grown qt query own _ _ g) refl
satisfying-grown qt query own ds ds' (created id mark ws a g) =
    rw (latest-Above own ws a) (satisfying-grown qt query own ds _ g)

-- Two databases hold documents; in the second one versions above the snapshot of both readers have
-- been added, to documents of the first and in new documents. A well-formed query that asks for no
-- ids and has no key with an index, on either side, is answered by both with the same documents, in
-- the same order, with the same ids, after the options.
pub find-isolated :
    (kv : KvInterface) (qt : Qt) (before after : Source kv) (ds ds' : List Document)
    (tail tail' : List Entry) (junk : Bool) (query options : Fields)
    → before.snapshot_id ≡ after.snapshot_id
    → IsListed kv before.db ds tail
    → IsListed kv after.db ds' tail'
    → Grown after.snapshot_id ds ds'
    → well_formed query ≡ true
    → is_plain (get_indexes kv qt before) query ≡ true
    → is_plain (get_indexes kv qt after) query ≡ true
    → find kv qt after junk query options ≡ find kv qt before junk query options
find-isolated kv qt before after ds ds' tail tail' junk query options o l l' g w p p' =
    rw
      (
        find-satisfying kv qt before junk query options w p,
        find-satisfying kv qt after junk query options w p',
        all_documents-listing kv qt before ds tail l,
        all_documents-listing kv qt after ds' tail' l',
        o,
        satisfying-grown qt query after.snapshot_id ds ds' g,
      )
      refl
