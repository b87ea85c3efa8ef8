-- ===== src/Find/Matches.antt =====
-- What a search that uses no index finds.
use qdocdb.Prelude.{
  ◌≡◌, refl, Bool, true, not, ◌&&◌, ◌||◌, none, some, List, [], ◌∷◌, Text, codes, ◌==◌, assoc,
  filter_by, arith,
}
use qdocdb.Json.{Fields, end, field, is_object, is_array}
use qdocdb.Qt.{Qt}
use qdocdb.Kv.Interface.{KvInterface}
use qdocdb.Collection.{ok}
use qdocdb.Query.Meaning.{well_formed, matches, check_valid_r-matches}
use qdocdb.Options.{apply_options}
use qdocdb.Find.{Source, Reply, get_indexes, find_links, select, all_documents, find}

-- No index answers for a key of the query, and it does not ask for ids.
abbrev pub is_plain : List (Text × Text) → Fields → Bool
is_plain indexes end = true
is_plain indexes (field k q fs) =
    not (k == codes "_id")
    && ((elim (assoc k indexes) [ none ↦ true | some n ↦ is_array q || is_object q ])
        && is_plain indexes fs)

-- The objects that satisfy the query.
abbrev pub satisfying : Qt → Fields → Reply → Reply
satisfying qt query = filter_by (λ p. is_object p.0 && matches qt query p.0)

module _ (kv : KvInterface) (qt : Qt) (src : Source kv) where
  find_links-plain :
      (indexes : List (Text × Text)) (fs : Fields)
      → is_plain indexes fs ≡ true
      → find_links kv qt src indexes fs none ≡ ok none
  unfolding find_links
  find_links-plain indexes end h = refl
  find_links-plain indexes (field k q fs) h = ground (arith, find_links-plain indexes fs)

  select-satisfying :
      (junk : Bool) (query : Fields) (candidates : Reply)
      → well_formed query ≡ true
      → select kv qt src junk query candidates ≡ (ok tt, satisfying qt query candidates)
  unfolding select
  select-satisfying junk query [] h = refl
  select-satisfying junk query ((v, id) ∷ candidates) h = ground (
    arith,
    check_valid_r-matches qt junk query v true h,
    select-satisfying junk query candidates h,
  )

  -- A well-formed query that asks for no ids and has no key with an index is answered by a search of
  -- all documents: it finds, in their order, the objects that satisfy the query, with their ids, and
  -- the options are applied to these.
  pub find-satisfying :
      (junk : Bool) (query options : Fields)
      → well_formed query ≡ true
      → is_plain (get_indexes kv qt src) query ≡ true
      → find kv qt src junk query options
        ≡ (ok tt, apply_options qt options (satisfying qt query (all_documents kv qt src)))
  unfolding find
  find-satisfying junk query options h p = ground (
    arith,
    find_links-plain (get_indexes kv qt src) query p,
    select-satisfying junk query (all_documents kv qt src) h,
  )
