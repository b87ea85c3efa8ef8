-- ===== src/Query/Meaning.antt =====
-- What a query means: a truth value by `and`, `or` and `not`, with no errors and no early exits.
use qdocdb.Prelude.{
  [], ◌∷◌, codes, ◌==◌, sym, starts_with, ◌≡◌, refl, Bool, true, false, not, ◌&&◌, ◌||◌, Text,
  arith, if◌then◌else◌,
}
use qdocdb.Json.{Json, Items, Fields, bool, array, object, nil, cons, end, field, is_undefined}
use qdocdb.Qt.{Qt}
use qdocdb.Utils.{get_json_value_by_path, compare}
use qdocdb.Collection.{Result, ok, err, error_query}
use qdocdb.Query.{
  is_operator, is_comparison, ◌>>=◌, by_key, has_item, check_exists, check_in, check_equal,
  check_valid_r, check_fields, check_or, check_any, check_and, check_all, check_not, check_path,
}

-- The operator `$exists` has a truth value, `$in` an array, `$or` and `$and` an array of queries;
-- every other key that begins with `$` is `$not` or a comparison.
unfoldable mutual
  pub well_formed : Fields → Bool
  well_formed end = true
  well_formed (field k q fs) =
      by_key k (is_flag q) true (is_list q) (well_formed_list q) (well_formed_list q)
        (well_formed_part q) false (well_formed_part q)
      && well_formed fs

  is_flag : Json → Bool
  is_flag (bool b) = true
  is_flag _ = false

  is_list : Json → Bool
  is_list (array xs) = true
  is_list _ = false

  well_formed_list : Json → Bool
  well_formed_list (array xs) = well_formed_items xs
  well_formed_list _ = false

  well_formed_items : Items → Bool
  well_formed_items nil = true
  well_formed_items (cons x xs) = well_formed_query x && well_formed_items xs

  well_formed_query : Json → Bool
  well_formed_query (object fs) = well_formed fs
  well_formed_query _ = false

  well_formed_part : Json → Bool
  well_formed_part (object fs) = well_formed fs
  well_formed_part _ = true

-- What a key of a query asks for: an operator by its name, or a path.
unfoldable by_name : Text → (exists compares in_list or_list and_list not_part path : Bool) → Bool
by_name k exists compares in_list or_list and_list not_part path =
    if k == codes "$exists"
    then exists
    else if k == codes "$gt" || k == codes "$gte" || k == codes "$lt" || k == codes "$lte"
    then compares
    else if k == codes "$in"
    then in_list
    else if k == codes "$or"
    then or_list
    else if k == codes "$and"
    then and_list
    else if k == codes "$not"
    then not_part
    else if starts_with (codes "$") k
    then false
    else path

by_key-name :
    (k : Text) (e c i o a n p : Bool) → by_key k e c i o a n false p ≡ by_name k e c i o a n p
unfolding by_key by_name is_operator is_comparison ◌==◌ starts_with
by_key-name [] e c i o a n p = refl
by_key-name (x ∷ k) e c i o a n p = ground arith

module _ (qt : Qt) where
  mutual
    -- All members of the query hold of the document.
    pub matches : Fields → Json → Bool
    matches end doc = true
    matches (field k q fs) doc =
        by_name k (exists_as q doc) (compare qt doc q k) (among q doc) (some_match q doc)
          (all_match q doc) (not (part_matches q doc))
          (value_matches q (get_json_value_by_path qt doc k))
        && matches fs doc

    exists_as : Json → Json → Bool
    exists_as (bool b) doc = if is_undefined doc then not b else b
    exists_as _ doc = false

    among : Json → Json → Bool
    among (array xs) doc = has_item qt doc xs
    among _ doc = false

    some_match : Json → Json → Bool
    some_match (array xs) doc = any_matches xs doc
    some_match _ doc = false

    any_matches : Items → Json → Bool
    any_matches nil doc = false
    any_matches (cons x xs) doc = part_matches x doc || any_matches xs doc

    all_match : Json → Json → Bool
    all_match (array xs) doc = each_matches xs doc
    all_match _ doc = false

    each_matches : Items → Json → Bool
    each_matches nil doc = true
    each_matches (cons x xs) doc = part_matches x doc && each_matches xs doc

    part_matches : Json → Json → Bool
    part_matches (object fs) doc = matches fs doc
    part_matches _ doc = true

    -- A query of its own holds of the value; any other value is equal to it or is in its array.
    value_matches : Json → Json → Bool
    value_matches (object fs) doc = matches fs doc
    value_matches q doc = check_equal qt q doc

-- Where each case that is well formed has a result, so has the case of the key.
by_key-ok :
    (k : Text) (c : Bool) {e i o a n p : Bool} {we wi wo wa wn wp : Bool}
    {re ri ro ra rn rp : Result Bool}
    → (we ≡ true → re ≡ ok e)
    → (wi ≡ true → ri ≡ ok i)
    → (wo ≡ true → ro ≡ ok o)
    → (wa ≡ true → ra ≡ ok a)
    → (wn ≡ true → rn ≡ ok n)
    → (wp ≡ true → rp ≡ ok p)
    → by_key k we true wi wo wa wn false wp ≡ true
    → by_key k re (ok c) ri ro ra rn (err error_query) rp ≡ ok (by_name k e c i o a n p)
unfolding by_key
by_key-ok k c {e} {i} {o} {a} {n} {p} he hi ho ha hn hp w =
    rw (sym (by_key-name k e c i o a n p)) (ground arith)

-- One round of the loop over the keys, and the rounds that follow.
conjunction :
    (valid : Bool) (r : Result Bool) (rounds : Bool → Result Bool) {m rest wr ws : Bool}
    → (wr ≡ true → r ≡ ok m)
    → ((v : Bool) → ws ≡ true → rounds v ≡ ok (v && rest))
    → wr && ws ≡ true
    → (r >>= λ valid1. rounds (valid && valid1)) ≡ ok (valid && (m && rest))
conjunction valid r rounds {m = m} hr hs h = ground (arith, hr, hs (valid && m))

module _ (qt : Qt) (junk : Bool) where
  mutual
    unfolding check_valid_r matches well_formed check_exists check_in

    fields_lem :
        (fs : Fields) (doc : Json) (valid : Bool)
        → well_formed fs ≡ true
        → check_fields qt junk fs doc valid ≡ ok (valid && matches qt fs doc)
    fields_lem end doc valid h = ground arith
    fields_lem (field k q fs) doc valid h =
        conjunction valid _ (check_fields qt junk fs doc)
          (by_key-ok k (compare qt doc q k) (exists_lem q doc) (in_lem q doc) (or_lem q doc)
            (and_lem q doc) (not_lem q doc) (path_lem q (get_json_value_by_path qt doc k)))
          (fields_lem fs doc) h

    exists_lem : (q doc : Json) → is_flag q ≡ true → check_exists q doc ≡ ok (exists_as qt q doc)
    exists_lem (bool b) doc h = refl
    exists_lem _ doc h = ground arith

    in_lem : (q doc : Json) → is_list q ≡ true → check_in qt q doc ≡ ok (among qt q doc)
    in_lem (array xs) doc h = refl
    in_lem _ doc h = ground arith

    or_lem :
        (q doc : Json)
        → well_formed_list q ≡ true
        → check_or qt junk q doc ≡ ok (some_match qt q doc)
    or_lem (array xs) doc h = any_lem xs doc h
    or_lem _ doc h = ground arith

    any_lem :
        (xs : Items) (doc : Json)
        → well_formed_items xs ≡ true
        → check_any qt junk xs doc ≡ ok (any_matches qt xs doc)
    any_lem nil doc h = refl
    any_lem (cons x xs) doc h = ground (arith, query_lem x doc junk, any_lem xs doc)

    and_lem :
        (q doc : Json)
        → well_formed_list q ≡ true
        → check_and qt junk q doc ≡ ok (all_match qt q doc)
    and_lem (array xs) doc h = all_lem xs doc h
    and_lem _ doc h = ground arith

    all_lem :
        (xs : Items) (doc : Json)
        → well_formed_items xs ≡ true
        → check_all qt junk xs doc ≡ ok (each_matches qt xs doc)
    all_lem nil doc h = refl
    all_lem (cons x xs) doc h = ground (arith, query_lem x doc junk, all_lem xs doc)

    query_lem :
        (q doc : Json) (valid : Bool)
        → well_formed_query q ≡ true
        → check_valid_r qt junk q doc valid ≡ ok (part_matches qt q doc)
    query_lem (object fs) doc valid h = fields_lem fs doc true h
    query_lem _ doc valid h = ground arith

    not_lem :
        (q doc : Json)
        → well_formed_part q ≡ true
        → check_not qt junk q doc ≡ ok (not (part_matches qt q doc))
    not_lem (object fs) doc h = ground (arith, fields_lem fs doc true h)
    not_lem _ doc h = ground arith

    path_lem :
        (q doc : Json)
        → well_formed_part q ≡ true
        → check_path qt junk q doc ≡ ok (value_matches qt q doc)
    path_lem (object fs) doc h = fields_lem fs doc true h
    path_lem _ doc h = ground arith

  -- A well-formed query never fails: whatever `valid` and the uninitialised variable hold before,
  -- `checkValidR` answers whether the document satisfies the query.
  pub check_valid_r-matches :
      (fs : Fields) (doc : Json) (valid : Bool)
      → well_formed fs ≡ true
      → check_valid_r qt junk (object fs) doc valid ≡ ok (matches qt fs doc)
  unfolding check_valid_r
  check_valid_r-matches fs doc valid h = fields_lem fs doc true h
