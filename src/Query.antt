-- ===== src/Query.antt =====
-- qdocdb/qdoccollection.cpp, QDocCollection::checkValidR: does a document satisfy a query? The
-- argument `curPath`, which only feeds itself, is left out.
pub mod Meaning
use qdocdb.Prelude.{
  ℕ, Bool, true, false, not, ◌&&◌, ◌||◌, List, [], ◌∷◌, Text, codes, eqb, ◌==◌, if◌then◌else◌,
}
use qdocdb.Json.{
  Json, Items, Fields, undefined, null, bool, double, string, array, object, nil, cons, end, field,
  json_eq, is_undefined,
}
use qdocdb.Qt.{Qt}
use qdocdb.Utils.{get_json_value_by_path, compare}
use qdocdb.Collection.{Result, ok, err, error_query}

infixl 5 ◌>>=◌
abbrev pub ◌>>=◌ {ℓ κ} : {A : Type ℓ} {B : Type κ} → Result A → (A → Result B) → Result B
ok a >>= f = f a
err e >>= f = err e

-- `key[0] == '$'`
unfoldable pub is_operator : Text → Bool
is_operator [] = false
is_operator (c ∷ k) = eqb c b'$'

unfoldable pub is_comparison : Text → Bool
is_comparison k = k == codes "$gt" || (k == codes "$gte" || (k == codes "$lt" || k == codes "$lte"))

-- The cases of a key, in the order of the source: the operators, any other key with a `$`, a path.
unfoldable pub by_key {ℓ} :
    {A : Type ℓ} → Text → (exists compares in_list or_list and_list not_part other path : A) → A
unfolding is_operator is_comparison
by_key k exists compares in_list or_list and_list not_part other path =
    if is_operator k
    then if k == codes "$exists"
      then exists
      else if is_comparison k
      then compares
      else if k == codes "$in"
      then in_list
      else if k == codes "$or"
      then or_list
      else if k == codes "$and"
      then and_list
      else if k == codes "$not"
      then not_part
      else other
    else path

unfoldable pub check_exists : Json → Json → Result Bool
check_exists (bool b) doc = ok (if is_undefined doc then not b else b)
check_exists _ doc = err error_query

module _ (qt : Qt) where
  abbrev pub same : Json → Json → Bool
  same = json_eq qt.double_eq

  -- Is a value among the elements of an array?
  unfoldable pub has_item : Json → Items → Bool
  has_item v nil = false
  has_item v (cons x xs) = same v x || has_item v xs

  unfoldable pub check_in : Json → Json → Result Bool
  check_in (array xs) doc = ok (has_item doc xs)
  check_in _ doc = err error_query

  -- A value that is no object is compared with the document's, or with the elements of its array.
  unfoldable pub check_equal : Json → Json → Bool
  check_equal q (array xs) = has_item q xs
  check_equal q doc = same doc q

-- `junk` is what the uninitialised `valid2` holds when an element of `$or` or `$and` is no object.
module _ (qt : Qt) (junk : Bool) where
  unfoldable mutual
    -- `checkValidR`, with the value of `valid` before the call: it stays if the query is no object.
    pub check_valid_r : Json → Json → Bool → Result Bool
    check_valid_r (object fs) doc valid = check_fields fs doc true
    check_valid_r _ doc valid = ok valid

    -- The loop over the keys.
    pub check_fields : Fields → Json → Bool → Result Bool
    check_fields end doc valid = ok valid
    check_fields (field k q fs) doc valid =
        by_key k (check_exists q doc) (ok (compare qt doc q k)) (check_in qt q doc) (check_or q doc)
          (check_and q doc) (check_not q doc) (err error_query)
          (check_path q (get_json_value_by_path qt doc k))
        >>= λ valid1. check_fields fs doc (valid && valid1)

    pub check_or : Json → Json → Result Bool
    check_or (array xs) doc = check_any xs doc
    check_or _ doc = err error_query

    -- The loop of `$or`, which ends at the first element that holds.
    pub check_any : Items → Json → Result Bool
    check_any nil doc = ok false
    check_any (cons x xs) doc =
        check_valid_r x doc junk >>= λ valid2. if valid2 then ok true else check_any xs doc

    pub check_and : Json → Json → Result Bool
    check_and (array xs) doc = check_all xs doc
    check_and _ doc = err error_query

    -- The loop of `$and`, which ends at the first element that fails.
    pub check_all : Items → Json → Result Bool
    check_all nil doc = ok true
    check_all (cons x xs) doc =
        check_valid_r x doc junk >>= λ valid2. if valid2 then check_all xs doc else ok false

    pub check_not : Json → Json → Result Bool
    check_not (object fs) doc = check_fields fs doc true >>= λ valid1. ok (not valid1)
    check_not _ doc = ok (not true)

    -- A key that is a path.
    pub check_path : Json → Json → Result Bool
    check_path (object fs) doc = check_fields fs doc true
    check_path q doc = ok (check_equal qt q doc)
