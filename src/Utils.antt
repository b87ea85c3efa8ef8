-- ===== src/Utils.antt =====
-- qdocdb/qdocutils.cpp, class QDocUtils: values by path, comparison, and the intersection of two
-- lists of links.
pub mod Path
pub mod Multiply
use qdocdb.Prelude.{
  ℕ, zero, suc, ◌+◌, ℤ, pos, negsuc, Bool, false, not, ◌&&◌, Option, none, some, List, [], ◌∷◌,
  Text, Bytes, codes, eqb, ◌==◌, list_lt, contains, length, if◌then◌else◌,
}
use qdocdb.Json.{Json, Items, undefined, double, string, array, object, nil, cons, value}
use qdocdb.Qt.{Qt}

-- `path.mid(0, path.indexOf("."))`: all of the path if it has no dot.
unfoldable pub first_key : Text → Text
first_key [] = []
first_key (c ∷ p) = let rest = first_key p in if eqb c b'.' then [] else c ∷ rest

-- What follows the first dot, or nothing.
unfoldable pub next_path : Text → Text
next_path [] = []
next_path (c ∷ p) = let rest = next_path p in if eqb c b'.' then p else rest

-- `QJsonArray::at`, undefined out of range.
unfoldable pub item_at : Items → ℕ → Json
item_at nil i = undefined
item_at (cons x xs) zero = x
item_at (cons x xs) (suc i) = item_at xs i

-- One component of a path: a member of an object, or an element of an array.
unfoldable pub at_key : Qt → Json → Text → Json
unfolding value item_at
at_key qt (object fs) k = value fs k
at_key qt (array xs) k = elim (qt.text_to_int k) [
  | none ↦ undefined
  | some (pos i) ↦ item_at xs i
  | some (negsuc i) ↦ undefined
]
at_key qt _ k = undefined

-- Each round drops a component, so the length of the path is fuel enough.
unfoldable pub by_path : Qt → ℕ → Json → Text → Json
by_path qt fuel v [] = v
by_path qt zero v (c ∷ p) = undefined
by_path qt (suc fuel) v (c ∷ p) =
    let next = by_path qt fuel (at_key qt v (first_key (c ∷ p))) (next_path (c ∷ p)) in
    elim v [ object fs ↦ next | array xs ↦ next | _ ↦ undefined ]

unfoldable pub get_json_value_by_path : Qt → Json → Text → Json
get_json_value_by_path qt v path = by_path qt (length path) v path

unfoldable pub compare_doubles : Qt → ℕ → ℕ → Text → Bool
compare_doubles qt a b oper =
    if oper == codes "$gt"
    then qt.double_lt b a
    else if oper == codes "$gte"
    then qt.double_le b a
    else if oper == codes "$lt"
    then qt.double_lt a b
    else if oper == codes "$lte"
    then qt.double_le a b
    else false

unfoldable pub compare_texts : Text → Text → Text → Bool
compare_texts a b oper =
    if oper == codes "$gt"
    then list_lt b a
    else if oper == codes "$gte"
    then not (list_lt a b)
    else if oper == codes "$lt"
    then list_lt a b
    else if oper == codes "$lte"
    then not (list_lt b a)
    else false

unfoldable pub compare : Qt → Json → Json → Text → Bool
unfolding compare_doubles compare_texts
compare qt (double a) (double b) oper = compare_doubles qt a b oper
compare qt (string a) (string b) oper = compare_texts a b oper
compare qt _ _ oper = false

-- `erase` leaves `ita` invalid and the loop goes on with it, which is undefined behaviour: `none`.
unfoldable pub multiply : List Bytes → List Bytes → Option (List Bytes)
multiply [] b = some []
multiply (x ∷ a) b =
    let rest = multiply a b in
    if contains x b then elim rest [ none ↦ none | some l ↦ some (x ∷ l) ] else none
