-- ===== src/Utils/Path.antt =====
-- The laws of QDocUtils::getJsonValueByPath: it follows the components of a path one by one.
use qdocdb.Prelude.{
  ℕ, zero, suc, ◌≤◌, ◌≡◌, refl, ◌∙◌, Option, ℤ, none, some, pos, negsuc, get_elem?, Bool, true,
  false, not, ◌&&◌, List, [], ◌∷◌, ◌++◌, Text, eqb, length, arith,
}
use qdocdb.Json.{
  Items, nil, cons, value, to_list, Json, undefined, null, bool, double, string, array, object,
}
use qdocdb.Qt.{Qt}
use qdocdb.Utils.{item_at, first_key, next_path, at_key, by_path, get_json_value_by_path}

length-next_path : (c : ℕ) (p : Text) → length (next_path (c ∷ p)) ≤ length p
unfolding next_path
length-next_path c [] = ground arith
length-next_path c (d ∷ p) = ground (arith, length-next_path d p)

-- Any fuel that is no less than the length of the path gives the same value.
by_path_fuel :
    (qt : Qt) (f g : ℕ) (v : Json) (p : Text)
    → length p ≤ f
    → length p ≤ g
    → by_path qt f v p ≡ by_path qt g v p
unfolding by_path
by_path_fuel qt f g v [] h k = ground arith
by_path_fuel qt zero g v (c ∷ p) h k = absurd (omega arith)
by_path_fuel qt (suc f) zero v (c ∷ p) h k = absurd (omega arith)
by_path_fuel qt (suc f) (suc g) v (c ∷ p) h k = ground (
  arith,
  by_path_fuel qt f g (at_key qt v (first_key (c ∷ p))) (next_path (c ∷ p)),
  length-next_path c p,
)

by_path_undefined : (qt : Qt) (f : ℕ) (p : Text) → by_path qt f undefined p ≡ undefined
unfolding by_path
by_path_undefined qt f [] = ground arith
by_path_undefined qt zero (c ∷ p) = refl
by_path_undefined qt (suc f) (c ∷ p) = refl

get_undefined : (qt : Qt) (p : Text) → get_json_value_by_path qt undefined p ≡ undefined
unfolding get_json_value_by_path
get_undefined qt p = by_path_undefined qt (length p) p

-- The recursive equation of the source, with no fuel.
get_step :
    (qt : Qt) (v : Json) (c : ℕ) (p : Text)
    → get_json_value_by_path qt v (c ∷ p)
      ≡ get_json_value_by_path qt (at_key qt v (first_key (c ∷ p))) (next_path (c ∷ p))
unfolding get_json_value_by_path by_path at_key
get_step qt undefined c p =
    ground (arith, by_path_undefined qt (length (next_path (c ∷ p))) (next_path (c ∷ p)))
get_step qt null c p =
    ground (arith, by_path_undefined qt (length (next_path (c ∷ p))) (next_path (c ∷ p)))
get_step qt (bool b) c p =
    ground (arith, by_path_undefined qt (length (next_path (c ∷ p))) (next_path (c ∷ p)))
get_step qt (double d) c p =
    ground (arith, by_path_undefined qt (length (next_path (c ∷ p))) (next_path (c ∷ p)))
get_step qt (string s) c p =
    ground (arith, by_path_undefined qt (length (next_path (c ∷ p))) (next_path (c ∷ p)))
get_step qt (array xs) c p =
    by_path_fuel qt (length p) (length (next_path (c ∷ p))) _ (next_path (c ∷ p))
      (length-next_path c p) (omega arith)
get_step qt (object fs) c p =
    by_path_fuel qt (length p) (length (next_path (c ∷ p))) _ (next_path (c ∷ p))
      (length-next_path c p) (omega arith)

abbrev no_dot : Text → Bool
no_dot [] = true
no_dot (c ∷ k) = not (eqb c b'.') && no_dot k

-- A component of a path: not empty, and without a dot.
abbrev is_component : Text → Bool
is_component [] = false
is_component (c ∷ k) = no_dot (c ∷ k)

abbrev pub all_components : List Text → Bool
all_components [] = true
all_components (k ∷ ks) = is_component k && all_components ks

-- The components with dots between them.
abbrev pub join : List Text → Text
join [] = []
join (k ∷ []) = k
join (k ∷ l ∷ ls) = k ++ b'.' ∷ join (l ∷ ls)

abbrev pub or_undefined : Option Json → Json
or_undefined none = undefined
or_undefined (some v) = v

abbrev element : Items → Option ℤ → Json
element xs (some (pos i)) = or_undefined (get_elem? (to_list xs) i)
element xs _ = undefined

-- A member of an object, or the element of an array at the place that the component is a number of.
abbrev pub child : Qt → Json → Text → Json
child qt (object fs) k = value fs k
child qt (array xs) k = element xs (qt.text_to_int k)
child qt _ k = undefined

item_at-child : (xs : Items) (i : ℕ) → item_at xs i ≡ or_undefined (get_elem? (to_list xs) i)
unfolding item_at to_list
item_at-child nil i = refl
item_at-child (cons x xs) zero = refl
item_at-child (cons x xs) (suc i) = item_at-child xs i

at_key-element :
    (xs : Items) (o : Option ℤ)
    → elim o [ none ↦ undefined | some (pos i) ↦ item_at xs i | some (negsuc i) ↦ undefined ]
      ≡ element xs o
at_key-element xs none = refl
at_key-element xs (some (pos i)) = item_at-child xs i
at_key-element xs (some (negsuc i)) = refl

at_key-child : (qt : Qt) (v : Json) (k : Text) → at_key qt v k ≡ child qt v k
unfolding at_key
at_key-child qt (object fs) k = refl
at_key-child qt (array xs) k = at_key-element xs (qt.text_to_int k)
at_key-child qt v k = ground arith

-- The value reached by one component after the other.
abbrev pub follow : Qt → Json → List Text → Json
follow qt v [] = v
follow qt v (k ∷ ks) = follow qt (child qt v k) ks

first_key-dot : (k r : Text) → no_dot k ≡ true → first_key (k ++ b'.' ∷ r) ≡ k
unfolding first_key
first_key-dot [] r h = refl
first_key-dot (c ∷ k) r h = ground (arith, first_key-dot k r)

next_path-dot : (k r : Text) → no_dot k ≡ true → next_path (k ++ b'.' ∷ r) ≡ r
unfolding next_path
next_path-dot [] r h = refl
next_path-dot (c ∷ k) r h = ground (arith, next_path-dot k r)

first_key_self : (k : Text) → no_dot k ≡ true → first_key k ≡ k
unfolding first_key
first_key_self [] h = refl
first_key_self (c ∷ k) h = ground (arith, first_key_self k)

next_path_end : (k : Text) → no_dot k ≡ true → next_path k ≡ []
unfolding next_path
next_path_end [] h = refl
next_path_end (c ∷ k) h = ground (arith, next_path_end k)

get_nil : (qt : Qt) (v : Json) → get_json_value_by_path qt v [] ≡ v
unfolding get_json_value_by_path by_path
get_nil qt v = refl

-- For components that are not empty and hold no dot, the value at the path that joins them by dots
-- is the value that is reached by following the components in turn through objects and arrays.
pub get-join :
    (qt : Qt) (v : Json) (ks : List Text)
    → all_components ks ≡ true
    → get_json_value_by_path qt v (join ks) ≡ follow qt v ks
get-join qt v [] h = get_nil qt v
get-join qt v ([] ∷ ks) h = cc
get-join qt v ((c ∷ k) ∷ []) h =
    get_step qt v c k
    ∙ rw (first_key_self (c ∷ k) (ground arith), next_path_end (c ∷ k) (ground arith))
        (get_nil qt (at_key qt v (c ∷ k)) ∙ at_key-child qt v (c ∷ k))
get-join qt v ((c ∷ k) ∷ l ∷ ls) h =
    get_step qt v c (k ++ b'.' ∷ join (l ∷ ls))
    ∙ rw
        (
          first_key-dot (c ∷ k) (join (l ∷ ls)) (ground arith),
          next_path-dot (c ∷ k) (join (l ∷ ls)) (ground arith),
          at_key-child qt v (c ∷ k),
        )
        (get-join qt (child qt v (c ∷ k)) (l ∷ ls) (ground arith))
