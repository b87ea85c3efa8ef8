-- ===== src/Json.antt =====
-- QJsonValue, QJsonArray and QJsonObject as the sources use them (Qt's qjson classes).
use qdocdb.Prelude.{
  ℕ, Bool, true, false, ◌&&◌, ◌||◌, List, [], ◌∷◌, Text, ◌==◌, list_lt, if◌then◌else◌,
}

mutual
  -- A double is its 64-bit pattern; what the code does with one is a field of `Qt`.
  pub data Json : Type 0 where
    undefined : Json
    null : Json
    bool : Bool → Json
    double : ℕ → Json
    string : Text → Json
    array : Items → Json
    object : Fields → Json

  pub data Items : Type 0 where
    nil : Items
    cons : Json → Items → Items

  -- The members of an object, in the order of the keys.
  pub data Fields : Type 0 where
    end : Fields
    field : Text → Json → Fields → Fields

unfoldable pub value : Fields → Text → Json
value end k = undefined
value (field j v fs) k = if j == k then v else value fs k

unfoldable pub has_key : Fields → Text → Bool
has_key end k = false
has_key (field j v fs) k = j == k || has_key fs k

-- QJsonObject::insert of a value that is not undefined.
unfoldable pub insert_field : Text → Json → Fields → Fields
insert_field k v end = field k v end
insert_field k v (field j w fs) =
    if j == k
    then field k v fs
    else if list_lt k j
    then field k v (field j w fs)
    else field j w (insert_field k v fs)

unfoldable pub is_object : Json → Bool
is_object (object fs) = true
is_object _ = false

unfoldable pub is_array : Json → Bool
is_array (array xs) = true
is_array _ = false

unfoldable pub is_undefined : Json → Bool
is_undefined undefined = true
is_undefined _ = false

-- `toObject()`: of what is no object, the empty one.
unfoldable pub to_object : Json → Fields
to_object (object fs) = fs
to_object _ = end

unfoldable pub to_string : Json → Text
to_string (string s) = s
to_string _ = []

unfoldable pub to_bool : Json → Bool
to_bool (bool b) = b
to_bool _ = false

unfoldable pub to_list : Items → List Json
to_list nil = []
to_list (cons x xs) = x ∷ to_list xs

unfoldable pub of_list : List Json → Items
of_list [] = nil
of_list (x ∷ xs) = cons x (of_list xs)

-- `==`, with the equality of doubles as a parameter.
module _ (double_eq : ℕ → ℕ → Bool) where
  unfoldable mutual
    pub json_eq : Json → Json → Bool
    json_eq undefined undefined = true
    json_eq null null = true
    json_eq (bool true) (bool b) = b
    json_eq (bool false) (bool true) = false
    json_eq (bool false) (bool false) = true
    json_eq (double a) (double b) = double_eq a b
    json_eq (string s) (string t) = s == t
    json_eq (array xs) (array ys) = items_eq xs ys
    json_eq (object fs) (object gs) = fields_eq fs gs
    json_eq _ _ = false

    pub items_eq : Items → Items → Bool
    items_eq nil nil = true
    items_eq (cons x xs) (cons y ys) = json_eq x y && items_eq xs ys
    items_eq _ _ = false

    pub fields_eq : Fields → Fields → Bool
    fields_eq end end = true
    fields_eq (field k v fs) (field j w gs) = k == j && (json_eq v w && fields_eq fs gs)
    fields_eq _ _ = false
