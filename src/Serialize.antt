-- ===== src/Serialize.antt =====
-- qdocdb/qdocutils.cpp, class QDocSerialize: values, indexes, index values and snapshot lists as
-- byte arrays, two bytes of type before a body.
pub mod RoundTrip
use qdocdb.Prelude.{ℕ, Bool, List, [], ◌∷◌, ◌++◌, Text, Bytes, eqb, if◌then◌else◌}
use qdocdb.Json.{
  Json, Items, Fields, undefined, null, bool, double, string, array, object, nil, end, to_object,
}
use qdocdb.Qt.{Qt}

-- enum levelType
abbrev pub level_value : ℕ
level_value = 0

abbrev pub level_json_document : ℕ
level_json_document = 1

abbrev pub level_indexes : ℕ
level_indexes = 2

abbrev pub level_index_value : ℕ
level_index_value = 3

abbrev pub level_snapshots_value : ℕ
level_snapshots_value = 4

-- enum Type
abbrev pub type_undefined : ℕ
type_undefined = 0

abbrev pub type_null : ℕ
type_null = 1

abbrev pub type_bool : ℕ
type_bool = 2

abbrev pub type_double : ℕ
type_double = 3

abbrev pub type_string : ℕ
type_string = 4

abbrev pub type_array : ℕ
type_array = 5

abbrev pub type_object : ℕ
type_object = 6

-- For a double the source compares `bytes[1]` with the type and does not assign it, so that the
-- type stays the initial one, `type_undefined`.
unfoldable pub marshal : Qt → Json → Bytes
marshal qt (array xs) = level_json_document ∷ type_array ∷ qt.to_binary_data (array xs)
marshal qt (object fs) = level_json_document ∷ type_object ∷ qt.to_binary_data (object fs)
marshal qt (bool b) = level_value ∷ type_bool ∷ qt.write_bool b
marshal qt (double d) = level_value ∷ type_undefined ∷ qt.write_double d
marshal qt (string s) = level_value ∷ type_string ∷ qt.to_utf8 s
marshal qt null = level_value ∷ type_null ∷ []
marshal qt undefined = level_value ∷ type_undefined ∷ []

-- `jsonDoc.array()`: empty, if the document is no array.
unfoldable pub doc_array : Json → Items
doc_array (array xs) = xs
doc_array _ = nil

unfoldable pub unmarshal_document : Qt → ℕ → Bytes → Json
unfolding doc_array to_object
unmarshal_document qt t body =
    let doc = qt.from_binary_data body in
    if eqb t type_array
    then array (doc_array doc)
    else if eqb t type_object
    then object (to_object doc)
    else null

unfoldable pub unmarshal_value : Qt → ℕ → Bytes → Json
unmarshal_value qt t body =
    if eqb t type_undefined
    then undefined
    else if eqb t type_null
    then null
    else if eqb t type_bool
    then bool (qt.read_bool body)
    else if eqb t type_double
    then double (qt.read_double body)
    else if eqb t type_string
    then string (qt.from_utf8 body)
    else null

unfoldable pub unmarshal : Qt → Bytes → Json
unfolding unmarshal_document unmarshal_value
unmarshal qt [] = null
unmarshal qt (l ∷ []) = null
unmarshal qt (l ∷ t ∷ body) =
    if eqb l level_json_document then unmarshal_document qt t body else unmarshal_value qt t body

unfoldable pub marshal_indexes : Qt → List (Text × Text) → Bytes
marshal_indexes qt h = level_indexes ∷ 0 ∷ qt.write_hash h

unfoldable pub unmarshal_indexes : Qt → Bytes → List (Text × Text)
unmarshal_indexes qt [] = []
unmarshal_indexes qt (l ∷ []) = []
unmarshal_indexes qt (l ∷ t ∷ body) = if eqb l level_indexes then qt.read_hash body else []

unfoldable pub marshal_index_value : Qt → List Bytes → Bytes
marshal_index_value qt l = level_index_value ∷ 0 ∷ qt.write_byte_arrays l

unfoldable pub unmarshal_index_value : Qt → Bytes → List Bytes
unmarshal_index_value qt [] = []
unmarshal_index_value qt (l ∷ []) = []
unmarshal_index_value qt (l ∷ t ∷ body) =
    if eqb l level_index_value then qt.read_byte_arrays body else []

unfoldable pub marshal_snapshots_value : Qt → List Text → Bytes
marshal_snapshots_value qt l = level_snapshots_value ∷ 0 ∷ qt.write_texts l

unfoldable pub unmarshal_snapshots_value : Qt → Bytes → List Text
unmarshal_snapshots_value qt [] = []
unmarshal_snapshots_value qt (l ∷ []) = []
unmarshal_snapshots_value qt (l ∷ t ∷ body) =
    if eqb l level_snapshots_value then qt.read_texts body else []
