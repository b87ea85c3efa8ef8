-- ===== src/Serialize/RoundTrip.antt =====
-- QDocSerialize: what is read back after it was written.
use qdocdb.Prelude.{◌≡◌, refl, ap, true, List, Text, Bytes, assoc}
use qdocdb.Json.{Json, undefined, null, bool, double, string, array, object, to_object}
use qdocdb.Qt.{Qt, QtLaws, is_storable}
use qdocdb.Serialize.{
  marshal, unmarshal, doc_array, marshal_indexes, unmarshal_indexes, marshal_index_value,
  unmarshal_index_value, marshal_snapshots_value, unmarshal_snapshots_value,
}

-- What a value becomes when it is written and read: a double becomes undefined.
abbrev pub reread : Json → Json
reread (double d) = undefined
reread undefined = undefined
reread null = null
reread (bool b) = bool b
reread (string s) = string s
reread (array xs) = array xs
reread (object fs) = object fs

module _ (qt : Qt) (laws : QtLaws qt) where
  -- Every value that is not undefined and has no undefined value inside is read back as it was
  -- written, but for a double, which is read back as the undefined value.
  pub unmarshal-marshal : (v : Json) → is_storable v ≡ true → unmarshal qt (marshal qt v) ≡ reread v
  unfolding marshal unmarshal is_storable
  unmarshal-marshal undefined h = refl
  unmarshal-marshal null h = refl
  unmarshal-marshal (bool b) h = ap bool (laws.stream_bool b)
  unmarshal-marshal (double d) h = refl
  unmarshal-marshal (string s) h = ap string (laws.utf8 s)
  unmarshal-marshal (array xs) h = ap (λ d. array (doc_array d)) (laws.binary_array xs h)
  unmarshal-marshal (object fs) h = ap (λ d. object (to_object d)) (laws.binary_object fs h)

  -- Index tables, link lists and snapshot lists survive being written and read: the table as a map.
  pub unmarshal-marshal_lists :
      (h : List (Text × Text)) (links : List Bytes) (snapshots : List Text) (k : Text)
      → (assoc k (unmarshal_indexes qt (marshal_indexes qt h)) ≡ assoc k h)
        × (unmarshal_index_value qt (marshal_index_value qt links) ≡ links)
        × (unmarshal_snapshots_value qt (marshal_snapshots_value qt snapshots) ≡ snapshots)
  unfolding marshal_indexes unmarshal_indexes marshal_index_value unmarshal_index_value
      marshal_snapshots_value unmarshal_snapshots_value
  unmarshal-marshal_lists h links snapshots k =
      (laws.stream_hash h k, laws.stream_byte_arrays links, laws.stream_texts snapshots)
