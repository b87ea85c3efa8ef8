-- ===== src/Qt.antt =====
-- What the sources use of Qt beyond its containers: text encodings, doubles, QDataStream and
-- QJsonDocument. `Qt` holds the operations and `QtLaws` the documented facts that proofs rely on.
pub mod Concrete
use qdocdb.Prelude.{ℕ, ℤ, ◌≡◌, Bool, true, ◌&&◌, Option, List, Text, Bytes, assoc, codes, ◌++◌}
use qdocdb.Json.{Json, Items, Fields, undefined, array, object, nil, cons, end, field}

pub record Qt : Type 0 where
  -- the comparisons of doubles, given by their bit patterns
  pub double_eq : ℕ → ℕ → Bool
  pub double_lt : ℕ → ℕ → Bool
  pub double_le : ℕ → ℕ → Bool
  -- QJsonValue::toInt of a double
  pub double_to_int : ℕ → ℤ
  -- QString::toInt(&ok, 10)
  pub text_to_int : Text → Option ℤ
  -- QByteArray::number(n, 16)
  pub to_hex : ℕ → Bytes
  pub to_local8bit : Text → Bytes
  pub to_latin1 : Text → Bytes
  pub from_latin1 : Bytes → Text
  pub to_utf8 : Text → Bytes
  pub from_utf8 : Bytes → Text
  -- QJsonDocument(v).toBinaryData() and fromBinaryData, for an array or an object
  pub to_binary_data : Json → Bytes
  pub from_binary_data : Bytes → Json
  -- QDataStream's << and >>
  pub write_bool : Bool → Bytes
  pub read_bool : Bytes → Bool
  pub write_double : ℕ → Bytes
  pub read_double : Bytes → ℕ
  pub write_hash : List (Text × Text) → Bytes
  pub read_hash : Bytes → List (Text × Text)
  pub write_byte_arrays : List Bytes → Bytes
  pub read_byte_arrays : Bytes → List Bytes
  pub write_texts : List Text → Bytes
  pub read_texts : Bytes → List Text

-- A value that a document can hold: `undefined` stands nowhere in it.
unfoldable mutual
  pub is_storable : Json → Bool
  is_storable undefined = Bool.false
  is_storable (array xs) = are_storable xs
  is_storable (object fs) = members_storable fs
  is_storable _ = true

  pub are_storable : Items → Bool
  are_storable nil = true
  are_storable (cons x xs) = is_storable x && are_storable xs

  pub members_storable : Fields → Bool
  members_storable end = true
  members_storable (field k v fs) = is_storable v && members_storable fs

-- Reading gives back what was written. A hash may come back in another order.
pub record QtLaws (qt : Qt) : Type 0 where
  pub double_asym : (a b : ℕ) → qt.double_lt a b ≡ true → qt.double_lt b a ≡ Bool.false
  -- the locale's encoding keeps ASCII characters
  pub local8bit_ascii :
      (s : Text) → qt.to_local8bit (codes "iv:" ++ s) ≡ codes "iv:" ++ qt.to_local8bit s
  pub utf8 : (s : Text) → qt.from_utf8 (qt.to_utf8 s) ≡ s
  pub binary_array :
      (xs : Items)
      → are_storable xs ≡ true
      → qt.from_binary_data (qt.to_binary_data (array xs)) ≡ array xs
  pub binary_object :
      (fs : Fields)
      → members_storable fs ≡ true
      → qt.from_binary_data (qt.to_binary_data (object fs)) ≡ object fs
  pub stream_bool : (b : Bool) → qt.read_bool (qt.write_bool b) ≡ b
  pub stream_hash :
      (h : List (Text × Text)) (k : Text) → assoc k (qt.read_hash (qt.write_hash h)) ≡ assoc k h
  pub stream_byte_arrays : (l : List Bytes) → qt.read_byte_arrays (qt.write_byte_arrays l) ≡ l
  pub stream_texts : (l : List Text) → qt.read_texts (qt.write_texts l) ≡ l
