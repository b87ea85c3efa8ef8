-- ===== src/Qt/Concrete.antt =====
-- An instance of `Qt` on which the model runs, and the proof that it keeps `QtLaws`: texts encode as
-- they are, doubles are natural numbers, and a stream writes lengths before contents.
use qdocdb.Prelude.{
  ℕ, zero, suc, ◌+◌, ◌-◌, ◌≤◌, ◌≡◌, refl, pos, Bool, true, false, Option, none, some, List, [], ◌∷◌,
  ◌++◌, ◌&&◌, ℤ, ap, ◌∙◌, ◌*◌, Text, Bytes, ltb, leb, eqb, assoc, take, drop, length, length-append,
  take-append, drop-append, arith, if◌then◌else◌,
}
use mathlib.Core.List.{append_assoc, append-nil}
use qdocdb.Json.{
  Json, Items, Fields, undefined, null, bool, double, string, array, object, nil, cons, end, field,
}
use qdocdb.Qt.{Qt, QtLaws}

infixl 5 ◌>>=◌
abbrev ◌>>=◌ : {A B : Type 0} → Option A → (A → Option B) → Option B
none >>= f = none
some a >>= f = f a

unfoldable mutual
  pub write : Json → List ℕ
  write undefined = 0 ∷ []
  write null = 1 ∷ []
  write (bool true) = 2 ∷ []
  write (bool false) = 3 ∷ []
  write (double d) = 4 ∷ d ∷ []
  write (string s) = 5 ∷ length s ∷ s
  write (array xs) = 6 ∷ write_items xs
  write (object fs) = 7 ∷ write_fields fs

  write_items : Items → List ℕ
  write_items nil = 0 ∷ []
  write_items (cons x xs) = 1 ∷ (write x ++ write_items xs)

  write_fields : Fields → List ℕ
  write_fields end = 0 ∷ 0 ∷ []
  write_fields (field k v fs) = 1 ∷ length k ∷ (k ++ (write v ++ write_fields fs))

unfoldable pub read_number : List ℕ → Option (Json × List ℕ)
read_number [] = none
read_number (d ∷ l) = some (double d, l)

unfoldable pub read_text : List ℕ → Option (Json × List ℕ)
read_text [] = none
read_text (n ∷ l) = some (string (take n l), drop n l)

unfoldable mutual
  pub read : ℕ → List ℕ → Option (Json × List ℕ)
  read zero l = none
  read (suc f) [] = none
  read (suc f) (t ∷ l) =
      if eqb t 0
      then some (undefined, l)
      else if eqb t 1
      then some (null, l)
      else if eqb t 2
      then some (bool true, l)
      else if eqb t 3
      then some (bool false, l)
      else if eqb t 4
      then read_number l
      else if eqb t 5
      then read_text l
      else if eqb t 6
      then (read_items f l >>= λ p. some (array p.0, p.1))
      else (read_fields f l >>= λ p. some (object p.0, p.1))

  read_items : ℕ → List ℕ → Option (Items × List ℕ)
  read_items zero l = none
  read_items (suc f) [] = none
  read_items (suc f) (t ∷ l) =
      if eqb t 0
      then some (nil, l)
      else (read f l >>= λ p. read_items f p.1 >>= λ q. some (cons p.0 q.0, q.1))

  read_fields : ℕ → List ℕ → Option (Fields × List ℕ)
  read_fields zero l = none
  read_fields (suc f) [] = none
  read_fields (suc f) (t ∷ []) = none
  read_fields (suc f) (t ∷ n ∷ l) =
      if eqb t 0
      then some (end, l)
      else (read f (drop n l) >>= λ p.
          read_fields f p.1 >>= λ q. some (field (take n l) p.0 q.0, q.1))

write-length : (v : Json) → 1 ≤ length (write v)
unfolding write
write-length undefined = omega arith
write-length null = omega arith
write-length (bool true) = omega arith
write-length (bool false) = omega arith
write-length (double d) = omega arith
write-length (string s) = omega arith
write-length (array xs) = omega arith
write-length (object fs) = omega arith

write_items-length : (xs : Items) → 1 ≤ length (write_items xs)
unfolding write_items
write_items-length nil = omega arith
write_items-length (cons x xs) = omega arith

write_fields-length : (fs : Fields) → 1 ≤ length (write_fields fs)
unfolding write_fields
write_fields-length end = omega arith
write_fields-length (field k v fs) = omega arith

mutual
  unfolding read write read_number read_text

  read-write :
      (f : ℕ) (v : Json) (r : List ℕ) → length (write v) ≤ f → read f (write v ++ r) ≡ some (v, r)
  read-write zero v r h = absurd (omega (arith, write-length v))
  read-write (suc f) undefined r h = refl
  read-write (suc f) null r h = refl
  read-write (suc f) (bool true) r h = refl
  read-write (suc f) (bool false) r h = refl
  read-write (suc f) (double d) r h = refl
  read-write (suc f) (string s) r h = ground (arith, take-append s r, drop-append s r)
  read-write (suc f) (array xs) r h = ground (arith, read_items-write f xs r)
  read-write (suc f) (object fs) r h = ground (arith, read_fields-write f fs r)

  read_items-write :
      (f : ℕ) (xs : Items) (r : List ℕ)
      → length (write_items xs) ≤ f
      → read_items f (write_items xs ++ r) ≡ some (xs, r)
  read_items-write zero xs r h = absurd (omega (arith, write_items-length xs))
  read_items-write (suc f) nil r h = refl
  read_items-write (suc f) (cons x xs) r h = ground (
    arith,
    append_assoc (write x) (write_items xs) r,
    length-append (write x) (write_items xs),
    read-write f x (write_items xs ++ r),
    read_items-write f xs r,
  )

  read_fields-write :
      (f : ℕ) (fs : Fields) (r : List ℕ)
      → length (write_fields fs) ≤ f
      → read_fields f (write_fields fs ++ r) ≡ some (fs, r)
  read_fields-write zero fs r h = absurd (omega (arith, write_fields-length fs))
  read_fields-write (suc f) end r h = refl
  read_fields-write (suc f) (field k v fs) r h = ground (
    arith,
    append_assoc k (write v ++ write_fields fs) r,
    append_assoc (write v) (write_fields fs) r,
    length-append k (write v ++ write_fields fs),
    length-append (write v) (write_fields fs),
    take-append k (write v ++ (write_fields fs ++ r)),
    drop-append k (write v ++ (write_fields fs ++ r)),
    read-write f v (write_fields fs ++ r),
    read_fields-write f fs r,
  )

unfoldable pub decode : Bytes → Json
decode l = elim (read (length l) l) [ none ↦ null | some p ↦ p.0 ]

decode-write : (v : Json) → decode (write v) ≡ v
unfolding decode
decode-write v = ground (arith, read-write (length (write v)) v [], append-nil (write v))

abbrev pub write_texts : List Text → Bytes
write_texts [] = []
write_texts (s ∷ l) = length s ∷ (s ++ write_texts l)

unfoldable pub read_texts : ℕ → Bytes → List Text
read_texts zero l = []
read_texts (suc f) [] = []
read_texts (suc f) (n ∷ l) = take n l ∷ read_texts f (drop n l)

read_texts-write :
    (f : ℕ) (l : List Text) → length (write_texts l) ≤ f → read_texts f (write_texts l) ≡ l
unfolding read_texts
read_texts-write zero [] h = refl
read_texts-write zero (s ∷ l) h = absurd (omega arith)
read_texts-write (suc f) [] h = refl
read_texts-write (suc f) (s ∷ l) h = ground (
  arith,
  take-append s (write_texts l),
  drop-append s (write_texts l),
  length-append s (write_texts l),
  read_texts-write f l,
)

abbrev pub texts_of : List (Text × Text) → List Text
texts_of [] = []
texts_of ((k, v) ∷ h) = k ∷ v ∷ texts_of h

unfoldable pub hash_of : List Text → List (Text × Text)
hash_of [] = []
hash_of (k ∷ []) = []
hash_of (k ∷ v ∷ l) = (k, v) ∷ hash_of l

hash_of-texts_of : (h : List (Text × Text)) → hash_of (texts_of h) ≡ h
unfolding hash_of
hash_of-texts_of [] = refl
hash_of-texts_of ((k, v) ∷ h) = rw (hash_of-texts_of h)

-- The decimal digits of a text, read.
unfoldable pub digits : ℕ → Text → Option ℕ
digits n [] = some n
digits n (c ∷ s) = if leb 48 c && leb c 57 then digits (n * 10 + (c - 48)) s else none

unfoldable pub to_number : Text → Option ℤ
to_number [] = none
to_number (c ∷ s) = elim (digits 0 (c ∷ s)) [ none ↦ none | some n ↦ some (pos n) ]

abbrev pub read_flag : Bytes → Bool
read_flag [] = false
read_flag (n ∷ l) = eqb n 1

abbrev pub write_flag : Bool → Bytes
write_flag true = 1 ∷ []
write_flag false = 0 ∷ []

read_flag-write_flag : (b : Bool) → read_flag (write_flag b) ≡ b
read_flag-write_flag true = refl
read_flag-write_flag false = refl

abbrev pub read_first : Bytes → ℕ
read_first [] = 0
read_first (n ∷ l) = n

abbrev pub concrete_qt : Qt
concrete_qt = record {
  double_eq = eqb;
  double_lt = ltb;
  double_le = leb;
  double_to_int = λ d. pos d;
  text_to_int = to_number;
  to_hex = λ n. n ∷ [];
  to_local8bit = λ s. s;
  to_latin1 = λ s. s;
  from_latin1 = λ s. s;
  to_utf8 = λ s. s;
  from_utf8 = λ s. s;
  to_binary_data = write;
  from_binary_data = decode;
  write_bool = write_flag;
  read_bool = read_flag;
  write_double = λ d. d ∷ [];
  read_double = read_first;
  write_hash = λ h. write_texts (texts_of h);
  read_hash = λ l. hash_of (read_texts (length l) l);
  write_byte_arrays = write_texts;
  read_byte_arrays = λ l. read_texts (length l) l;
  write_texts = write_texts;
  read_texts = λ l. read_texts (length l) l;
}

pub concrete-QtLaws : QtLaws concrete_qt
concrete-QtLaws = record {
  double_asym = λ a b h. ground arith;
  local8bit_ascii = λ s. refl;
  utf8 = λ s. refl;
  binary_array = λ xs h. decode-write (array xs);
  binary_object = λ fs h. decode-write (object fs);
  stream_bool = read_flag-write_flag;
  stream_hash = λ h k. ap (assoc k) (
      ap hash_of (read_texts-write (length (write_texts (texts_of h))) (texts_of h) (omega arith))
      ∙ hash_of-texts_of h);
  stream_byte_arrays = λ l. read_texts-write (length (write_texts l)) l (omega arith);
  stream_texts = λ l. read_texts-write (length (write_texts l)) l (omega arith);
}
