-- ===== src/Examples/Messages.antt =====
-- Examples for the link: two messages that arrive in three pieces.
use qdocdb.Prelude.{◌≡◌, refl, List, [], ◌∷◌, ◌++◌, Bytes, codes, some, arith}
use qdocdb.Collection.Iterator.{is_empty}
use qdocdb.Link.{Variants, VariantsLaws, write_int, marshal, arrive_all, new_link}
use qdocdb.Link.Framing.{received_of, arrive_all-received}

-- Maps that are their bytes.
abbrev byte_maps : Variants
byte_maps = record { Map = Bytes; empty = is_empty; write = λ m. m; read = λ b. b }

byte_maps-VariantsLaws : VariantsLaws byte_maps
byte_maps-VariantsLaws = record { read-write = λ m. refl }

abbrev messages : List Bytes
messages = codes "find" ∷ codes "insert" ∷ []

-- A piece that ends inside a length, and one that ends inside a message.
abbrev pieces : List Bytes
pieces = (4 ∷ 0 ∷ 0 ∷ []) ∷ (0 ∷ codes "fi") ∷ (codes "nd" ++ 6 ∷ 0 ∷ 0 ∷ 0 ∷ codes "insert") ∷ []

arrive_all-received_example :
    received_of byte_maps (arrive_all byte_maps pieces (new_link byte_maps)) ≡ some messages
arrive_all-received_example =
    arrive_all-received byte_maps byte_maps-VariantsLaws messages pieces
      (unfold is_empty in
        ((omega arith, omega arith, refl), ((omega arith, omega arith, refl), tt)))
      (unfold marshal write_int in refl)
