-- ===== src/Utils/Multiply.antt =====
-- QDocUtils::multiply: when it has a result, and which.
use qdocdb.Prelude.{
  ◌≡◌, refl, Bool, true, ◌&&◌, none, some, List, [], ◌∷◌, Bytes, contains, arith, if◌then◌else◌,
}
use qdocdb.Utils.{multiply}

abbrev pub all_in : List Bytes → List Bytes → Bool
all_in [] b = true
all_in (x ∷ a) b = contains x b && all_in a b

-- The intersection of two lists of links is defined exactly if every link of the first is in the
-- second, and then it is the first list; a link that is to be taken out ends in undefined behaviour.
pub multiply-all_in : (a b : List Bytes) → multiply a b ≡ (if all_in a b then some a else none)
unfolding multiply
multiply-all_in [] b = refl
multiply-all_in (x ∷ a) b = ground (arith, multiply-all_in a b)
