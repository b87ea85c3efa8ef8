-- ===== src/Kv/Sorted.antt =====
-- QMap<QByteArray, QByteArray>: entries in the order of their keys.
use qdocdb.Prelude.{
  ◌≡◌, refl, List, [], ◌∷◌, Bytes, some, ◌==◌, ==_iff, list_lt, assoc, arith, if◌then◌else◌,
}
use qdocdb.Kv.{Entry}

-- `map[k] = v`
unfoldable pub ordered_put : Bytes → Bytes → List Entry → List Entry
ordered_put k v [] = (k, v) ∷ []
ordered_put k v ((j, w) ∷ m) =
    let rest = ordered_put k v m in
    if j == k then (k, v) ∷ m else if list_lt k j then (k, v) ∷ (j, w) ∷ m else (j, w) ∷ rest

pub assoc-ordered_put :
    (k j v : Bytes) (m : List Entry)
    → assoc j (ordered_put k v m) ≡ (if k == j then some v else assoc j m)
unfolding assoc ordered_put
assoc-ordered_put k j v [] = refl
assoc-ordered_put k j v ((i, w) ∷ m) =
    ground (arith, ==_iff k j, ==_iff i k, ==_iff i j, assoc-ordered_put k j v m)

-- `find(k)`: the entries from the one at `k` on, none if `k` is not there.
unfoldable pub from_key : Bytes → List Entry → List Entry
from_key k [] = []
from_key k ((j, w) ∷ m) = let rest = from_key k m in if j == k then (j, w) ∷ m else rest

-- LevelDB's `Seek(k)`: the entries from the first key that is not below `k` on.
unfoldable pub from_bound : Bytes → List Entry → List Entry
from_bound k [] = []
from_bound k ((j, w) ∷ m) = let rest = from_bound k m in if list_lt j k then rest else (j, w) ∷ m
