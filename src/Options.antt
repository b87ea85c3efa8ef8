-- ===== src/Options.antt =====
-- qdocdb/qdoccollection.cpp, QDocCollection::applyOptions: the options `$orderBy` and `$limit`, over
-- the documents of a reply and what goes with each (an id, or nothing where `pIds` is NULL).
pub mod Bubble
pub mod Order
use qdocdb.Prelude.{
  ℕ, ℤ, pos, negsuc, Bool, true, false, not, Option, none, some, List, [], ◌∷◌, map, Text, codes,
  ◌==◌, take, if◌then◌else◌,
}
use qdocdb.Json.{Json, Fields, undefined, double, end, field, value, has_key, to_object, to_string}
use qdocdb.Qt.{Qt}
use qdocdb.Utils.{get_json_value_by_path, compare}
use Bubble.{bubble_sort}

-- `QJsonValue::toInt`
unfoldable pub to_int : Qt → Json → ℤ
to_int qt (double d) = qt.double_to_int d
to_int qt _ = pos 0

unfoldable pub is_zero : ℤ → Bool
is_zero (pos ℕ.zero) = true
is_zero _ = false

-- The first member of `$orderBy`, if it is a number: the path, and whether to order upwards.
unfoldable pub order_by : Qt → Fields → Option (Text × Bool)
unfolding is_zero
order_by qt (field k (double d) fs) =
    if k == [] then none else some (k, not (is_zero (qt.double_to_int d)))
order_by qt _ = none

unfoldable pub id_of : Json → Text
id_of doc = to_string (value (to_object doc) (codes "_id"))

-- `valueByPathMap`: a pass comes upon the documents in the order of the reply, and keeps for each
-- `_id` the value of the first document that has it.
unfoldable pub memo_value : Qt → Text → List Json → Json → Json
unfolding id_of
memo_value qt path [] doc = undefined
memo_value qt path (d ∷ docs) doc =
    if id_of d == id_of doc then get_json_value_by_path qt d path else memo_value qt path docs doc

-- The test by which two neighbours are swapped.
unfoldable pub out_of_order : Qt → Text → Bool → List Json → Json → Json → Bool
unfolding memo_value
out_of_order qt path up docs a b =
    compare qt (memo_value qt path docs a) (memo_value qt path docs b)
      (if up then codes "$gt" else codes "$lt")

module _ {A : Type 0} where
  abbrev pub docs_of : List (Json × A) → List Json
  docs_of = map (λ p. p.0)

  unfoldable pub order_reply : Qt → Text → Bool → List (Json × A) → List (Json × A)
  order_reply qt path up reply =
      bubble_sort (λ p q. out_of_order qt path up (docs_of reply) p.0 q.0) reply

  -- What is left before the first index that is not below the limit.
  unfoldable pub limit_reply : ℤ → List (Json × A) → List (Json × A)
  limit_reply (pos n) reply = take n reply
  limit_reply (negsuc n) reply = []

  unfoldable pub apply_order : Qt → Fields → List (Json × A) → List (Json × A)
  apply_order qt options reply =
      if has_key options (codes "$orderBy")
      then elim (order_by qt (to_object (value options (codes "$orderBy")))) [
        | none ↦ reply
        | some (path, up) ↦ order_reply qt path up reply
      ]
      else reply

  unfoldable pub apply_options : Qt → Fields → List (Json × A) → List (Json × A)
  unfolding apply_order
  apply_options qt options reply =
      let ordered = apply_order qt options reply in
      if has_key options (codes "$limit")
      then limit_reply (to_int qt (value options (codes "$limit"))) ordered
      else ordered
