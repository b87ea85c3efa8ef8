-- ===== src/Options/Order.antt =====
-- What `$orderBy` makes of a reply.
use mathlib.Core.List.{Perm}
use qdocdb.Prelude.{
  ==_iff, ◌≡◌, refl, [], ◌∷◌, map, list_lt, Distinct, assoc, none, Bool, true, false, List, Text,
  codes, ◌==◌, list_lt-asym, arith,
}
use qdocdb.Json.{Json, double, string}
use qdocdb.Qt.{Qt, QtLaws}
use qdocdb.Utils.{get_json_value_by_path, compare}
use qdocdb.Options.{id_of, memo_value, out_of_order, order_reply, docs_of}
use qdocdb.Options.Bubble.{
  IsOrdered, All, bubble_sort, bubble_sort-IsOrdered, bubble_sort-All, IsOrdered-agree,
}

compare-gt-asym :
    (qt : Qt) (laws : QtLaws qt) (a b : Json)
    → compare qt a b (codes "$gt") ≡ true
    → compare qt b a (codes "$gt") ≡ false
unfolding compare ◌==◌
compare-gt-asym qt laws (double a) (double b) h = laws.double_asym b a h
compare-gt-asym qt laws (string a) (string b) h = list_lt-asym b a h
compare-gt-asym qt laws a b h = ground arith

compare-lt-asym :
    (qt : Qt) (laws : QtLaws qt) (a b : Json)
    → compare qt a b (codes "$lt") ≡ true
    → compare qt b a (codes "$lt") ≡ false
unfolding compare ◌==◌
compare-lt-asym qt laws (double a) (double b) h = laws.double_asym a b h
compare-lt-asym qt laws (string a) (string b) h = list_lt-asym a b h
compare-lt-asym qt laws a b h = ground arith

out_of_order-asym :
    (qt : Qt) (laws : QtLaws qt) (path : Text) (up : Bool) (docs : List Json) (a b : Json)
    → out_of_order qt path up docs a b ≡ true
    → out_of_order qt path up docs b a ≡ false
unfolding out_of_order
out_of_order-asym qt laws path true docs a b h = compare-gt-asym qt laws _ _ h
out_of_order-asym qt laws path false docs a b h = compare-lt-asym qt laws _ _ h

-- Numbers by their order, texts by theirs; no other two values are in an order.
abbrev pub is_less : Qt → Json → Json → Bool
is_less qt (double a) (double b) = qt.double_lt a b
is_less qt (string a) (string b) = list_lt a b
is_less qt _ _ = false

-- A document that must not stand right before another: upwards, one with a greater value at the path;
-- downwards, one with a lesser value.
abbrev pub is_misplaced : Qt → Text → Bool → Json → Json → Bool
is_misplaced qt path true d e =
    is_less qt (get_json_value_by_path qt e path) (get_json_value_by_path qt d path)
is_misplaced qt path false d e =
    is_less qt (get_json_value_by_path qt d path) (get_json_value_by_path qt e path)

-- No two documents have the same id.
abbrev pub HasDistinctIds : List Json → Type 0
HasDistinctIds docs = Distinct (map (λ d. (id_of d, d)) docs)

compare-gt-is_less : (qt : Qt) (a b : Json) → compare qt a b (codes "$gt") ≡ is_less qt b a
unfolding compare ◌==◌
compare-gt-is_less qt (double a) (double b) = refl
compare-gt-is_less qt (string a) (string b) = refl
compare-gt-is_less qt a b = ground arith

compare-lt-is_less : (qt : Qt) (a b : Json) → compare qt a b (codes "$lt") ≡ is_less qt a b
unfolding compare ◌==◌
compare-lt-is_less qt (double a) (double b) = refl
compare-lt-is_less qt (string a) (string b) = refl
compare-lt-is_less qt a b = ground arith

assoc-cons_none :
    (k j : Text) (v : Json) (m : List (Text × Json))
    → assoc k ((j, v) ∷ m) ≡ none
    → (j == k ≡ false) × (assoc k m ≡ none)
unfolding assoc
assoc-cons_none k j v m h = ground (arith, h)

-- The value that a pass uses for a document is that of the document itself.
abbrev IsOwn : {A : Type 0} → Qt → Text → List Json → Json × A → Type 0
IsOwn qt path docs p = memo_value qt path docs p.0 ≡ get_json_value_by_path qt p.0 path

module _ {A : Type 0} (qt : Qt) (path : Text) where
  memo_value-IsOwn_cons :
      (d : Json) (docs : List Json) (reply : List (Json × A))
      → assoc (id_of d) (map (λ e. (id_of e, e)) (docs_of reply)) ≡ none
      → All (IsOwn qt path docs) reply
      → All (IsOwn qt path (d ∷ docs)) reply
  unfolding memo_value assoc
  memo_value-IsOwn_cons d docs [] n a = tt
  memo_value-IsOwn_cons d docs (p ∷ reply) n (o, a) =
      let (other, absent) =
        assoc-cons_none (id_of d) (id_of p.0) p.0 (map (λ e. (id_of e, e)) (docs_of reply)) n in
      (
        ground (arith, other, o, ==_iff (id_of d) (id_of p.0), ==_iff (id_of p.0) (id_of d)),
        memo_value-IsOwn_cons d docs reply absent a,
      )

  memo_value-IsOwn :
      (reply : List (Json × A))
      → HasDistinctIds (docs_of reply)
      → All (IsOwn qt path (docs_of reply)) reply
  unfolding memo_value
  memo_value-IsOwn [] h = tt
  memo_value-IsOwn (p ∷ reply) (n, h) = (
    ground (arith, ==_iff (id_of p.0) (id_of p.0)),
    memo_value-IsOwn_cons p.0 (docs_of reply) reply n (memo_value-IsOwn reply h),
  )

  out_of_order-is_misplaced :
      (up : Bool) (docs : List Json) (p q : Json × A)
      → IsOwn qt path docs p
      → IsOwn qt path docs q
      → out_of_order qt path up docs p.0 q.0 ≡ is_misplaced qt path up p.0 q.0
  unfolding out_of_order
  out_of_order-is_misplaced true docs p q i j = rw (i, j) (compare-gt-is_less qt _ _)
  out_of_order-is_misplaced false docs p q i j = rw (i, j) (compare-lt-is_less qt _ _)

-- Ordering a reply whose documents have different ids by a path ends and moves documents with their
-- ids only; upwards, no document then stands right before one with a lesser value at the path, and
-- downwards none right before one with a greater value, where numbers are compared with numbers and
-- texts with texts, and no other values are compared.
pub order_reply-IsOrdered :
    {A : Type 0} (qt : Qt) (laws : QtLaws qt) (path : Text) (up : Bool) (reply : List (Json × A))
    → HasDistinctIds (docs_of reply)
    → IsOrdered (λ p q. is_misplaced qt path up p.0 q.0) (order_reply qt path up reply)
      × Perm (order_reply qt path up reply) reply
unfolding order_reply
order_reply-IsOrdered qt laws path up reply h =
    let docs = docs_of reply in
    let own = memo_value-IsOwn qt path reply h in
    let (o, p) =
      bubble_sort-IsOrdered _ (λ p q. out_of_order-asym qt laws path up docs p.0 q.0) reply in
    (
      IsOrdered-agree _ (IsOwn qt path docs) (λ p q. is_misplaced qt path up p.0 q.0)
          (out_of_order-is_misplaced qt path up docs) (bubble_sort _ reply)
          (bubble_sort-All _ (IsOwn qt path docs) reply own) o,
      p,
    )
