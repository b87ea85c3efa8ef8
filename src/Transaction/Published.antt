-- ===== src/Transaction/Published.antt =====
-- How the observers of a transaction are handed on to its collection.
use qdocdb.Prelude.{
  ℕ, ◌≡◌, refl, true, not, Option, none, some, [], ◌∷◌, at, eqb, arith, if◌then◌else◌,
}
use qdocdb.Json.{end, nil, items_eq, of_list}
use qdocdb.Qt.{Qt}
use qdocdb.Transaction.{Observer, Observers}
use qdocdb.Transaction.Remove.{publish_one, publish}

-- An observer of the collection, given the transaction's copy of it.
abbrev pub updated : Qt → Observer → Option Observer → Observer
updated qt o none = record {
  query = end;
  query_options = end;
  reply = o.reply;
  triggered = not (items_eq qt.double_eq nil (of_list o.reply));
}
updated qt o (some b) =
    if items_eq qt.double_eq (of_list b.reply) (of_list o.reply)
    then b
    else record b { reply = o.reply; triggered = true }

-- A map holds an id once.
abbrev pub Unique : Observers → Type 0
Unique [] = Unit {0}
Unique ((id, o) ∷ m) = (at id m ≡ none) × Unique m

pub at-publish_one :
    (qt : Qt) (id j : ℕ) (o : Observer) (base : Observers)
    → at j (publish_one qt id o base)
      ≡ (if eqb id j then some (updated qt o (at id base)) else at j base)
unfolding publish_one at
at-publish_one qt id j o [] = ground arith
at-publish_one qt id j o ((i, b) ∷ base) = ground (arith, at-publish_one qt id j o base)

-- The collection has, for each id, the observer that it had, if the transaction has none or if the
-- replies are equal; otherwise the transaction's reply, and it is triggered. One that is new to the
-- collection is triggered if its reply is not empty.
pub at-publish :
    (qt : Qt) (own base : Observers) (j : ℕ)
    → Unique own
    → at j (publish qt own base)
      ≡ elim (at j own) [ none ↦ at j base | some o ↦ some (updated qt o (at j base)) ]
unfolding publish at
at-publish qt [] base j u = refl
at-publish qt ((id, o) ∷ own) base j u =
    ground (
      arith,
      u.0,
      at-publish_one qt id j o base,
      at-publish qt own (publish_one qt id o base) j u.1,
    )
