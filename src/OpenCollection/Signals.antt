-- ===== src/OpenCollection/Signals.antt =====
-- The signals of observed queries.
use qdocdb.Prelude.{ℕ, ◌≡◌, refl, List, [], ◌∷◌, ◌++◌, map, reverse, arith, if◌then◌else◌}
use mathlib.Core.List.{append_assoc, reverse-cons}
use qdocdb.Json.{Json}
use qdocdb.Kv.Interface.{KvInterface}
use qdocdb.Transaction.{Observers}
use qdocdb.OpenCollection.{OpenCollection, emit_list, calm, emit_observers}

-- The observers that have been triggered, with their replies.
abbrev pub triggered_replies : Observers → List (ℕ × List Json)
triggered_replies [] = []
triggered_replies ((id, o) ∷ rest) =
    let others = triggered_replies rest in if o.triggered then (id, o.reply) ∷ others else others

emit_list-replies :
    (obs : Observers) (out : List (ℕ × List Json))
    → emit_list obs out ≡ reverse (triggered_replies obs) ++ out
unfolding emit_list
emit_list-replies [] out = refl
emit_list-replies ((id, o) ∷ obs) out = ground (
  arith,
  emit_list-replies obs out,
  emit_list-replies obs ((id, o.reply) ∷ out),
  reverse-cons (id, o.reply) (triggered_replies obs),
  append_assoc (reverse (triggered_replies obs)) ((id, o.reply) ∷ []) out,
)

calm_replies : (obs : Observers) → triggered_replies (map calm obs) ≡ []
unfolding calm
calm_replies [] = refl
calm_replies ((id, o) ∷ obs) = calm_replies obs

-- `emitObservers` signals the replies of the observers that have been triggered, in their order, the
-- last one in front, and leaves no observer triggered.
pub emit_observers-replies :
    {kv : KvInterface} (coll : OpenCollection kv)
    → ((emit_observers coll).emitted ≡ reverse (triggered_replies coll.observers) ++ coll.emitted)
      × (triggered_replies (emit_observers coll).observers ≡ [])
unfolding emit_observers
emit_observers-replies coll =
    (emit_list-replies coll.observers coll.emitted, calm_replies coll.observers)
