-- ===== src/OpenCollection/Committed.antt =====
-- QDocCollectionTransaction::writeTransaction: what a commit makes of the observers of the
-- collection, and what it signals.
use qdocdb.Prelude.{
  ℕ, ◌≡◌, refl, ap, ◌∙◌, Option, none, some, List, [], ◌∷◌, ◌++◌, map, at, eqb, arith,
  if◌then◌else◌, false,
}
use qdocdb.Json.{Json}
use qdocdb.Qt.{Qt}
use qdocdb.Kv.{KvResult}
use qdocdb.Kv.Interface.{KvInterface}
use qdocdb.Collection.{Result, ok, err, error_write_transaction}
use qdocdb.Transaction.{Observer, Observers, Transaction}
use qdocdb.Transaction.Remove.{publish_one, publish, write_transaction}
use qdocdb.Transaction.Published.{updated, Unique, at-publish_one, at-publish}
use qdocdb.OpenCollection.{OpenCollection, Setup, emit_list, calm, emit_observers, commit}

-- The observer of an id that the transaction hands on, given its own observer and the collection's.
abbrev pub merged : Qt → Option Observer → Option Observer → Option Observer
merged qt none base = base
merged qt (some o) base = some (updated qt o base)

abbrev pub silent : Option Observer → Option Observer
silent none = none
silent (some o) = some (record o { triggered = false })

-- The reply that a triggered observer is signalled with.
abbrev pub due : Option Observer → List (List Json)
due none = []
due (some o) = if o.triggered then o.reply ∷ [] else []

-- The replies that have been signalled under an id, the last one first.
unfoldable pub signals_of : ℕ → List (ℕ × List Json) → List (List Json)
signals_of j [] = []
signals_of j ((id, reply) ∷ l) =
    let rest = signals_of j l in if eqb id j then reply ∷ rest else rest

publish_one-Unique :
    (qt : Qt) (id : ℕ) (o : Observer) (base : Observers)
    → Unique base
    → Unique (publish_one qt id o base)
unfolding publish_one at
publish_one-Unique qt id o [] u = (refl, tt)
publish_one-Unique qt id o ((i, b) ∷ base) (n, u) =
    ground (arith, n, u, publish_one-Unique qt id o base u, at-publish_one qt id i o base)

publish-Unique : (qt : Qt) (own base : Observers) → Unique base → Unique (publish qt own base)
unfolding publish
publish-Unique qt [] base u = u
publish-Unique qt ((id, o) ∷ own) base u =
    publish-Unique qt own (publish_one qt id o base) (publish_one-Unique qt id o base u)

at-calm : (obs : Observers) (j : ℕ) → at j (map calm obs) ≡ silent (at j obs)
unfolding at calm
at-calm [] j = refl
at-calm ((id, o) ∷ obs) j = ground (arith, at-calm obs j)

signals_of-emit_list :
    (obs : Observers) (out : List (ℕ × List Json)) (j : ℕ)
    → Unique obs
    → signals_of j (emit_list obs out) ≡ due (at j obs) ++ signals_of j out
unfolding emit_list signals_of at
signals_of-emit_list [] out j u = refl
signals_of-emit_list ((id, o) ∷ obs) out j (n, u) =
    ground (
      arith,
      n,
      signals_of-emit_list obs out j u,
      signals_of-emit_list obs ((id, o.reply) ∷ out) j u,
    )

module _ (kv : KvInterface) (setup : Setup) where
  open setup use {qt}

  -- What a commit answers and signals, by what the store answers to it.
  abbrev pub Told :
      Transaction kv
      → OpenCollection kv
      → ℕ
      → KvResult (Unit {0})
      → Result (Unit {0}) × OpenCollection kv
      → Type 0
  Told s coll j (KvResult.ok u) r =
      let m = merged qt (at j s.observers) (at j coll.observers) in
      (r.0 ≡ ok tt)
      × (at j r.1.observers ≡ silent m)
      × (signals_of j r.1.emitted ≡ due m ++ signals_of j coll.emitted)
  Told s coll j (KvResult.failed e t) r =
      (r.0 ≡ err error_write_transaction)
      × (r.1.observers ≡ coll.observers)
      × (r.1.emitted ≡ coll.emitted)

  at-published :
      (s : Transaction kv) (coll : OpenCollection kv) (j : ℕ)
      → Unique s.observers
      → at j (publish qt s.observers coll.observers)
        ≡ merged qt (at j s.observers) (at j coll.observers)
  at-published s coll j u = ground (arith, at-publish qt s.observers coll.observers j u)

  commit-eq :
      (s : Transaction kv) (coll : OpenCollection kv)
      → let (r, db) = kv.write_transaction s.tx coll.db in
        commit kv setup s coll ≡ elim r [
          | KvResult.ok u ↦ (
            ok tt,
            emit_observers (record coll {
              db = db;
              observers = publish qt s.observers coll.observers;
              id_gen = s.id_gen;
            }),
          )
          | KvResult.failed e t ↦
              (err error_write_transaction, record coll { db = db; id_gen = s.id_gen })
        ]
  unfolding commit write_transaction
  commit-eq s coll = ground arith

  commit_by-Told :
      (s : Transaction kv) (coll : OpenCollection kv) (j : ℕ)
      → Unique s.observers
      → Unique coll.observers
      → (w : KvResult (Unit {0})) → (kv.write_transaction s.tx coll.db).0 ≡ w
      → Told s coll j w (commit kv setup s coll)
  unfolding emit_observers
  commit_by-Told s coll j u v (KvResult.ok a) e =
      let obs = publish qt s.observers coll.observers in
      let at_j = at-published s coll j u in
      rw (commit-eq s coll, e)
        (
          refl,
          at-calm obs j ∙ ap silent at_j,
          signals_of-emit_list obs coll.emitted j (publish-Unique qt s.observers coll.observers v)
              ∙ ap (λ o. due o ++ signals_of j coll.emitted) at_j,
        )
  commit_by-Told s coll j u v (KvResult.failed x t) e = rw (commit-eq s coll, e) (refl, refl, refl)

  -- The commit of a transaction, where no id stands twice among the observers of the transaction, nor
  -- among those of the collection, seen from any one id. If the store takes it, it answers success; if
  -- the transaction has an observer of the id with another reply than the collection's observer (than
  -- an empty one, if the collection had no observer of the id), this reply takes the place of the
  -- collection's one, and it is signalled, once; else the collection keeps the observer that it had,
  -- and its reply is signalled, once, if it was triggered before, and nothing is signalled under the
  -- id if it was not; in each case the observer is then not triggered. Where the transaction has an
  -- observer of the id and the collection has none, it gets one with an empty query. If the store fails, it
  -- answers errorWriteTransaction, and no observer and no signal has changed.
  pub commit-Told :
      (s : Transaction kv) (coll : OpenCollection kv) (j : ℕ)
      → Unique s.observers
      → Unique coll.observers
      → Told s coll j (kv.write_transaction s.tx coll.db).0 (commit kv setup s coll)
  commit-Told s coll j u v = commit_by-Told s coll j u v (kv.write_transaction s.tx coll.db).0 refl
