-- ===== src/Server/Sound/Cases.antt =====
-- What the cases of `receive` that work on a collection or on a transaction leave is sound.
use qdocdb.Prelude.{
  ℕ, ◌^◌, ◌<◌, ◌≡◌, refl, sym, subst, Option, none, some, at, at-put_at, at-remove_at, put_at,
  remove_at, ℤ, pos, negsuc, length, eqb, arith, inl, inr, Option-cases, Bool-cases,
}
use qdocdb.IdGen.{IdGen}
use qdocdb.Kv.Interface.{KvInterface}
use qdocdb.OpenCollection.{OpenCollection, new_transaction, start, observe, unobserve}
use qdocdb.Server.{
  Request, Place, Host, Server, OpenTransaction, new_transaction_reply, collection_at,
  put_collection,
}
use qdocdb.Server.Operations.{Outcome, reply_with, alter_alone}
use qdocdb.Server.Numbers.{get_next_transaction_id}
use qdocdb.Server.Numbers.Fresh.{get_next_transaction_id-fresh}
use qdocdb.Server.Receive.{
  write_in, is_minus_one, invalid_transaction, on_collection, begin_transaction, write_open,
  discard_open, alter_open, alter_documents, observe_collection, unobserve_at, stop_observing,
  find_at,
}
use qdocdb.Server.Tables.{IsOpen}
use qdocdb.Server.Kinds.{Fine, write_in-Fine, alter_alone-Fine, observe-IsOpen, unobserve-IsOpen}
use qdocdb.Server.Sound.{
  IsPlace, Sound, Good, collection_at-some, Sound-transactions, put_collection-Sound,
  put_collection-same, put_collection-size,
}

module _ (kv : KvInterface) (host : Host kv) where
  on_collection-some :
      (f : OpenCollection kv → Outcome × OpenCollection kv) (p : Place) (s : Server kv)
      (coll : OpenCollection kv)
      → collection_at kv p s ≡ some coll
      → on_collection kv host f p s ≡ ((f coll).0, put_collection kv p (f coll).1 s)
  unfolding on_collection
  on_collection-some f p s coll e = rw (e, on_collection) refl

  pub on_collection-Good :
      (f : OpenCollection kv → Outcome × OpenCollection kv) (p : Place) (s : Server kv)
      → Sound s
      → IsPlace p s
      → ((coll : OpenCollection kv) → IsOpen coll → Fine (f coll))
      → Good s (on_collection kv host f p s)
  on_collection-Good f p s h i fine =
      let (coll, e, o) = collection_at-some p s h.open_tables i in
      let (n, o') = fine coll o in
      let (a, b, c, d, crashed, locks, clients) = put_collection-same p (f coll).1 s in
      subst (Good s) (sym (on_collection-some f p s coll e))
        (n, put_collection-Sound p (f coll).1 s h o', crashed)

  begin_transaction-some :
      (p : Place) (s : Server kv) (coll : OpenCollection kv) (id next : ℕ)
      → collection_at kv p s ≡ some coll
      → IsOpen coll
      → get_next_transaction_id s.transactions s.transaction_id ≡ some (id, next)
      → begin_transaction kv host p s ≡ (
        reply_with (new_transaction_reply id),
        record s {
          transaction_id = next;
          transactions =
              put_at id
                (record {
                  place = p;
                  snapshot_id = coll.snapshot_id;
                  state = start kv host.setup coll;
                })
                s.transactions;
        },
      )
  unfolding begin_transaction new_transaction
  begin_transaction-some p s coll id next e o n = ground (arith, e, o, n)

  pub begin_transaction-Good :
      (p : Place) (s : Server kv)
      → Sound s
      → IsPlace p s
      → length s.transactions < 2 ^ 31
      → Good s (begin_transaction kv host p s)
  begin_transaction-Good p s h i small =
      let (coll, e, o) = collection_at-some p s h.open_tables i in
      let (id, next, n, free, bound, counter) =
        get_next_transaction_id-fresh s.transactions s.transaction_id small h.counter in
      let x : OpenTransaction kv = record {
        place = p;
        snapshot_id = coll.snapshot_id;
        state = start kv host.setup coll;
      } in
      let t : Server kv = record s {
        transaction_id = next;
        transactions = put_at id x s.transactions;
      } in
      subst (Good s) (sym (begin_transaction-some p s coll id next e o n)) (
        λ q. cc,
        Sound-transactions s t h refl refl counter (λ j y q.
            ground (arith, at-put_at id j x s.transactions, h.transaction_places j y, i, q)),
        refl,
      )

  find_at-place :
      (n : ℤ) (s : Server kv) (id : ℕ) (x : OpenTransaction kv)
      → Sound s
      → find_at n s.transactions ≡ some (id, x)
      → IsPlace x.place s
  unfolding find_at
  find_at-place (pos n) s id x h e = ground (arith, h.transaction_places n x)
  find_at-place (negsuc n) s id x h e = cc

  removed-Sound :
      (s : Server kv) (id : ℕ)
      → Sound s
      → Sound (record s { transactions = remove_at id s.transactions })
  removed-Sound s id h =
      Sound-transactions s (record s { transactions = remove_at id s.transactions }) h refl refl
        h.counter
        (λ j y q. ground (arith, at-remove_at id j s.transactions, h.transaction_places j y, q))

  stored-Sound :
      (s : Server kv) (id : ℕ) (x : OpenTransaction kv) (g : IdGen)
      → Sound s
      → IsPlace x.place s
      → Sound (record s { transactions = put_at id x s.transactions; id_gen = g })
  stored-Sound s id x g h i =
      Sound-transactions s (record s { transactions = put_at id x s.transactions; id_gen = g }) h
        refl refl h.counter
        (λ j y q. ground (arith, at-put_at id j x s.transactions, h.transaction_places j y, i, q))

  pub write_open-Good : (r : Request) (s : Server kv) → Sound s → Good s (write_open kv host r s)
  unfolding write_open invalid_transaction
  write_open-Good r s h = elim (Option-cases (find_at r.transaction_id s.transactions)) [
    | inl e ↦ rw (e, write_open) (λ q. cc, h, refl)
    | inr ((id, x), e) ↦
        let (n, h', c) =
          on_collection-Good (write_in kv host x.state) x.place s h
            (find_at-place r.transaction_id s id x h e) (write_in-Fine kv host x.state) in
        rw (e, write_open)
          (n, removed-Sound (on_collection kv host (write_in kv host x.state) x.place s).1 id h', c)
  ]

  pub discard_open-Good :
      (r : Request) (s : Server kv) → Sound s → Good s (discard_open kv host r s)
  unfolding discard_open invalid_transaction
  discard_open-Good r s h = elim (Option-cases (find_at r.transaction_id s.transactions)) [
    | inl e ↦ rw (e, discard_open) (λ q. cc, h, refl)
    | inr ((id, x), e) ↦ rw (e, discard_open) (λ q. cc, removed-Sound s id h, refl)
  ]

  pub alter_open-Good : (r : Request) (s : Server kv) → Sound s → Good s (alter_open kv host r s)
  unfolding alter_open invalid_transaction
  alter_open-Good r s h = elim (Option-cases (find_at r.transaction_id s.transactions)) [
    | inl e ↦ rw (e, alter_open) (λ q. cc, h, refl)
    | inr ((id, x), e) ↦
        let i = find_at-place r.transaction_id s id x h e in
        let (coll, f, o) = collection_at-some x.place s h.open_tables i in
        rw (e, f, alter_open) (λ q. cc, stored-Sound s id _ _ h i, refl)
  ]

  pub alter_documents-Good :
      (r : Request) (p : Place) (s : Server kv)
      → Sound s
      → IsPlace p s
      → Good s (alter_documents kv host r p s)
  unfolding alter_documents
  alter_documents-Good r p s h i = elim (Bool-cases (is_minus_one r.transaction_id)) [
    | inl e ↦
        rw (e, alter_documents)
          (on_collection-Good (alter_alone kv host r) p s h i (alter_alone-Fine kv host r))
    | inr e ↦ rw (e, alter_documents) (alter_open-Good r s h)
  ]

  observed-Sound :
      (s : Server kv) (id c : ℕ) (p : Place)
      → Sound s
      → IsPlace p s
      → Sound (record s {
        observe_client = put_at id (some c) s.observe_client;
        observe_collection = put_at id p s.observe_collection;
      })
  observed-Sound s id c p h i = record {
    open_tables = h.open_tables;
    transaction_places = h.transaction_places;
    observer_places =
        λ j q e. ground (arith, at-put_at id j p s.observe_collection, h.observer_places j q, i, e);
    counter = h.counter;
  }

  pub observe_collection-Good :
      (c : ℕ) (r : Request) (p : Place) (s : Server kv)
      → Sound s
      → IsPlace p s
      → Good s (observe_collection kv host c r p s)
  unfolding observe_collection
  observe_collection-Good c r p s h i =
      let (coll, e, o) = collection_at-some p s h.open_tables i in
      let (id, coll') = observe kv host.setup r.query r.query_options r.prefered_id coll in
      let o' = observe-IsOpen kv host r.query r.query_options r.prefered_id coll o in
      let s' = put_collection kv p coll' s in
      let (a, b, c', d, crashed, locks, clients) = put_collection-same p coll' s in
      rw (e, observe_collection)
        (
          λ q. cc,
          observed-Sound s' id c p (put_collection-Sound p coll' s h o')
              (omega (arith, i, put_collection-size p coll' s p.database)),
          crashed,
        )

  pub unobserve_at-Sound :
      (id : ℕ) (p : Place) (s : Server kv)
      → Sound s
      → IsPlace p s
      → Sound (unobserve_at kv host id p s)
        × ((unobserve_at kv host id p s).crashed ≡ s.crashed)
        × ((unobserve_at kv host id p s).observe_client ≡ s.observe_client)
        × ((unobserve_at kv host id p s).observe_collection ≡ s.observe_collection)
  unfolding unobserve_at
  unobserve_at-Sound id p s h i =
      let (coll, e, o) = collection_at-some p s h.open_tables i in
      let coll' = unobserve kv host.setup id coll in
      let (a, b, c', d, crashed, locks, clients) = put_collection-same p coll' s in
      rw (e, unobserve_at)
        (put_collection-Sound p coll' s h (unobserve-IsOpen kv host id coll o), crashed, c', b)

  dropped-Sound :
      (s : Server kv) (id : ℕ)
      → Sound s
      → Sound (record s {
        observe_client = remove_at id s.observe_client;
        observe_collection = remove_at id s.observe_collection;
      })
  dropped-Sound s id h = record {
    open_tables = h.open_tables;
    transaction_places = h.transaction_places;
    observer_places =
        λ j q e. ground (arith, at-remove_at id j s.observe_collection, h.observer_places j q, e);
    counter = h.counter;
  }

  nobody-Sound :
      (s : Server kv) (id : ℕ)
      → Sound s
      → Sound (record s { observe_client = put_at id none s.observe_client })
  nobody-Sound s id h = record {
    open_tables = h.open_tables;
    transaction_places = h.transaction_places;
    observer_places = h.observer_places;
    counter = h.counter;
  }

  stop_if_owner-Good :
      (c : ℕ) (r : Request) (s : Server kv) (id : ℕ) (p : Place) (o : Option (Option ℕ))
      → find_at r.observe_id s.observe_collection ≡ some (id, p)
      → at id s.observe_client ≡ o
      → Sound s
      → IsPlace p s
      → Good s (stop_observing kv host c r s)
  unfolding stop_observing
  stop_if_owner-Good c r s id p none f e h i =
      rw (f, e, stop_observing) (λ q. cc, nobody-Sound s id h, refl)
  stop_if_owner-Good c r s id p (some none) f e h i = rw (f, e, stop_observing) (λ q. cc, h, refl)
  stop_if_owner-Good c r s id p (some (some d)) f e h i =
      let (h', crashed, clients, places) = unobserve_at-Sound id p s h i in
      elim (Bool-cases (eqb d c)) [
        | inl own ↦
            rw (f, e, own, stop_observing)
              (λ q. cc, dropped-Sound (unobserve_at kv host id p s) id h', crashed)
        | inr other ↦ rw (f, e, other, stop_observing) (λ q. cc, h, refl)
      ]

  find_at-observer :
      (n : ℤ) (s : Server kv) (id : ℕ) (p : Place)
      → Sound s
      → find_at n s.observe_collection ≡ some (id, p)
      → IsPlace p s
  unfolding find_at
  find_at-observer (pos n) s id p h e = ground (arith, h.observer_places n p)
  find_at-observer (negsuc n) s id p h e = cc

  pub stop_observing-Good :
      (c : ℕ) (r : Request) (s : Server kv) → Sound s → Good s (stop_observing kv host c r s)
  unfolding stop_observing
  stop_observing-Good c r s h = elim (Option-cases (find_at r.observe_id s.observe_collection)) [
    | inl e ↦ rw (e, stop_observing) (λ q. cc, h, refl)
    | inr ((id, p), e) ↦
        stop_if_owner-Good c r s id p (at id s.observe_client) e refl h
          (find_at-observer r.observe_id s id p h e)
  ]
