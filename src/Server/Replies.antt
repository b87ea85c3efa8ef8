-- ===== src/Server/Replies.antt =====
-- No request is answered by data for an observer.
use qdocdb.Prelude.{ℕ, ◌≡◌, Bool, false, Option, none, some, Text, arith, inl, inr, Option-cases}
use qdocdb.Kv.Interface.{KvInterface}
use qdocdb.Transaction.{Transaction, Context}
use qdocdb.OpenCollection.{OpenCollection, context, new_transaction}
use qdocdb.Database.{Database}
use qdocdb.Server.{Request, Body, is_data, Place, Host, Server, collection_at}
use qdocdb.Server.Operations.{
  Outcome, done, null_pointer, search_in, search, index_collection, alter, alter_alone,
  list_snapshots, answer_result, change_snapshots,
}
use qdocdb.Server.Receive.{
  Target, find_at, write_in, invalid_transaction, on_collection, begin_transaction, write_open,
  discard_open, alter_open, alter_documents, observe_collection, stop_observing, exclusive_lock,
  unlock, handle, handle_number, handle_lock, handle_collection, handle_url,
}

unfoldable pub body_says_data : Option Body → Bool
unfolding is_data
body_says_data none = false
body_says_data (some b) = is_data b

unfoldable pub says_data : Outcome → Bool
unfolding body_says_data
says_data null_pointer = false
says_data (done b t) = body_says_data b

module _ (kv : KvInterface) (host : Host kv) where
  search_in-reply :
      (r : Request) (coll : OpenCollection kv) (t : Text)
      → says_data (search_in kv host r coll t) ≡ false
  unfolding search_in says_data body_says_data is_data
  search_in-reply r coll t = ground arith

  search-reply :
      (r : Request) (coll : OpenCollection kv) → says_data (search kv host r coll).0 ≡ false
  unfolding search says_data body_says_data
  search-reply r coll = grind (arith, search_in-reply)

  index_collection-reply :
      (r : Request) (coll : OpenCollection kv)
      → says_data (index_collection kv host r coll).0 ≡ false
  unfolding index_collection says_data body_says_data
  index_collection-reply r coll = ground arith

  alter-reply :
      (c : Context kv) (r : Request) (tx : Transaction kv)
      → body_says_data (alter kv host c r tx).0.0 ≡ false
  unfolding alter body_says_data is_data
  alter-reply c r tx = ground arith

  alter_alone-reply :
      (r : Request) (coll : OpenCollection kv) → says_data (alter_alone kv host r coll).0 ≡ false
  unfolding alter_alone says_data
  alter_alone-reply r coll = elim (Option-cases (new_transaction kv host.setup coll)) [
    | inl e ↦ ground (arith, e)
    | inr (tx, e) ↦ ground (arith, e, alter-reply (context kv host.setup coll) r tx)
  ]

  list_snapshots-reply :
      (coll : OpenCollection kv) → says_data (list_snapshots kv host coll).0 ≡ false
  unfolding list_snapshots says_data body_says_data is_data
  list_snapshots-reply coll = ground arith

  change_snapshots-reply :
      (r : Request) (coll : OpenCollection kv)
      → says_data (change_snapshots kv host r coll).0 ≡ false
  unfolding change_snapshots says_data body_says_data answer_result
  change_snapshots-reply r coll = ground arith

  on_collection-reply :
      (f : OpenCollection kv → Outcome × OpenCollection kv) (p : Place) (s : Server kv)
      → ((coll : OpenCollection kv) → says_data (f coll).0 ≡ false)
      → says_data (on_collection kv host f p s).0 ≡ false
  unfolding on_collection says_data body_says_data
  on_collection-reply f p s h = elim (Option-cases (collection_at kv p s)) [
    | inl e ↦ ground (arith, e)
    | inr (coll, e) ↦ ground (arith, e, h coll)
  ]

  begin_transaction-reply :
      (p : Place) (s : Server kv) → says_data (begin_transaction kv host p s).0 ≡ false
  unfolding begin_transaction says_data body_says_data is_data
  begin_transaction-reply p s = ground arith

  alter_open-reply : (r : Request) (s : Server kv) → says_data (alter_open kv host r s).0 ≡ false
  unfolding alter_open invalid_transaction says_data body_says_data
  alter_open-reply r s = grind (arith, alter-reply)

  observe_collection-reply :
      (c : ℕ) (r : Request) (p : Place) (s : Server kv)
      → says_data (observe_collection kv host c r p s).0 ≡ false
  unfolding observe_collection says_data body_says_data is_data
  observe_collection-reply c r p s = ground arith

  handle-reply :
      (c : ℕ) (r : Request) (p : Place) (s : Server kv)
      → says_data (handle kv host c r p s).0 ≡ false
  unfolding handle alter_documents says_data body_says_data
  handle-reply c r p s = ground (
    arith,
    on_collection-reply (search kv host r) p s (search-reply r),
    on_collection-reply (index_collection kv host r) p s (index_collection-reply r),
    on_collection-reply (alter_alone kv host r) p s (alter_alone-reply r),
    on_collection-reply (list_snapshots kv host) p s list_snapshots-reply,
    on_collection-reply (change_snapshots kv host r) p s (change_snapshots-reply r),
    begin_transaction-reply p s,
    alter_open-reply r s,
    observe_collection-reply c r p s,
  )

  write_in-reply :
      (tx : Transaction kv) (coll : OpenCollection kv)
      → says_data (write_in kv host tx coll).0 ≡ false
  unfolding write_in says_data body_says_data
  write_in-reply tx coll = ground arith

  write_open-reply : (r : Request) (s : Server kv) → says_data (write_open kv host r s).0 ≡ false
  unfolding write_open invalid_transaction says_data body_says_data
  write_open-reply r s = elim (Option-cases (find_at r.transaction_id s.transactions)) [
    | inl e ↦ ground (arith, e)
    | inr ((id, x), e) ↦ ground (
      arith,
      e,
      on_collection-reply (write_in kv host x.state) x.place s (write_in-reply x.state),
    )
  ]

  pub handle_number-reply :
      (c : ℕ) (r : Request) (s : Server kv) → says_data (handle_number kv host c r s).0 ≡ false
  unfolding handle_number discard_open stop_observing invalid_transaction says_data body_says_data
  handle_number-reply c r s = ground (arith, write_open-reply r s)

  handle_collection-reply :
      (c : ℕ) (r : Request) (t : Target) (db : Database kv) (s : Server kv)
      → says_data (handle_collection kv host c r t db s).0 ≡ false
  unfolding handle_collection says_data body_says_data
  handle_collection-reply c r t db s = grind (arith, handle-reply)

  pub handle_url-reply :
      (c : ℕ) (r : Request) (t : Target) (db : Option (Database kv)) (s : Server kv)
      → says_data (handle_url kv host c r t db s).0 ≡ false
  unfolding handle_url handle_lock exclusive_lock unlock says_data body_says_data
  handle_url-reply c r t db s = grind (arith, handle_collection-reply)
