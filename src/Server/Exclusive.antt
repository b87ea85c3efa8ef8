-- ===== src/Server/Exclusive.antt =====
-- The exclusive lock on a database: who is kept out, and who may end it.
use qdocdb.Prelude.{
  ℕ, ◌≡◌, refl, ◌∙◌, true, false, some, List, [], ◌∷◌, ◌++◌, Text, assoc, ◌==◌, ==_iff, eqb, arith,
  inl, inr, Bool-cases,
}
use qdocdb.Kv.Interface.{KvInterface}
use qdocdb.Database.{Database}
use qdocdb.Server.{Request, Host, Server}
use qdocdb.Server.Receive.{
  target_of, is_url_needed, locked_by_other, get_database, append_unlock_wait, receive,
}
use qdocdb.Server.Elsewhere.{Untouched, receive-elsewhere}

module _ (kv : KvInterface) (host : Host kv) (name : Text) where
  -- While another client holds the lock of a database that is open, a request for it waits with its
  -- link, as the last one, and nothing else happens: no reply, and no change of any collection.
  pub receive-locked_out :
      (c d : ℕ) (r : Request) (s : Server kv) (db : Database kv)
      → is_url_needed r.type ≡ true
      → (target_of (host.parse_url r.url)).db_name ≡ name
      → assoc name s.databases ≡ some db
      → assoc name s.database_locks ≡ some d
      → eqb d c ≡ false
      → receive kv host c r s ≡ record s { unlock_wait = s.unlock_wait ++ (c, r) ∷ [] }
  unfolding receive get_database locked_by_other append_unlock_wait
  receive-locked_out c d r s db u e f l ne = ground (arith, u, e, f, l, ne)

  -- Whatever a client asks for with a URL, a database that is open and that another client has locked
  -- stays as it is, and so does the lock.
  pub receive-excluded :
      (c d : ℕ) (r : Request) (s : Server kv) (db : Database kv)
      → is_url_needed r.type ≡ true
      → assoc name s.databases ≡ some db
      → assoc name s.database_locks ≡ some d
      → eqb d c ≡ false
      → Untouched kv host name s (receive kv host c r s)
  receive-excluded c d r s db u f l ne =
      let other = (target_of (host.parse_url r.url)).db_name in
      elim (Bool-cases (other == name)) [
        | inl same ↦
            ground (arith, receive-locked_out c d r s db u ((==_iff other name).0 same) f l ne)
        | inr differs ↦ receive-elsewhere kv host name c r s db u f differs
      ]

  -- The requests of other clients, one after the other.
  abbrev pub Others : ℕ → List (ℕ × Request) → Type 0
  Others d [] = Unit
  Others d ((c, r) ∷ l) = (eqb d c ≡ false) × (is_url_needed r.type ≡ true) × Others d l

  unfoldable pub receive_each : List (ℕ × Request) → Server kv → Server kv
  receive_each [] s = s
  receive_each ((c, r) ∷ l) s = receive_each l (receive kv host c r s)

  -- A database that is open and that a client has locked, and any run of requests that carry a URL
  -- (of whatever type and for whatever database), none of them from the owner of the lock: the entry
  -- of the database in the table of databases, with its collections, and the lock are then what they
  -- were. What becomes of other databases, and requests without a URL, are not spoken of.
  pub receive_each-excluded :
      (d : ℕ) (l : List (ℕ × Request)) (s : Server kv) (db : Database kv)
      → Others d l
      → assoc name s.databases ≡ some db
      → assoc name s.database_locks ≡ some d
      → Untouched kv host name s (receive_each l s)
  unfolding receive_each
  receive_each-excluded d [] s db o f k = (refl, refl)
  receive_each-excluded d ((c, r) ∷ l) s db o f k =
      let u = receive-excluded c d r s db o.1 f k o.0 in
      let v = receive_each-excluded d l (receive kv host c r s) db o.2 (u.0 ∙ f) (u.1 ∙ k) in
      (v.0 ∙ u.0, v.1 ∙ u.1)
