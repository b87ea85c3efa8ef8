-- ===== src/Server/Tables.antt =====
-- The tables of databases and of their collections: all collections are of the type that has
-- transactions, and the tables only grow.
use qdocdb.Prelude.{
  ℕ, zero, suc, ◌≤◌, ◌<◌, ◌≡◌, refl, none, some, List, [], ◌∷◌, ◌++◌, Text, assoc, assoc_put,
  assoc-assoc_put, ==_iff, length, get_elem?, arith,
}
use qdocdb.Kv.Interface.{KvInterface}
use qdocdb.OpenCollection.{OpenCollection, type_collection}
use qdocdb.Database.{Database}
use qdocdb.Server.{replace_collection}

module _ {kv : KvInterface} where
  abbrev pub IsOpen : OpenCollection kv → Type 0
  IsOpen coll = coll.class_type ≡ type_collection

  abbrev pub AllOpen : List (Text × OpenCollection kv) → Type 0
  AllOpen [] = Unit
  AllOpen ((dir, coll) ∷ l) = IsOpen coll × AllOpen l

  abbrev pub TablesOpen : List (Text × Database kv) → Type 0
  TablesOpen [] = Unit
  TablesOpen ((name, db) ∷ dbs) = AllOpen db.coll_list × TablesOpen dbs

  -- How many collections of a database are open.
  unfoldable pub size : Text → List (Text × Database kv) → ℕ
  size name dbs = elim (assoc name dbs) [ none ↦ 0 | some db ↦ length db.coll_list ]

  pub assoc-AllOpen :
      (name : Text) (dbs : List (Text × Database kv)) (db : Database kv)
      → TablesOpen dbs
      → assoc name dbs ≡ some db
      → AllOpen db.coll_list
  unfolding assoc
  assoc-AllOpen name [] db h e = cc
  assoc-AllOpen name ((n, d) ∷ dbs) db h e = ground (arith, assoc-AllOpen name dbs db h.1)

  pub assoc_put-TablesOpen :
      (name : Text) (dbs : List (Text × Database kv)) (db : Database kv)
      → TablesOpen dbs
      → AllOpen db.coll_list
      → TablesOpen (assoc_put name db dbs)
  unfolding assoc_put
  assoc_put-TablesOpen name [] db h o = (o, tt)
  assoc_put-TablesOpen name ((n, d) ∷ dbs) db h o =
      ground (arith, assoc_put-TablesOpen name dbs db h.1 o)

  pub get_elem?-IsOpen :
      (l : List (Text × OpenCollection kv)) (i : ℕ) (x : Text × OpenCollection kv)
      → AllOpen l
      → get_elem? l i ≡ some x
      → IsOpen x.1
  get_elem?-IsOpen [] i x h e = cc
  get_elem?-IsOpen (y ∷ l) zero x h e = ground arith
  get_elem?-IsOpen (y ∷ l) (suc i) x h e = get_elem?-IsOpen l i x h.1 e

  pub get_elem?-some :
      (l : List (Text × OpenCollection kv)) (i : ℕ)
      → i < length l
      → (x : Text × OpenCollection kv) × (get_elem? l i ≡ some x)
  get_elem?-some [] i h = absurd (omega arith)
  get_elem?-some (y ∷ l) zero h = (y, refl)
  get_elem?-some (y ∷ l) (suc i) h = get_elem?-some l i (omega arith)

  pub AllOpen-append :
      (l : List (Text × OpenCollection kv)) (dir : Text) (coll : OpenCollection kv)
      → AllOpen l
      → IsOpen coll
      → AllOpen (l ++ (dir, coll) ∷ [])
  AllOpen-append [] dir coll h o = (o, tt)
  AllOpen-append (y ∷ l) dir coll h o = (h.0, AllOpen-append l dir coll h.1 o)

  pub replace_collection-AllOpen :
      (i : ℕ) (coll : OpenCollection kv) (l : List (Text × OpenCollection kv))
      → AllOpen l
      → IsOpen coll
      → AllOpen (replace_collection kv i coll l)
  unfolding replace_collection
  replace_collection-AllOpen i coll [] h o = tt
  replace_collection-AllOpen zero coll (y ∷ l) h o = (o, h.1)
  replace_collection-AllOpen (suc i) coll (y ∷ l) h o =
      (h.0, replace_collection-AllOpen i coll l h.1 o)

  pub length-replace_collection :
      (i : ℕ) (coll : OpenCollection kv) (l : List (Text × OpenCollection kv))
      → length (replace_collection kv i coll l) ≡ length l
  unfolding replace_collection
  length-replace_collection i coll [] = refl
  length-replace_collection zero coll (y ∷ l) = refl
  length-replace_collection (suc i) coll (y ∷ l) = omega (arith, length-replace_collection i coll l)

  -- A table grows where a database is put that has at least as many collections.
  pub size-assoc_put :
      (name other : Text) (dbs : List (Text × Database kv)) (db : Database kv)
      → size name dbs ≤ length db.coll_list
      → size other dbs ≤ size other (assoc_put name db dbs)
  unfolding size
  size-assoc_put name other dbs db h =
      ground (arith, assoc-assoc_put name other db dbs, ==_iff name other)

  pub size-assoc_put_self :
      (name : Text) (dbs : List (Text × Database kv)) (db : Database kv)
      → size name (assoc_put name db dbs) ≡ length db.coll_list
  unfolding size
  size-assoc_put_self name dbs db =
      ground (arith, assoc-assoc_put name name db dbs, ==_iff name name)
