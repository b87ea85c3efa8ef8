-- ===== src/Database/Shared.antt =====
-- All requests for a collection get the same one.
use qdocdb.Prelude.{
  ℕ, ◌≡◌, refl, sym, ap, ◌∙◌, Bool, Bool-cases, Option, none, some, List, [], ◌∷◌, ◌++◌, Text, ◌==◌,
  ==_iff, length, if◌then◌else◌, arith, Option-cases, inl, inr,
}
use qdocdb.Kv.Interface.{KvInterface}
use qdocdb.OpenCollection.{OpenCollection}
use qdocdb.Database.{Database, find_collection, collection}

module _ (kv : KvInterface) where
  find_collection-append :
      (dir e : Text) (coll : OpenCollection kv) (colls : List (Text × OpenCollection kv))
      → find_collection kv dir (colls ++ (e, coll) ∷ []) ≡ elim (find_collection kv dir colls) [
        | some i ↦ some i
        | none ↦ if e == dir then some (length colls) else none
      ]
  unfolding find_collection
  find_collection-append dir e coll [] = refl
  find_collection-append dir e coll ((d, x) ∷ colls) =
      ground (arith, find_collection-append dir e coll colls)

  -- After a request for a collection has been answered with a place in the table, whatever the table
  -- was, a request for the same name, for a collection in memory or not, gets the same place and
  -- changes nothing; and each name that had a place before has it still, the requested name has the
  -- one that has been answered, and no other name has one.
  pub collection-again :
      (open_coll : Text → Bool → Option (OpenCollection kv)) (name other : Text) (a b : Bool)
      (db : Database kv) (i : ℕ)
      → (collection kv open_coll name a db).0 ≡ some i
      → let db' = (collection kv open_coll name a db).1 in
        let dir = db.base_dir ++ b'/' ∷ name in
        let other_dir = db.base_dir ++ b'/' ∷ other in
        (collection kv open_coll name b db' ≡ (some i, db'))
        × (find_collection kv other_dir db'.coll_list
            ≡ elim (find_collection kv other_dir db.coll_list) [
              | some j ↦ some j
              | none ↦ if dir == other_dir then some i else none
            ])
  unfolding collection
  collection-again open_coll name other a b db i h =
      let dir = db.base_dir ++ b'/' ∷ name in
      let other_dir = db.base_dir ++ b'/' ∷ other in
      elim (Option-cases (find_collection kv dir db.coll_list)) [
        | inl e ↦ elim (Option-cases (open_coll dir a)) [
          | inl f ↦ ground (arith, e, f)
          | inr (coll, f) ↦ ground (
            arith,
            e,
            f,
            find_collection-append dir dir coll db.coll_list,
            find_collection-append other_dir dir coll db.coll_list,
            ==_iff dir dir,
          )
        ]
        | inr (k, e) ↦ elim (Bool-cases (dir == other_dir)) [
          | inl q ↦
              let same = ap (λ d. find_collection kv d db.coll_list) ((==_iff dir other_dir).0 q) in
              ground (arith, e, sym same ∙ e, q)
          | inr q ↦ ground (arith, e, q)
        ]
      ]
