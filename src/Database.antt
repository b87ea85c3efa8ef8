-- ===== src/Database.antt =====
-- qdocdb/qdocdatabase.cpp: a database, the table of its open collections. The file system is a
-- parameter, and so is what QDocCollection::open answers.
pub mod Shared
use qdocdb.Prelude.{
  ℕ, suc, Bool, true, false, Option, none, some, List, [], ◌∷◌, ◌++◌, Text, ◌==◌, length,
  if◌then◌else◌,
}
use qdocdb.Kv.Interface.{KvInterface}
use qdocdb.OpenCollection.{OpenCollection}

-- QDir: does a directory exist, can it be made, and its canonical path.
pub record FileSystem : Type 0 where
  pub exists : Text → Bool
  pub mkpath : Text → Bool
  pub canonical_path : Text → Text

-- The collections with their directories; a pointer to one is its index in the list.
pub record Database (kv : KvInterface) : Type 0 where
  pub is_opened : Bool
  pub base_dir : Text
  pub coll_list : List (Text × OpenCollection kv)

module _ (kv : KvInterface) where
  unfoldable pub new_database : Database kv
  new_database = record { is_opened = false; base_dir = []; coll_list = [] }

  -- `open`: the result is false for errorDatabase.
  unfoldable pub open_database : FileSystem → Text → Database kv → Bool × Database kv
  open_database fs dir db =
      let opened = if fs.exists dir then true else fs.mkpath dir in
      (opened, record db { is_opened = opened; base_dir = fs.canonical_path dir })

  -- The first collection with a directory.
  unfoldable pub find_collection : Text → List (Text × OpenCollection kv) → Option ℕ
  find_collection dir [] = none
  find_collection dir ((d, coll) ∷ colls) =
      if d == dir
      then some 0
      else elim (find_collection dir colls) [ none ↦ none | some i ↦ some (suc i) ]

  -- `collection`: one that is open, or a new one.
  unfoldable pub collection :
      (Text → Bool → Option (OpenCollection kv))
      → Text
      → Bool
      → Database kv
      → Option ℕ × Database kv
  collection open_coll coll_name in_memory db =
      let dir = db.base_dir ++ b'/' ∷ coll_name in
      elim (find_collection dir db.coll_list) [
        | some i ↦ (some i, db)
        | none ↦ elim (open_coll dir in_memory) [
          | none ↦ (none, db)
          | some coll ↦ (
            some (length db.coll_list),
            record db { coll_list = db.coll_list ++ (dir, coll) ∷ [] },
          )
        ]
      ]
