-- ===== src/Server/Sound/Databases.antt =====
-- Looking for the database and the collection of a request, and working on it, leaves what is sound.
use qdocdb.Prelude.{
  ℕ, ◌^◌, ◌≤◌, ◌<◌, ◌≡◌, refl, none, some, List, [], ◌∷◌, ◌++◌, Text, assoc, assoc_put,
  assoc-assoc_put, assoc_remove, map, ◌&&◌, ==_iff, length, length-append, arith, inl, inr,
  Option-cases, Bool-cases,
}
use qdocdb.Collection.Iterator.{is_empty}
use qdocdb.Kv.Interface.{KvInterface}
use qdocdb.OpenCollection.{OpenCollection}
use qdocdb.Database.{Database, collection, find_collection, new_database, open_database}
use qdocdb.Server.{Request, Place, Host, Server}
use qdocdb.Server.Operations.{search, index_collection, list_snapshots, change_snapshots}
use qdocdb.Server.Receive.{
  Target, get_database, open_at, get_collection, handle, handle_number, handle_collection,
}
use qdocdb.Server.Tables.{
  AllOpen, size, assoc-AllOpen, assoc_put-TablesOpen, AllOpen-append, size-assoc_put,
  size-assoc_put_self,
}
use qdocdb.Server.Kinds.{
  open_at-IsOpen, search-Fine, index_collection-Fine, list_snapshots-Fine, change_snapshots-Fine,
}
use qdocdb.Server.Sound.{IsPlace, Sound, Good, Sound-grow}
use qdocdb.Server.Sound.Cases.{
  on_collection-Good, begin_transaction-Good, write_open-Good, discard_open-Good,
  alter_documents-Good, observe_collection-Good, stop_observing-Good,
}

module _ (kv : KvInterface) (host : Host kv) where
  handle-Good :
      (c : ℕ) (r : Request) (p : Place) (s : Server kv)
      → Sound s
      → IsPlace p s
      → length s.transactions < 2 ^ 31
      → Good s (handle kv host c r p s)
  unfolding handle
  handle-Good c r p s h i small =
      let a = on_collection-Good kv host (search kv host r) p s h i (search-Fine kv host r) in
      let b =
        on_collection-Good kv host (index_collection kv host r) p s h i
          (index_collection-Fine kv host r) in
      let d =
        on_collection-Good kv host (list_snapshots kv host) p s h i (list_snapshots-Fine kv host) in
      let e =
        on_collection-Good kv host (change_snapshots kv host r) p s h i
          (change_snapshots-Fine kv host r) in
      ground (
        arith,
        a,
        b,
        d,
        e,
        h,
        begin_transaction-Good kv host p s h i small,
        alter_documents-Good kv host r p s h i,
        observe_collection-Good kv host c r p s h i,
      )

  pub handle_number-Good :
      (c : ℕ) (r : Request) (s : Server kv) → Sound s → Good s (handle_number kv host c r s)
  unfolding handle_number
  handle_number-Good c r s h = ground (
    arith,
    write_open-Good kv host r s h,
    discard_open-Good kv host r s h,
    stop_observing-Good kv host c r s h,
  )

  tables-Sound :
      (name : Text) (db : Database kv) (s : Server kv)
      → Sound s
      → AllOpen db.coll_list
      → size name s.databases ≤ length db.coll_list
      → Sound (record s { databases = assoc_put name db s.databases })
  tables-Sound name db s h o le =
      Sound-grow s (record s { databases = assoc_put name db s.databases }) h
        (assoc_put-TablesOpen name s.databases db h.open_tables o)
        (λ other. size-assoc_put name other s.databases db le) refl refl refl

  pub get_database-Sound :
      (name : Text) (s : Server kv)
      → Sound s
      → Sound (get_database kv host name s).1
        × ((get_database kv host name s).1.crashed ≡ s.crashed)
        × ((get_database kv host name s).1.transactions ≡ s.transactions)
  unfolding get_database
  get_database-Sound name s h = elim (Option-cases (assoc name s.databases)) [
    | inr (db, e) ↦ rw (e, get_database) (h, refl, refl)
    | inl e ↦
        let (opened, db) =
          open_database kv host.file_system (host.base_dir ++ b'/' ∷ name) (new_database kv) in
        elim (Bool-cases opened) [
          | inl f ↦
              rw (e, f, get_database)
                (
                  tables-Sound name db s h (unfold open_database new_database in tt)
                      (unfold size open_database new_database in ground (arith, e)),
                  refl,
                  refl,
                )
          | inr f ↦ rw (e, f, get_database) (h, refl, refl)
        ]
  ]

  pub get_database-found :
      (name : Text) (s : Server kv) (db : Database kv)
      → (get_database kv host name s).0 ≡ some db
      → assoc name (get_database kv host name s).1.databases ≡ some db
  unfolding get_database
  get_database-found name s db e = grind (arith, assoc-assoc_put, assoc_remove, map, ◌&&◌, ==_iff)

  find_collection-lt :
      (dir : Text) (l : List (Text × OpenCollection kv)) (i : ℕ)
      → find_collection kv dir l ≡ some i
      → i < length l
  unfolding find_collection
  find_collection-lt dir [] i e = cc
  find_collection-lt dir ((d, coll) ∷ l) i e = elim (Option-cases (find_collection kv dir l)) [
    | inl f ↦ ground (arith, f)
    | inr (j, f) ↦ ground (arith, f, find_collection-lt dir l j f)
  ]

  -- What `collection` answers is a collection of the database that it leaves, which has grown.
  collection-open :
      (t : Target) (db : Database kv) (s : Server kv) (i : ℕ)
      → AllOpen db.coll_list
      → let (o, db') = collection kv (open_at kv host s.id_gen) t.coll_name t.in_memory db in
        o ≡ some i
        → AllOpen db'.coll_list
          × (i < length db'.coll_list)
          × (length db.coll_list ≤ length db'.coll_list)
  unfolding collection
  collection-open t db s i h e =
      let dir = db.base_dir ++ b'/' ∷ t.coll_name in
      elim (Option-cases (find_collection kv dir db.coll_list)) [
        | inr (j, f) ↦ ground (arith, f, find_collection-lt dir db.coll_list j f, h)
        | inl f ↦ elim (Option-cases (open_at kv host s.id_gen dir t.in_memory)) [
          | inl g ↦ ground (arith, f, g)
          | inr (coll, g) ↦ ground (
            arith,
            f,
            g,
            AllOpen-append db.coll_list dir coll h
                (open_at-IsOpen kv host s.id_gen dir t.in_memory coll g),
            length-append db.coll_list ((dir, coll) ∷ []),
          )
        ]
      ]

  get_collection-none :
      (t : Target) (db : Database kv) (s : Server kv)
      → (collection kv (open_at kv host s.id_gen) t.coll_name t.in_memory db).0 ≡ none
      → get_collection kv host t db s ≡ (none, s)
  unfolding get_collection
  get_collection-none t db s e = ground (arith, e)

  get_collection-some :
      (t : Target) (db : Database kv) (s : Server kv) (i : ℕ)
      → (collection kv (open_at kv host s.id_gen) t.coll_name t.in_memory db).0 ≡ some i
      → let db' = (collection kv (open_at kv host s.id_gen) t.coll_name t.in_memory db).1 in
        get_collection kv host t db s ≡ (
          some (record { database = t.db_name; index = i }),
          record s { databases = assoc_put t.db_name db' s.databases },
        )
  unfolding get_collection
  get_collection-some t db s i e = ground (arith, e)

  pub handle_collection-Good :
      (c : ℕ) (r : Request) (t : Target) (db : Database kv) (s : Server kv)
      → Sound s
      → length s.transactions < 2 ^ 31
      → assoc t.db_name s.databases ≡ some db
      → Good s (handle_collection kv host c r t db s)
  unfolding handle_collection
  handle_collection-Good c r t db s h small e = elim (Bool-cases (is_empty t.coll_name)) [
    | inl f ↦ ground (arith, f, h)
    | inr f ↦
        let open_coll = open_at kv host s.id_gen in
        elim (Option-cases (collection kv open_coll t.coll_name t.in_memory db).0) [
          | inl g ↦ ground (arith, f, get_collection-none t db s g, h)
          | inr (i, g) ↦
              let db' = (collection kv open_coll t.coll_name t.in_memory db).1 in
              let (o, lt, grown) =
                collection-open t db s i (assoc-AllOpen t.db_name s.databases db h.open_tables e)
                  g in
              let s' : Server kv = record s { databases = assoc_put t.db_name db' s.databases } in
              let h' = tables-Sound t.db_name db' s h o (unfold size in ground (arith, e, grown)) in
              let p : Place = record { database = t.db_name; index = i } in
              let q = size-assoc_put_self t.db_name s.databases db' in
              ground (
                arith,
                f,
                get_collection-some t db s i g,
                handle-Good c r p s' h' (omega (arith, lt, q)) small,
              )
        ]
  ]
