-- ===== src/Collection/Iterator/Isolated.antt =====
-- A snapshot does not see what is added to the documents in later snapshots.
use qdocdb.Prelude.{ℕ, ◌≤◌, ◌≡◌, refl, none, List, [], ◌∷◌, ◌++◌, Bytes, arith}
use qdocdb.Collection.Iterator.Visible.{Versions, Above, latest}
use qdocdb.Collection.Iterator.Visit.{Document}

-- The documents of the second list are those of the first, each with versions above `own` after its
-- own ones, and among them new documents that have only versions above `own`.
pub data Grown (own : ℕ) : List Document → List Document → Type 0 where
  done : Grown own [] []
  grown :
      {ds ds' : List Document} (id mark mark' : Bytes) (vs ws : Versions)
      → Above own ws
      → Grown own ds ds'
      → Grown own
          (record { id = id; mark = mark; versions = vs } ∷ ds)
          (record { id = id; mark = mark'; versions = vs ++ ws } ∷ ds')
  created :
      {ds ds' : List Document} (id mark : Bytes) (ws : Versions)
      → Above own ws
      → Grown own ds ds'
      → Grown own ds (record { id = id; mark = mark; versions = ws } ∷ ds')

latest-Above_some : (own s : ℕ) (ws : Versions) → own ≤ s → Above s ws → latest own ws ≡ none
unfolding latest
latest-Above_some own s [] h a = refl
latest-Above_some own s ((t, v) ∷ ws) h (a, b) =
    ground (arith, latest-Above_some own t ws (omega arith) b)

-- Versions that are all above `own` are not seen at `own`.
pub latest-Above : (own : ℕ) (ws : Versions) → Above own ws → latest own ws ≡ none
latest-Above own ws a = latest-Above_some own own ws (omega arith) a

-- Versions above `own` do not change what is seen at `own`.
pub latest-append-Above :
    (own : ℕ) (vs ws : Versions) → Above own ws → latest own (vs ++ ws) ≡ latest own vs
unfolding latest
latest-append-Above own [] ws a = latest-Above own ws a
latest-append-Above own ((t, v) ∷ vs) ws a = rw (latest-append-Above own vs ws a) refl
