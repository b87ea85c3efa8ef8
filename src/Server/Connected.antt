-- ===== src/Server/Connected.antt =====
-- The clients that hold locks, and those whose requests wait, are connected.
use qdocdb.Prelude.{
  ℕ, ◌≡◌, true, false, some, List, [], ◌∷◌, ◌++◌, Text, assoc, assoc_put, assoc_remove,
  assoc-assoc_put, assoc-assoc_remove, ==_iff, eqb, arith,
}
use qdocdb.Server.{Request, is_client}
use qdocdb.Server.Quiet.{LockChange}
use qdocdb.Server.Receive.{locked_by_other}
use qdocdb.Server.Slots.{without, erase_client, erase_locks}

-- The owner of every lock is a client.
abbrev pub OwnersIn : List ℕ → List (Text × ℕ) → Type 0
OwnersIn cs [] = Unit
OwnersIn cs ((name, d) ∷ l) = (is_client d cs ≡ true) × OwnersIn cs l

-- So is the sender of every request that waits.
abbrev pub WaitersIn : List ℕ → List (ℕ × Request) → Type 0
WaitersIn cs [] = Unit
WaitersIn cs ((d, r) ∷ l) = (is_client d cs ≡ true) × WaitersIn cs l

is_client-append :
    (d c : ℕ) (cs : List ℕ) → is_client d cs ≡ true → is_client d (cs ++ c ∷ []) ≡ true
unfolding is_client
is_client-append d c [] h = cc
is_client-append d c (e ∷ cs) h = ground (arith, is_client-append d c cs)

is_client-erase_client :
    (d c : ℕ) (cs : List ℕ)
    → eqb d c ≡ false
    → is_client d cs ≡ true
    → is_client d (erase_client c cs) ≡ true
unfolding is_client erase_client
is_client-erase_client d c [] n h = cc
is_client-erase_client d c (e ∷ cs) n h = ground (arith, is_client-erase_client d c cs n)

pub OwnersIn-append :
    (c : ℕ) (cs : List ℕ) (l : List (Text × ℕ)) → OwnersIn cs l → OwnersIn (cs ++ c ∷ []) l
OwnersIn-append c cs [] h = tt
OwnersIn-append c cs ((name, d) ∷ l) h = (is_client-append d c cs h.0, OwnersIn-append c cs l h.1)

pub WaitersIn-append :
    (c : ℕ) (cs : List ℕ) (l : List (ℕ × Request)) → WaitersIn cs l → WaitersIn (cs ++ c ∷ []) l
WaitersIn-append c cs [] h = tt
WaitersIn-append c cs ((d, r) ∷ l) h = (is_client-append d c cs h.0, WaitersIn-append c cs l h.1)

-- A request that is put off waits for a client.
pub WaitersIn-snoc :
    (c : ℕ) (r : Request) (cs : List ℕ) (l : List (ℕ × Request))
    → is_client c cs ≡ true
    → WaitersIn cs l
    → WaitersIn cs (l ++ (c, r) ∷ [])
WaitersIn-snoc c r cs [] i h = (i, tt)
WaitersIn-snoc c r cs ((d, x) ∷ l) i h = (h.0, WaitersIn-snoc c r cs l i h.1)

pub WaitersIn-without :
    (c : ℕ) (cs : List ℕ) (l : List (ℕ × Request)) → WaitersIn cs l → WaitersIn cs (without c l)
unfolding without
WaitersIn-without c cs [] h = tt
WaitersIn-without c cs ((d, r) ∷ l) h = ground (arith, WaitersIn-without c cs l h.1)

-- When a client goes, its locks and its requests go with it.
pub OwnersIn-erase_locks :
    (c : ℕ) (cs : List ℕ) (l : List (Text × ℕ))
    → OwnersIn cs l
    → OwnersIn (erase_client c cs) (erase_locks c l)
unfolding erase_locks
OwnersIn-erase_locks c cs [] h = tt
OwnersIn-erase_locks c cs ((name, d) ∷ l) h =
    ground (arith, OwnersIn-erase_locks c cs l h.1, is_client-erase_client d c cs)

pub WaitersIn-erase_client :
    (c : ℕ) (cs : List ℕ) (l : List (ℕ × Request))
    → WaitersIn cs l
    → WaitersIn (erase_client c cs) (without c l)
unfolding without
WaitersIn-erase_client c cs [] h = tt
WaitersIn-erase_client c cs ((d, r) ∷ l) h =
    ground (arith, WaitersIn-erase_client c cs l h.1, is_client-erase_client d c cs)

OwnersIn-assoc_put :
    (name : Text) (c : ℕ) (cs : List ℕ) (l : List (Text × ℕ))
    → is_client c cs ≡ true
    → OwnersIn cs l
    → OwnersIn cs (assoc_put name c l)
unfolding assoc_put
OwnersIn-assoc_put name c cs [] i h = (i, tt)
OwnersIn-assoc_put name c cs ((n, d) ∷ l) i h =
    ground (arith, i, OwnersIn-assoc_put name c cs l i h.1)

OwnersIn-assoc_remove :
    (name : Text) (cs : List ℕ) (l : List (Text × ℕ))
    → OwnersIn cs l
    → OwnersIn cs (assoc_remove name l)
unfolding assoc_remove
OwnersIn-assoc_remove name cs [] h = tt
OwnersIn-assoc_remove name cs ((n, d) ∷ l) h = ground (arith, OwnersIn-assoc_remove name cs l h.1)

pub OwnersIn-LockChange :
    (c : ℕ) (name : Text) (cs : List ℕ) (l l' : List (Text × ℕ))
    → is_client c cs ≡ true
    → LockChange c name l l'
    → OwnersIn cs l
    → OwnersIn cs l'
OwnersIn-LockChange c name cs l l' i ch h =
    ground (arith, ch, OwnersIn-assoc_put name c cs l i h, OwnersIn-assoc_remove name cs l h)

pub assoc-OwnersIn :
    (name : Text) (d : ℕ) (cs : List ℕ) (l : List (Text × ℕ))
    → OwnersIn cs l
    → assoc name l ≡ some d
    → is_client d cs ≡ true
unfolding assoc
assoc-OwnersIn name d cs [] h e = cc
assoc-OwnersIn name d cs ((n, x) ∷ l) h e = ground (arith, assoc-OwnersIn name d cs l h.1)

-- Only the owner changes a lock.
pub LockChange-owner :
    (c d : ℕ) (name other : Text) (l l' : List (Text × ℕ))
    → LockChange c other l l'
    → assoc name l ≡ some d
    → eqb d c ≡ false
    → assoc name l' ≡ some d
unfolding locked_by_other
LockChange-owner c d name other l l' ch e n = ground (
  arith,
  ch,
  e,
  n,
  assoc-assoc_put other name c l,
  assoc-assoc_remove other name l,
  ==_iff other name,
)
