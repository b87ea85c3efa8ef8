-- ===== src/Link/Cuts.antt =====
-- Lists of bytes that are cut in two, and integers as four bytes.
use qdocdb.Prelude.{
  ℕ, zero, suc, ◌^◌, ◌≡◌, refl, ap, ◌<◌, ◌≤◌, [], ◌∷◌, ◌++◌, Bytes, length, take, drop, arith,
}
use qdocdb.Link.{write_int, read_int}

pub read_int-write_int : (n : ℕ) → n < 2 ^ 32 → read_int (write_int n) ≡ n
unfolding read_int write_int
read_int-write_int n h = omega arith

pub length-write_int : (n : ℕ) → length (write_int n) ≡ 4
unfolding write_int
length-write_int n = refl

pub take-write_int : (n : ℕ) (t : Bytes) → take 4 (write_int n ++ t) ≡ write_int n
unfolding write_int
take-write_int n t = refl

pub drop-write_int : (n : ℕ) (t : Bytes) → drop 4 (write_int n ++ t) ≡ t
unfolding write_int
drop-write_int n t = refl

pub take_all : (n : ℕ) (l : Bytes) → length l ≤ n → take n l ≡ l
take_all zero [] h = refl
take_all zero (x ∷ l) h = absurd (omega arith)
take_all (suc n) [] h = refl
take_all (suc n) (x ∷ l) h = ap (λ r. x ∷ r) (take_all n l (omega arith))

pub drop_all : (n : ℕ) (l : Bytes) → length l ≤ n → drop n l ≡ []
drop_all zero [] h = refl
drop_all zero (x ∷ l) h = absurd (omega arith)
drop_all (suc n) [] h = refl
drop_all (suc n) (x ∷ l) h = drop_all n l (omega arith)

-- Of two cuts of the same bytes, the earlier one is inside the first part of the later one.
pub cut :
    (xs ys zs ws : Bytes)
    → xs ++ ys ≡ zs ++ ws
    → length xs ≤ length zs
    → (t : Bytes) × (zs ≡ xs ++ t) × (ys ≡ t ++ ws)
cut [] ys zs ws h k = (zs, refl, h)
cut (x ∷ xs) ys [] ws h k = absurd (omega arith)
cut (x ∷ xs) ys (z ∷ zs) ws h k = let (t, a, b) = cut xs ys zs ws (cc) (omega arith) in (t, cc, b)
