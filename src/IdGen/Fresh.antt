-- ===== src/IdGen/Fresh.antt =====
-- The ids of new documents: no two of one second are equal.
use qdocdb.Prelude.{ℕ, zero, suc, ◌+◌, ◌/◌, ◌%◌, ◌^◌, ◌<◌, ◌≡◌, ◌≢◌, Bytes, arith}
use mathlib.Core.List.{append_cancel_left}
use qdocdb.Qt.{Qt}
use qdocdb.IdGen.{IdGen, System, get_id, new_id_gen}

module _ (qt : Qt) (sys : System) where
  -- The generator after a number of ids.
  pub after_ids : ℕ → IdGen → IdGen
  after_ids zero g = g
  after_ids (suc n) g = after_ids n (get_id qt sys g).1

  counter-after_ids :
      (n : ℕ) (g : IdGen) → g.counter < 2 ^ 64 → (after_ids n g).counter ≡ (g.counter + n) % 2 ^ 64
  unfolding after_ids get_id
  counter-after_ids zero g h = omega arith
  counter-after_ids (suc n) g h =
      omega (arith, counter-after_ids n (get_id qt sys g).1 (omega arith))

  -- The ids of a generator whose counter is a quint64, at one time, if numbers are written in
  -- different ways.
  get_id-fresh :
      (hex : (a b : ℕ) → qt.to_hex a ≡ qt.to_hex b → a ≡ b) (g : IdGen) (m n : ℕ)
      → g.counter < 2 ^ 64
      → m < n
      → n < m + 2 ^ 64
      → (get_id qt sys (after_ids m g)).0 ≢ (get_id qt sys (after_ids n g)).0
  unfolding get_id
  get_id-fresh hex g m n h a b e =
      let x : ℕ = ((after_ids m g).counter + 1) % 2 ^ 64 in
      let y : ℕ = ((after_ids n g).counter + 1) % 2 ^ 64 in
      let time : Bytes = qt.to_hex ((sys.msecs_since_epoch / 1000) % 2 ^ 32) in
      let same : x ≡ y = hex x y (append_cancel_left time (qt.to_hex x) (qt.to_hex y) e) in
      omega (arith, counter-after_ids m g h, counter-after_ids n g h)

-- The counter of a new generator is a quint64.
new_id_gen-counter : (qrand : ℕ → ℕ → ℕ) (msecs : ℕ) → (new_id_gen qrand msecs).counter < 2 ^ 64
unfolding new_id_gen
new_id_gen-counter qrand msecs = omega arith

-- If numbers are written in different ways, the ids that a new generator gives at one time, fewer than
-- 2 ^ 64 calls apart, are different, whatever qrand answers.
pub new_id_gen-fresh :
    (qt : Qt) (sys : System) (hex : (a b : ℕ) → qt.to_hex a ≡ qt.to_hex b → a ≡ b)
    (qrand : ℕ → ℕ → ℕ) (msecs m n : ℕ)
    → m < n
    → n < m + 2 ^ 64
    → (get_id qt sys (after_ids qt sys m (new_id_gen qrand msecs))).0
      ≢ (get_id qt sys (after_ids qt sys n (new_id_gen qrand msecs))).0
new_id_gen-fresh qt sys hex qrand msecs m n =
    get_id-fresh qt sys hex (new_id_gen qrand msecs) m n (new_id_gen-counter qrand msecs)
