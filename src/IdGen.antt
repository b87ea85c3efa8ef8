-- ===== src/IdGen.antt =====
-- qdocdb/qdocdbcommonconfig.cpp: the generator of ids and the configuration.
pub mod Fresh
use qdocdb.Prelude.{
  ℕ, zero, suc, Option, none, some, ◌+◌, ◌*◌, ◌/◌, ◌%◌, ◌^◌, ◌++◌, Bool, Text, Bytes, [], ◌∷◌,
}
use qdocdb.Qt.{Qt}

-- The fields of QDocIdGen, with the number of UUIDs that the system has answered. `next_number` is an
-- int by its 32-bit pattern.
pub record IdGen : Type 0 where
  pub counter : ℕ
  pub next_number : ℕ
  pub uuids : ℕ

-- What the generator asks of the system: the time, and new UUIDs.
pub record System : Type 0 where
  pub msecs_since_epoch : ℕ
  pub create_uuid : ℕ → Bytes

-- The seconds in hexadecimal, then the counter, a quint64 that is raised first.
unfoldable pub get_id : Qt → System → IdGen → Bytes × IdGen
get_id qt sys g =
    let counter : ℕ = (g.counter + 1) % 2 ^ 64 in
    let tstamp : ℕ = (sys.msecs_since_epoch / 1000) % 2 ^ 32 in
    (qt.to_hex tstamp ++ qt.to_hex counter, record g { counter = counter })

-- The text of a new UUID, without its braces.
unfoldable pub get_uuid : System → IdGen → Bytes × IdGen
get_uuid sys g = (sys.create_uuid g.uuids, record g { uuids = g.uuids + 1 })

unfoldable pub get_next_number : IdGen → ℕ × IdGen
get_next_number g = (g.next_number, record g { next_number = (g.next_number + 1) % 2 ^ 32 })

-- One hexadecimal digit for each call of qrand, of which `n` came before, for a count that is not
-- negative. Nothing calls it.
unfoldable pub get_random_bytes : Qt → (ℕ → ℕ) → ℕ → ℕ → Bytes
get_random_bytes qt qrand n zero = []
get_random_bytes qt qrand n (suc count) =
    qt.to_hex (qrand n % 16) ++ get_random_bytes qt qrand (n + 1) count

-- A new generator: `qrand seed n` is the answer of qrand after qsrand(seed) and `n` more calls, an
-- int that is not negative. The shifted bits and the masked bits do not meet, so `|` adds them.
unfoldable pub new_id_gen : (ℕ → ℕ → ℕ) → ℕ → IdGen
new_id_gen qrand msecs_since_start_of_day =
    let seed : ℕ = msecs_since_start_of_day % 2 ^ 32 in
    record {
      counter = (qrand seed 0 * 2 ^ 32) % 2 ^ 64 + qrand seed 1 % 2 ^ 32;
      next_number = 1;
      uuids = 0;
    }

-- The configuration. The generator that it points to is passed beside it.
pub record CommonConfig : Type 0 where
  pub is_custom_id_gen : Bool
  pub read_only_key : Text
  pub read_only_key_valid : Bool
  pub uuid_path : Text
  pub uuid_path_valid : Bool

unfoldable pub is_set : Text → Bool
is_set [] = Bool.false
is_set (c ∷ s) = Bool.true

unfoldable pub is_read_only_key_valid : CommonConfig → Bool
is_read_only_key_valid c = c.read_only_key_valid

unfoldable pub is_uuid_path_valid : CommonConfig → Bool
is_uuid_path_valid c = c.uuid_path_valid

-- The constructor, with the generator that it is given, or a new one.
unfoldable pub new_common_config :
    (ℕ → ℕ → ℕ) → ℕ → Option IdGen → Text → Text → CommonConfig × IdGen
new_common_config qrand msecs id_gen uuid_path read_only_key =
    let config : Bool → CommonConfig = λ custom. record {
      is_custom_id_gen = custom;
      read_only_key = read_only_key;
      read_only_key_valid = is_set read_only_key;
      uuid_path = uuid_path;
      uuid_path_valid = is_set uuid_path;
    } in
    elim id_gen [
      | none ↦ (config Bool.false, new_id_gen qrand msecs)
      | some g ↦ (config Bool.true, g)
    ]
