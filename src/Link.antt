-- ===== src/Link.antt =====
-- qdocdb/qdocdblinkbase.cpp: messages as frames on a socket, and the queue of requests that wait for
-- a lock. What QDataStream makes of a QVariantMap is a parameter.
pub mod Cuts
pub mod Frame
pub mod Framing
pub mod Types
use qdocdb.Prelude.{
  ℕ, zero, suc, ◌+◌, ◌-◌, ◌*◌, ◌/◌, ◌%◌, ◌^◌, ◌≡◌, ◌<◌, Bool, true, false, Option, none, some, List,
  [], ◌∷◌, ◌++◌, Bytes, ltb, leb, eqb, length, take, drop, if◌then◌else◌,
}
use qdocdb.Collection.Iterator.{is_empty}

-- QVariantMap with `<<` and `>>`.
pub record Variants : Type 1 where
  pub Map : Type 0
  pub empty : Map → Bool
  pub write : Map → Bytes
  pub read : Bytes → Map

-- A map is read as it was written.
pub record VariantsLaws (vs : Variants) : Type 0 where
  pub read-write : (m : vs.Map) → vs.read (vs.write m) ≡ m

-- A 32-bit integer, least byte first, and what four bytes stand for.
unfoldable pub write_int : ℕ → Bytes
write_int n = n % 256 ∷ n / 256 % 256 ∷ n / 65536 % 256 ∷ n / 16777216 % 256 ∷ []

unfoldable pub read_int : Bytes → ℕ
read_int (a ∷ b ∷ c ∷ d ∷ l) = a + 256 * b + 65536 * c + 16777216 * d
read_int _ = 0

module _ (vs : Variants) where
  -- `marshal`: the size of the map's bytes, then the bytes
  unfoldable pub marshal : vs.Map → Bytes
  unfolding write_int
  marshal m = write_int (length (vs.write m)) ++ vs.write m

  unfoldable pub unmarshal : Bytes → vs.Map
  unmarshal bytes = vs.read (drop 4 bytes)

  -- `socket` is what the socket has received and the link has not read; `received` are the messages
  -- that `receive` has been emitted with, in order. `rxDataLength`, an int, is its 32-bit pattern.
  pub record LinkBase : Type 0 where
    pub rx_data : Bytes
    pub rx_data_length : ℕ
    pub socket : Bytes
    pub received : List vs.Map
    pub unlock_wait : List vs.Map

  unfoldable pub new_link : LinkBase
  new_link = record {
    rx_data = [];
    rx_data_length = 0;
    socket = [];
    received = [];
    unlock_wait = [];
  }

  -- A frame that is complete: an empty map is not handed on.
  unfoldable pub deliver : Bytes → LinkBase → LinkBase
  unfolding unmarshal
  deliver bytes l =
      let m = unmarshal bytes in
      record l {
        rx_data = [];
        rx_data_length = 0;
        received = if vs.empty m then l.received else l.received ++ m ∷ [];
      }

  -- The bytes of a frame that are there are read. A negative length reads none, and is no size.
  unfoldable pub read_frame : LinkBase → LinkBase
  unfolding deliver
  read_frame l =
      let n = l.rx_data_length + 4 - length l.rx_data in
      let bytes = l.rx_data ++ take n l.socket in
      if leb (2 ^ 31) l.rx_data_length
      then l
      else if eqb (l.rx_data_length + 4) (length bytes)
      then deliver bytes (record l { socket = drop n l.socket })
      else record l { rx_data = bytes; socket = drop n l.socket }

  unfoldable pub read_length : LinkBase → LinkBase
  unfolding read_int
  read_length l = record l {
    rx_data = take 4 l.socket;
    rx_data_length = read_int (take 4 l.socket);
    socket = drop 4 l.socket;
  }

  -- The loop of `readyRead`, on fuel: none if it has not returned by then.
  unfoldable pub ready_read : ℕ → LinkBase → Option LinkBase
  ready_read zero l = none
  ready_read (suc fuel) l =
      let l' = if eqb l.rx_data_length 0 then read_length l else l in
      let rest = ready_read fuel (read_frame l') in
      if is_empty l.socket
      then some l
      else if eqb l.rx_data_length 0
      then (if ltb (length l.socket) 4
          then some l
          else if eqb l'.rx_data_length 0
          then some l'
          else rest)
      else rest

  -- Bytes arrive, and `readyRead` is called.
  unfoldable pub arrive : Bytes → LinkBase → Option LinkBase
  arrive bytes l =
      let l' = record l { socket = l.socket ++ bytes } in ready_read (suc (length l'.socket)) l'

  unfoldable pub arrive_all : List Bytes → LinkBase → Option LinkBase
  arrive_all [] l = some l
  arrive_all (bytes ∷ chunks) l = elim (arrive bytes l) [
    | none ↦ none
    | some l' ↦ arrive_all chunks l'
  ]

  unfoldable pub append_unlock_wait : vs.Map → LinkBase → LinkBase
  append_unlock_wait m l = record l { unlock_wait = l.unlock_wait ++ m ∷ [] }

  -- `onUnlocked` hands the waiting requests on again, those that were there when it began.
  unfoldable pub on_unlocked : LinkBase → LinkBase
  on_unlocked l = record l { received = l.received ++ l.unlock_wait; unlock_wait = [] }
