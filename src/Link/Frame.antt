-- ===== src/Link/Frame.antt =====
-- One frame: what the link reads of it, and what is left.
use qdocdb.Prelude.{
  ℕ, ◌+◌, ◌-◌, ◌^◌, ◌≡◌, refl, sym, ap, ◌∙◌, ◌<◌, ◌≤◌, inl, inr, false, List, [], ◌∷◌, ◌++◌, Bytes,
  leb, length, take, drop, length-append, take-append, drop-append, arith, Bool-cases,
}
use mathlib.Core.List.{append_assoc}
use qdocdb.Link.{
  Variants, VariantsLaws, LinkBase, write_int, marshal, unmarshal, deliver, read_frame, read_length,
}
use qdocdb.Link.Cuts.{
  read_int-write_int, length-write_int, take-write_int, drop-write_int, take_all, drop_all, cut,
}

module _ (vs : Variants) where
  -- A map that is not empty, and whose size is a positive int.
  abbrev pub IsSendable : vs.Map → Type 0
  IsSendable m = (0 < length (vs.write m)) × (length (vs.write m) < 2 ^ 31) × (vs.empty m ≡ false)

  abbrev pub AllSendable : List vs.Map → Type 0
  AllSendable [] = Unit {0}
  AllSendable (m ∷ ms) = IsSendable m × AllSendable ms

  abbrev pub stream : List vs.Map → Bytes
  stream [] = []
  stream (m ∷ ms) = marshal vs m ++ stream ms

  -- Between frames, or inside one: `future` is what has not arrived yet.
  pub data At (l : LinkBase vs) : List vs.Map → Bytes → Type 0 where
    idle :
        {ms : List vs.Map} {future : Bytes}
        → l.rx_data_length ≡ 0
        → l.socket ++ future ≡ stream ms
        → At l ms future
    busy :
        {m : vs.Map} {ms : List vs.Map} {future : Bytes}
        → l.rx_data_length ≡ length (vs.write m)
        → l.rx_data ++ (l.socket ++ future) ≡ marshal vs m ++ stream ms
        → 4 ≤ length l.rx_data
        → length l.rx_data < length (vs.write m) + 4
        → At l (m ∷ ms) future

  pub length-marshal : (m : vs.Map) → length (marshal vs m) ≡ length (vs.write m) + 4
  unfolding marshal write_int
  length-marshal m = omega arith

  pub unmarshal-marshal_map :
      (laws : VariantsLaws vs) (m : vs.Map) → unmarshal vs (marshal vs m) ≡ m
  unfolding unmarshal marshal write_int
  unmarshal-marshal_map laws m = laws.read-write m

  -- The link once a frame has been read whole, and after its length.
  pub completed : LinkBase vs → vs.Map → Bytes → LinkBase vs
  completed l m u = record l {
    rx_data = [];
    rx_data_length = 0;
    socket = u;
    received = l.received ++ m ∷ [];
  }

  module _ (laws : VariantsLaws vs) where
    pub read_frame_complete :
        (l : LinkBase vs) (m : vs.Map) (t u : Bytes)
        → IsSendable m
        → l.rx_data_length ≡ length (vs.write m)
        → marshal vs m ≡ l.rx_data ++ t
        → l.socket ≡ t ++ u
        → read_frame vs l ≡ completed l m u
    unfolding read_frame deliver completed
    read_frame_complete l m t u ok e f g =
        let n : ℕ = l.rx_data_length + 4 - length l.rx_data in
        let size : length t ≡ n =
          omega (arith, e, length-marshal m, ap length f, length-append l.rx_data t) in
        let taken : take n l.socket ≡ t =
          ap (λ k. take k l.socket) (sym size) ∙ ap (take (length t)) g ∙ take-append t u in
        let dropped : drop n l.socket ≡ u =
          ap (λ k. drop k l.socket) (sym size) ∙ ap (drop (length t)) g ∙ drop-append t u in
        ground (arith, taken, dropped, f, e, ok, length-marshal m, unmarshal-marshal_map laws m)

  pub read_frame-partial :
      (l : LinkBase vs) (m : vs.Map)
      → IsSendable m
      → l.rx_data_length ≡ length (vs.write m)
      → length l.rx_data + length l.socket < length (vs.write m) + 4
      → read_frame vs l ≡ record l { rx_data = l.rx_data ++ l.socket; socket = [] }
  unfolding read_frame
  read_frame-partial l m ok e b =
      let n : ℕ = l.rx_data_length + 4 - length l.rx_data in
      let taken : take n l.socket ≡ l.socket = take_all n l.socket (omega arith) in
      let dropped : drop n l.socket ≡ [] = drop_all n l.socket (omega arith) in
      ground (arith, taken, dropped, e, ok, length-append l.rx_data l.socket)

  -- What one reading of a frame's bytes leaves to be received, and that it takes bytes if there are
  -- any.
  unfoldable pub Framed : LinkBase vs → List vs.Map → Bytes → LinkBase vs → Type 0
  Framed l ms future l' =
      (ms' : List vs.Map) × At l' ms' future
      × AllSendable ms'
      × (l'.received ++ ms' ≡ l.received ++ ms)
      × (length l'.socket ≤ length l.socket - 1)

  pub completed-Framed :
      (l : LinkBase vs) (m : vs.Map) (ms : List vs.Map) (future t u : Bytes)
      → AllSendable ms
      → l.socket ≡ t ++ u
      → 0 < length t
      → stream ms ≡ u ++ future
      → Framed l (m ∷ ms) future (completed l m u)
  unfolding completed Framed
  completed-Framed l m ms future t u ok g p h = (
    ms,
    idle refl (sym h),
    ok,
    append_assoc l.received (m ∷ []) ms,
    omega (arith, ap length g, length-append t u),
  )

  pub partial-Framed :
      (l : LinkBase vs) (m : vs.Map) (ms : List vs.Map) (future : Bytes)
      → AllSendable (m ∷ ms)
      → l.rx_data_length ≡ length (vs.write m)
      → l.rx_data ++ (l.socket ++ future) ≡ marshal vs m ++ stream ms
      → 4 ≤ length l.rx_data
      → length l.rx_data + length l.socket < length (vs.write m) + 4
      → Framed l (m ∷ ms) future (record l { rx_data = l.rx_data ++ l.socket; socket = [] })
  unfolding Framed
  partial-Framed l m ms future ok e h a b = (
    m ∷ ms,
    busy e (append_assoc l.rx_data l.socket future ∙ h)
        (omega (arith, length-append l.rx_data l.socket))
        (omega (arith, length-append l.rx_data l.socket)),
    ok,
    refl,
    omega arith,
  )

  pub read_frame-Framed :
      (laws : VariantsLaws vs) (l : LinkBase vs) (m : vs.Map) (ms : List vs.Map) (future : Bytes)
      → AllSendable (m ∷ ms)
      → l.rx_data_length ≡ length (vs.write m)
      → l.rx_data ++ (l.socket ++ future) ≡ marshal vs m ++ stream ms
      → 4 ≤ length l.rx_data
      → length l.rx_data < length (vs.write m) + 4
      → Framed l (m ∷ ms) future (read_frame vs l)
  read_frame-Framed laws l m ms future ok e h a b =
      let (t, f, g) =
        cut l.rx_data (l.socket ++ future) (marshal vs m) (stream ms) h
          (omega (arith, length-marshal m)) in
      let size : length l.rx_data + length t ≡ length (vs.write m) + 4 =
        omega (arith, length-marshal m, ap length f, length-append l.rx_data t) in
      elim (Bool-cases (leb (length t) (length l.socket))) [
        | inl c ↦
            let (u, x, y) = cut t (stream ms) l.socket future (sym g) (ground arith) in
            rw (read_frame_complete laws l m t u ok.0 e f x)
              (completed-Framed l m ms future t u ok.1 x (omega arith) y)
        | inr c ↦
            rw (read_frame-partial l m ok.0 e (ground arith))
              (partial-Framed l m ms future ok e h a (ground arith))
      ]

  pub marshal-split :
      (m : vs.Map) (r : Bytes)
      → marshal vs m ++ r ≡ write_int (length (vs.write m)) ++ (vs.write m ++ r)
  unfolding marshal
  marshal-split m r = append_assoc (write_int (length (vs.write m))) (vs.write m) r

  -- The length of a frame has arrived.
  pub read_length-busy :
      (l : LinkBase vs) (m : vs.Map) (ms : List vs.Map) (future : Bytes)
      → IsSendable m
      → l.socket ++ future ≡ marshal vs m ++ stream ms
      → 4 ≤ length l.socket
      → let l' = read_length vs l in
        (l'.rx_data_length ≡ length (vs.write m))
        × (l'.rx_data ++ (l'.socket ++ future) ≡ marshal vs m ++ stream ms)
        × (length l'.rx_data ≡ 4)
        × (length l'.socket ≤ length l.socket)
        × (l'.received ≡ l.received)
  unfolding read_length
  read_length-busy l m ms future ok h four =
      let n : ℕ = length (vs.write m) in
      let (t, x, y) =
        cut (write_int n) (vs.write m ++ stream ms) l.socket future
          (sym (h ∙ marshal-split m (stream ms))) (omega (arith, length-write_int n)) in
      let taken : take 4 l.socket ≡ write_int n = ap (take 4) x ∙ take-write_int n t in
      let dropped : drop 4 l.socket ≡ t = ap (drop 4) x ∙ drop-write_int n t in
      rw (taken, dropped)
        (
          read_int-write_int n (omega arith),
          sym (append_assoc (write_int n) t future) ∙ ap (λ b. b ++ future) (sym x) ∙ h,
          length-write_int n,
          omega (arith, ap length x, length-append (write_int n) t),
          refl,
        )
