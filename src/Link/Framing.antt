-- ===== src/Link/Framing.antt =====
-- The frames of a stream are put together again, however the stream has been cut into pieces.
use qdocdb.Prelude.{
  ℕ, zero, suc, ◌+◌, ◌≡◌, refl, sym, ap, ◌∙◌, ◌<◌, ◌≤◌, ◌⊎◌, inl, inr, Option, none, some, List, [],
  ◌∷◌, ◌++◌, Bytes, leb, eqb, length, length-append, arith, Bool-cases,
}
use mathlib.Core.List.{append_assoc, append-nil}
use qdocdb.Collection.Iterator.{is_empty}
use qdocdb.Link.{
  Variants, VariantsLaws, LinkBase, marshal, read_frame, read_length, ready_read, arrive,
  arrive_all, new_link,
}
use qdocdb.Link.Frame.{
  AllSendable, stream, At, length-marshal, Framed, read_frame-Framed, read_length-busy, idle, busy,
}

module _ (vs : Variants) where
  ready_read-empty :
      (fuel : ℕ) (l : LinkBase vs) → length l.socket ≡ 0 → ready_read vs (suc fuel) l ≡ some l
  unfolding ready_read is_empty
  ready_read-empty fuel l h = ground arith

  ready_read-short :
      (fuel : ℕ) (l : LinkBase vs)
      → l.rx_data_length ≡ 0
      → length l.socket < 4
      → ready_read vs (suc fuel) l ≡ some l
  unfolding ready_read is_empty
  ready_read-short fuel l e h = ground arith

  ready_read-length :
      (fuel : ℕ) (l : LinkBase vs)
      → l.rx_data_length ≡ 0
      → 4 ≤ length l.socket
      → 0 < (read_length vs l).rx_data_length
      → ready_read vs (suc fuel) l ≡ ready_read vs fuel (read_frame vs (read_length vs l))
  unfolding ready_read is_empty
  ready_read-length fuel l e h p = ground arith

  ready_read-frame :
      (fuel : ℕ) (l : LinkBase vs)
      → 0 < l.rx_data_length
      → 0 < length l.socket
      → ready_read vs (suc fuel) l ≡ ready_read vs fuel (read_frame vs l)
  unfolding ready_read is_empty
  ready_read-frame fuel l e h = ground arith

  -- What a call of `readyRead` leaves: less than a length between frames, or nothing on the socket.
  abbrev Settled : LinkBase vs → Type 0
  Settled l = (length l.socket ≡ 0) ⊎ ((l.rx_data_length ≡ 0) × (length l.socket < 4))

  Outcome : LinkBase vs → List vs.Map → Bytes → Option (LinkBase vs) → Type 0
  Outcome l ms future none = ⊥
  Outcome l ms future (some l') =
      (ms' : List vs.Map) × At vs l' ms' future
      × AllSendable vs ms'
      × (l'.received ++ ms' ≡ l.received ++ ms)
      × Settled l'

  resumed-Outcome :
      (l l1 : LinkBase vs) (ms ms1 : List vs.Map) (future : Bytes) (r : Option (LinkBase vs))
      → l1.received ++ ms1 ≡ l.received ++ ms
      → Outcome l1 ms1 future r
      → Outcome l ms future r
  unfolding Outcome
  resumed-Outcome l l1 ms ms1 future none e o = o
  resumed-Outcome l l1 ms ms1 future (some l') e (ms', p, ok, q, s) = (ms', p, ok, q ∙ e, s)

  Settled-Outcome :
      (l : LinkBase vs) (ms : List vs.Map) (future : Bytes)
      → AllSendable vs ms
      → At vs l ms future
      → Settled l
      → Outcome l ms future (some l)
  unfolding Outcome
  Settled-Outcome l ms future ok p s = (ms, p, ok, refl, s)

  ready_read-Outcome :
      (laws : VariantsLaws vs) (fuel : ℕ) (l : LinkBase vs) (ms : List vs.Map) (future : Bytes)
      → AllSendable vs ms
      → At vs l ms future
      → length l.socket < fuel
      → Outcome l ms future (ready_read vs fuel l)
  unfolding Framed
  ready_read-Outcome laws zero l ms future ok p h = absurd (omega arith)
  ready_read-Outcome laws (suc fuel) l [] future ok (idle e f) h =
      let none_left : length l.socket ≡ 0 =
        omega (arith, ap length f, length-append l.socket future) in
      rw (ready_read-empty fuel l none_left)
        (Settled-Outcome l [] future ok (idle e f) (inl none_left))
  ready_read-Outcome laws (suc fuel) l (m ∷ ms) future ok (idle e f) h =
      elim (Bool-cases (leb 4 (length l.socket))) [
        | inr c ↦
            rw (ready_read-short fuel l e (ground arith))
              (Settled-Outcome l (m ∷ ms) future ok (idle e f) (inr (e, ground arith)))
        | inl c ↦
            let l1 = read_length vs l in
            let (n, x, four, less, same) =
              read_length-busy vs l m ms future ok.0 f (ground arith) in
            let (ms', p, ok', q, shorter) =
              read_frame-Framed vs laws l1 m ms future ok n x (omega arith) (omega arith) in
            rw (ready_read-length fuel l e (ground arith) (omega arith)) (
              resumed-Outcome l (read_frame vs l1) (m ∷ ms) ms' future _
                (q ∙ ap (λ r. r ++ m ∷ ms) same)
                (ready_read-Outcome laws fuel (read_frame vs l1) ms' future ok' p (ground arith)))
      ]
  ready_read-Outcome laws (suc fuel) l (m ∷ ms) future ok (busy e f a b) h =
      elim (Bool-cases (eqb (length l.socket) 0)) [
        | inl c ↦
            rw (ready_read-empty fuel l (ground arith))
              (Settled-Outcome l (m ∷ ms) future ok (busy e f a b) (inl (ground arith)))
        | inr c ↦
            let (ms', p, ok', q, shorter) = read_frame-Framed vs laws l m ms future ok e f a b in
            rw (ready_read-frame fuel l (omega arith) (ground arith)) (
              resumed-Outcome l (read_frame vs l) (m ∷ ms) ms' future _ q
                (ready_read-Outcome laws fuel (read_frame vs l) ms' future ok' p (ground arith)))
      ]

  arrive-Outcome :
      (laws : VariantsLaws vs) (bytes : Bytes) (l : LinkBase vs) (ms : List vs.Map) (future : Bytes)
      → AllSendable vs ms
      → At vs l ms (bytes ++ future)
      → Outcome l ms future (arrive vs bytes l)
  unfolding arrive Outcome
  arrive-Outcome laws bytes l ms future ok (idle e f) =
      ready_read-Outcome laws (suc (length (l.socket ++ bytes)))
        (record l { socket = l.socket ++ bytes }) ms future ok
        (idle e (append_assoc l.socket bytes future ∙ f)) (omega arith)
  arrive-Outcome laws bytes l (m ∷ ms) future ok (busy e f a b) =
      ready_read-Outcome laws (suc (length (l.socket ++ bytes)))
        (record l { socket = l.socket ++ bytes }) (m ∷ ms) future ok
        (busy e (ap (λ r. l.rx_data ++ r) (append_assoc l.socket bytes future) ∙ f) a b)
        (omega arith)

  -- The pieces together.
  abbrev pub joined : List Bytes → Bytes
  joined [] = []
  joined (bytes ∷ chunks) = bytes ++ joined chunks

  -- At the end, with nothing to come, no message is left.
  At-end :
      (l : LinkBase vs) (ms : List vs.Map) → AllSendable vs ms → At vs l ms [] → Settled l → ms ≡ []
  At-end l [] ok p s = refl
  At-end l (m ∷ ms) ok (idle e f) s =
      let size : length l.socket ≡ length (vs.write m) + 4 + length (stream vs ms) = omega (
        arith,
        ap length f,
        length-append (marshal vs m) (stream vs ms),
        length-marshal vs m,
        length-append l.socket [],
      ) in
      elim s [ inl z ↦ absurd (omega arith) | inr z ↦ absurd (omega arith) ]
  At-end l (m ∷ ms) ok (busy e f a b) s =
      let size : length l.rx_data + length l.socket
          ≡ length (vs.write m) + 4 + length (stream vs ms) =
        omega (
          arith,
          ap length f,
          length-append (marshal vs m) (stream vs ms),
          length-marshal vs m,
          length-append l.socket [],
          length-append l.rx_data (l.socket ++ []),
        ) in
      elim s [ inl z ↦ absurd (omega arith) | inr z ↦ absurd (omega arith) ]

  abbrev pub received_of : Option (LinkBase vs) → Option (List vs.Map)
  received_of none = none
  received_of (some l) = some l.received

  -- What the induction over the pieces shows of each state that a call leaves.
  abbrev Ends : List Bytes → LinkBase vs → List vs.Map → Type 0
  Ends chunks l ms = received_of (arrive_all vs chunks l) ≡ some (l.received ++ ms)

  arrived-Ends :
      (chunks : List Bytes) (l : LinkBase vs) (ms : List vs.Map) (r : Option (LinkBase vs))
      → ((l' : LinkBase vs) (ms' : List vs.Map)
          → AllSendable vs ms'
          → At vs l' ms' (joined chunks)
          → Settled l'
          → Ends chunks l' ms')
      → Outcome l ms (joined chunks) r
      → received_of (elim r [ none ↦ none | some l' ↦ arrive_all vs chunks l' ])
        ≡ some (l.received ++ ms)
  unfolding Outcome
  arrived-Ends chunks l ms none ends o = absurd o
  arrived-Ends chunks l ms (some l') ends (ms', p, ok, q, s) = ends l' ms' ok p s ∙ ap some q

  arrive_all-Ends :
      (laws : VariantsLaws vs) (chunks : List Bytes) (l : LinkBase vs) (ms : List vs.Map)
      → AllSendable vs ms
      → At vs l ms (joined chunks)
      → Settled l
      → Ends chunks l ms
  unfolding arrive_all
  arrive_all-Ends laws [] l ms ok p s =
      rw (At-end l ms ok p s) (ap some (sym (append-nil l.received)))
  arrive_all-Ends laws (bytes ∷ chunks) l ms ok p s =
      arrived-Ends chunks l ms (arrive vs bytes l) (arrive_all-Ends laws chunks)
        (arrive-Outcome laws bytes l ms (joined chunks) ok p)

  -- Messages whose maps are not empty and have a positive int for a size, sent one after the other,
  -- arrive as bytes that are cut into pieces in any way: `readyRead`, called after each piece, returns
  -- every time, and the link has received exactly these messages, in order.
  pub arrive_all-received :
      (laws : VariantsLaws vs) (ms : List vs.Map) (chunks : List Bytes)
      → AllSendable vs ms
      → joined chunks ≡ stream vs ms
      → received_of (arrive_all vs chunks (new_link vs)) ≡ some ms
  unfolding new_link
  arrive_all-received laws ms chunks ok e =
      arrive_all-Ends laws chunks (new_link vs) ms ok (idle refl e) (inl refl)
