-- ===== src/Transport/Frames.antt =====
-- Framing: the receiver queues the messages that were sent, in order.
use xrtransport.Common.{
  ℕ, zero, suc, ◌^◌, ◌≤◌, ◌<◌, ◌≡◌, ◌≢◌, refl, ap, sym, subst, List, [], ◌∷◌, ◌++◌, append_assoc,
  append-nil, some, arith, length, length-append, drop, ◌==◌, if◌then◌else◌,
}
use xrtransport.Serialization.Stream.{
  Result, ok, throws, ◌>>=◌, Reads, >>=-Reads, bind-eq-ok, ok-injective,
}
use xrtransport.Serialization.Bytes.{
  serialize, deserialize, deserialize-serialize, length-serialize, length-deserialize,
}
use xrtransport.Transport.Frame.{
  Message, msg_shutdown, message_header, header_size, new_message, write, flushed, read_bytes,
  read_message, End, read_shutdown, closed_by_error, after_read, producer_loop, produce,
}

-- The bytes of a message on the wire.
abbrev pub frame : Message → List ℕ
frame m = message_header m.header (length m.payload) ++ m.payload

pub record IsSendable (m : Message) : Type 0 where
  pub header_fits : m.header < 2 ^ 16
  pub payload_fits : length m.payload < 2 ^ 32

length-message_header : (h s : ℕ) → length (message_header h s) ≡ 8
unfolding message_header
length-message_header h s = omega (
  arith,
  length-append (serialize 2 h) (serialize 2 0 ++ serialize 4 s),
  length-append (serialize 2 0) (serialize 4 s),
  length-serialize 2 h,
  length-serialize 2 0,
  length-serialize 4 s,
)

drop-append : (xs ys : List ℕ) → drop (length xs) (xs ++ ys) ≡ ys
drop-append [] ys = refl
drop-append (x ∷ xs) ys = drop-append xs ys

drop-header : (h s : ℕ) (ys : List ℕ) → drop header_size (message_header h s ++ ys) ≡ ys
drop-header h s ys =
    subst (λ n. drop n (message_header h s ++ ys) ≡ ys) (length-message_header h s)
      (drop-append (message_header h s) ys)

-- A message lock that is filled and flushed puts the message's frame on the wire.
pub flushed-write :
    (m : Message) → IsSendable m → flushed (write (new_message m.header) m.payload) ≡ some (frame m)
unfolding flushed write new_message
flushed-write m s = ground (
  arith,
  length-append (message_header m.header 0) m.payload,
  length-message_header m.header 0,
  drop-header m.header 0 m.payload,
)

read_bytes-append : (bs : List ℕ) → Reads (read_bytes (length bs)) bs bs
unfolding read_bytes
read_bytes-append [] rest = refl
read_bytes-append (b ∷ bs) rest = rw (read_bytes-append bs rest)

-- A frame is read as its message.
pub read_message-frame : (m : Message) → IsSendable m → Reads read_message (frame m) m
unfolding read_message message_header
read_message-frame m s =
    subst (λ bs. Reads read_message bs m) (sym regrouped)
      (>>=-Reads (deserialize 2) _ (serialize 2 m.header) _
        (deserialize-serialize 2 m.header s.header_fits)
        (>>=-Reads (deserialize 2) _ (serialize 2 0) _ (deserialize-serialize 2 0 (omega arith)) (
          >>=-Reads (deserialize 4) _ (serialize 4 (length m.payload)) m.payload
            (deserialize-serialize 4 (length m.payload) s.payload_fits)
            (λ rest. rw (read_bytes-append m.payload rest, ◌>>=◌)))))
  where
    regrouped :
        frame m
        ≡ serialize 2 m.header ++ (serialize 2 0 ++ (serialize 4 (length m.payload) ++ m.payload))
    regrouped = simp append_assoc

length-read_bytes :
    (n : ℕ) (bs : List ℕ) (p : List ℕ × List ℕ) → read_bytes n bs ≡ ok p → length p.1 ≤ length bs
unfolding read_bytes
length-read_bytes zero bs p h = ground arith
length-read_bytes (suc n) [] p h = cc
length-read_bytes (suc n) (b ∷ bs) p h =
    let (q, e, k) = bind-eq-ok (read_bytes n bs) _ h in
    let ih = length-read_bytes n bs q e in ground arith

length-read_message :
    (bs : List ℕ) (p : Message × List ℕ) → read_message bs ≡ ok p → length p.1 < length bs
unfolding read_message
length-read_message bs p h =
    let (a, ea, ha) = bind-eq-ok (deserialize 2 bs) _ h in
    let (b, eb, hb) = bind-eq-ok (deserialize 2 a.1) _ ha in
    let (c, ec, hc) = bind-eq-ok (deserialize 4 b.1) _ hb in
    let (d, ed, hd) = bind-eq-ok (read_bytes c.0 c.1) _ hc in
    let last = ap (λ q. length q.1) (ok-injective hd) in
    omega (
      arith,
      last,
      length-deserialize 2 bs a ea,
      length-deserialize 2 a.1 b eb,
      length-deserialize 4 b.1 c ec,
      length-read_bytes c.0 c.1 d ed,
    )

after_read_cong :
    (r : Result (Message × List ℕ)) (next next' : List ℕ → List Message × End)
    → ((p : Message × List ℕ) → r ≡ ok p → next p.1 ≡ next' p.1)
    → after_read r next ≡ after_read r next'
unfolding after_read
after_read_cong (throws e) next next' h = refl
after_read_cong (ok (m, bs)) next next' h = rw (h (m, bs) refl)

-- More fuel than bytes makes no difference.
producer_loop_fuel :
    (f g : ℕ) (bs : List ℕ)
    → length bs < f
    → length bs < g
    → producer_loop f bs ≡ producer_loop g bs
unfolding producer_loop
producer_loop_fuel zero g bs p q = elim p [ ]
producer_loop_fuel (suc f) zero bs p q = elim q [ ]
producer_loop_fuel (suc f) (suc g) bs p q =
    after_read_cong (read_message bs) (producer_loop f) (producer_loop g) (λ p' e.
      producer_loop_fuel f g p'.1 (omega (arith, length-read_message bs p' e))
        (omega (arith, length-read_message bs p' e)))

abbrev pub frames : List Message → List ℕ
frames [] = []
frames (m ∷ ms) = frame m ++ frames ms

-- Every message can be sent, and none asks to shut down.
abbrev pub AllSendable : List Message → Type 0
AllSendable [] = Unit
AllSendable (m ∷ ms) = (IsSendable m × (m.header ≢ msg_shutdown)) × AllSendable ms

-- What `producer_loop` does with one message and the result of going on.
abbrev pub queued : Message → List Message × End → List Message × End
queued m next = if m.header == msg_shutdown then (m ∷ [], read_shutdown) else (m ∷ next.0, next.1)

produce-frame :
    (m : Message) (rest : List ℕ)
    → IsSendable m
    → produce (frame m ++ rest) ≡ queued m (produce rest)
unfolding produce producer_loop after_read
produce-frame m rest s = rw (read_message-frame m s rest, after_read) (ap (queued m) fuelled)
  where
    fuelled : producer_loop (length (frame m ++ rest)) rest ≡ produce rest
    fuelled =
        producer_loop_fuel (length (frame m ++ rest)) (suc (length rest)) rest
          (omega (
            arith,
            length-append (frame m) rest,
            length-append (message_header m.header (length m.payload)) m.payload,
            length-message_header m.header (length m.payload),
          ))
          (omega arith)

produce-frames_rest :
    (ms : List Message) (rest : List ℕ)
    → AllSendable ms
    → produce (frames ms ++ rest) ≡ (ms ++ (produce rest).0, (produce rest).1)
produce-frames_rest [] rest s = refl
produce-frames_rest (m ∷ ms) rest s =
    rw
      (
        append_assoc (frame m) (frames ms) rest,
        produce-frame m (frames ms ++ rest) s.0.0,
        produce-frames_rest ms rest s.1,
      )
      (ground (arith, s.0.1))

produce-nil : produce [] ≡ ([], closed_by_error)
unfolding produce producer_loop after_read read_message deserialize
produce-nil = refl

-- The producer queues what was sent, in order, and goes on with the bytes behind it; it stops behind
-- a shutdown message, whatever follows, and closes the transport where the stream ends.
pub produce-frames :
    (ms : List Message) (bye : Message) (rest : List ℕ)
    → AllSendable ms
    → IsSendable bye
    → bye.header ≡ msg_shutdown
    → (produce (frames ms ++ rest) ≡ (ms ++ (produce rest).0, (produce rest).1))
      × (produce (frames ms ++ (frame bye ++ rest)) ≡ (ms ++ bye ∷ [], read_shutdown))
      × (produce (frames ms) ≡ (ms, closed_by_error))
produce-frames ms bye rest s b h = (
  produce-frames_rest ms rest s,
  rw (produce-frames_rest ms (frame bye ++ rest) s, produce-frame bye rest b, h),
  subst (λ bs. produce bs ≡ (ms, closed_by_error)) (append-nil (frames ms))
      (rw (produce-frames_rest ms [] s, produce-nil, append-nil ms)),
)
