-- ===== src/Transport/Awaits.antt =====
-- What a user that awaits a message gets, and what happens to the messages before it.
use xrtransport.Common.{
  ℕ, zero, suc, ◌<◌, ◌≡◌, ◌≢◌, refl, ap, sym, subst, ◌⊎◌, List, [], ◌∷◌, ◌++◌, Option, none, some,
  arith, length, length-append, append-nil, ◌==◌, if◌then◌else◌,
}
use xrtransport.Common.Dict.{find}
use xrtransport.Transport.Frame.{Message, msg_shutdown}
use xrtransport.Transport.State.{
  Status, opened, write_closed, closed, await_aborted, Transport, await_any_message,
}
use xrtransport.Transport.Dispatch.{
  waiting, received, failed, call_handler, dispatch_to_handler, await_loop, await_message,
}

-- The transport is started and not closed.
abbrev pub IsLive : Status → Type 0
IsLive s = (s ≡ opened) ⊎ (s ≡ write_closed)

-- None of the messages is the awaited one or asks to shut down.
abbrev pub Others : ℕ → List Message → Type 0
Others header [] = Unit
Others header (m ∷ ms) = (m.header ≢ header) × (m.header ≢ msg_shutdown) × Others header ms

module _ (run : ℕ → List ℕ → Transport → Transport) where
  -- Handlers that take no message from the queue and do not change the status.
  pub record IsQuiet : Type 0 where
    pub keeps_queue : (h : ℕ) (p : List ℕ) (t : Transport) → (run h p t).queue ≡ t.queue
    pub keeps_status : (h : ℕ) (p : List ℕ) (t : Transport) → (run h p t).status ≡ t.status

  -- One message handed to its handler, if there is one.
  abbrev pub served : Message → Transport → Transport
  served m t = call_handler run (find m.header t.handlers) m.payload t

  -- Messages taken off the queue and served one by one, with `rest` queued behind them.
  abbrev pub serve : List Message → List Message → Transport → Transport
  serve [] rest t = t
  serve (m ∷ ms) rest t = serve ms rest (served m (record t { queue = ms ++ rest }))

  -- The transport that has dispatched a shutdown message.
  abbrev pub stopped : Transport → Transport
  stopped t = record t {
    status = closed;
    sent = elim t.status [
      | opened ↦ t.sent ++ record { header = msg_shutdown; payload = [] } ∷ []
      | _ ↦ t.sent
    ];
  }

  module _ (quiet : IsQuiet) where
    pub call_handler_quiet :
        (h : Option ℕ) (p : List ℕ) (t : Transport)
        → ((call_handler run h p t).queue ≡ t.queue) × ((call_handler run h p t).status ≡ t.status)
    unfolding call_handler
    call_handler_quiet none p t = (refl, refl)
    call_handler_quiet (some h) p t = (quiet.keeps_queue h p t, quiet.keeps_status h p t)

    await_loop-serve :
        (header : ℕ) (ms post : List Message) (m : Message) (fuel : ℕ) (t : Transport)
        → header ≢ msg_shutdown
        → IsLive t.status
        → Others header ms
        → t.queue ≡ ms ++ m ∷ post
        → suc (length ms) < fuel
        → (m.header ≡ header
            → await_loop run fuel header t
              ≡ received m.payload (record (serve ms (m ∷ post) t) { queue = post }))
          × (m.header ≡ msg_shutdown
              → await_loop run fuel header t
                ≡ failed await_aborted (stopped (record (serve ms (m ∷ post) t) { queue = post })))
    unfolding await_loop dispatch_to_handler await_any_message
    await_loop-serve header ms post m zero t n l o q f = elim f [ ]
    await_loop-serve header ms post m (suc zero) t n l o q f = absurd (omega arith)
    await_loop-serve header [] post m (suc (suc fuel)) t n l o q f =
        (λ e. ground (arith, q), λ e. ground (arith, q))
    await_loop-serve header (x ∷ ms) post m (suc (suc fuel)) t n l o q f =
        let t' : Transport = record t { queue = ms ++ (m ∷ post) } in
        let k = call_handler_quiet (find x.header t'.handlers) x.payload t' in
        let ih =
          await_loop-serve header ms post m (suc fuel) (served x t') n (subst IsLive (sym k.1) l)
            o.2 k.0 (omega arith) in
        (λ e. ground (arith, q, ih.0 e), λ e. ground (arith, q, ih.1 e))

    -- In a live transport with quiet handlers, a user that awaits a message gets the first one with
    -- the awaited header, after each message before it was served, in order, and those behind it stay
    -- in the queue. If a shutdown message comes first, the wait is aborted: the messages before it
    -- were served, the shutdown was answered unless this side began it, and the transport is closed.
    pub await_message-serve :
        (header : ℕ) (ms post : List Message) (m : Message) (t : Transport)
        → header ≢ msg_shutdown
        → IsLive t.status
        → Others header ms
        → t.queue ≡ ms ++ m ∷ post
        → (m.header ≡ header) ⊎ (m.header ≡ msg_shutdown)
        → let u : Transport = record (serve ms (m ∷ post) t) { queue = post } in
          await_message run header t
          ≡ (if m.header == header then received m.payload u else failed await_aborted (stopped u))
    unfolding await_message
    await_message-serve header ms post m t n l o q c =
        let ih =
          await_loop-serve header ms post m (suc (length t.queue)) t n l o q
            (omega (arith, ap length q, length-append ms (m ∷ post))) in
        ground (arith, ih)

    await_loop-waits :
        (header : ℕ) (ms : List Message) (fuel : ℕ) (t : Transport)
        → IsLive t.status
        → Others header ms
        → t.queue ≡ ms
        → length ms < fuel
        → await_loop run fuel header t ≡ waiting (serve ms [] t)
    unfolding await_loop dispatch_to_handler await_any_message
    await_loop-waits header ms zero t l o q f = elim f [ ]
    await_loop-waits header [] (suc fuel) t l o q f = ground (arith, q)
    await_loop-waits header (x ∷ ms) (suc fuel) t l o q f =
        let t' : Transport = record t { queue = ms } in
        let k = call_handler_quiet (find x.header t'.handlers) x.payload t' in
        let t'' : Transport = record t { queue = ms ++ [] } in
        let same : t'' ≡ t' = ap (λ q'. record t { queue = q' }) (append-nil ms) in
        let ih =
          await_loop-waits header ms fuel (served x t') (subst IsLive (sym k.1) l) o.2 k.0
            (omega arith) in
        rw same (ground (arith, q, ih))

    -- While neither the awaited message nor a shutdown message is in the queue, the messages are
    -- served and the user waits.
    pub await_message-waits :
        (header : ℕ) (ms : List Message) (t : Transport)
        → header ≢ msg_shutdown
        → IsLive t.status
        → Others header ms
        → t.queue ≡ ms
        → await_message run header t ≡ waiting (serve ms [] t)
    unfolding await_message
    await_message-waits header ms t n l o q =
        let ih =
          await_loop-waits header ms (suc (length t.queue)) t l o q (omega (arith, ap length q)) in
        ground (arith, ih)
