-- ===== src/Transport/Handles.antt =====
-- What a user that handles messages up to a header sees happen.
use xrtransport.Common.{
  ℕ, zero, suc, ◌<◌, ◌≡◌, ap, sym, subst, ◌⊎◌, List, [], ◌∷◌, ◌++◌, arith, length, length-append,
  ◌==◌, if◌then◌else◌,
}
use xrtransport.Common.Dict.{find}
use xrtransport.Transport.Frame.{Message, msg_shutdown}
use xrtransport.Transport.State.{await_aborted, Transport, await_any_message}
use xrtransport.Transport.Dispatch.{
  Awaited, handled, failed, dispatch_to_handler, handle_loop, handle_message,
}
use xrtransport.Transport.Awaits.{
  IsLive, Others, IsQuiet, served, serve, stopped, call_handler_quiet,
}

module _ (run : ℕ → List ℕ → Transport → Transport) (quiet : IsQuiet run) where
  -- How the loop ends with the message `m`, when `u` is the transport without it.
  abbrev pub handled_last : ℕ → Message → Transport → Awaited
  handled_last header m u =
      if m.header == msg_shutdown
      then (if m.header == header
          then handled (stopped run u)
          else failed await_aborted (stopped run u))
      else handled (served run m u)

  handle_loop-serve :
      (header : ℕ) (ms post : List Message) (m : Message) (fuel : ℕ) (t : Transport)
      → IsLive t.status
      → Others header ms
      → t.queue ≡ ms ++ m ∷ post
      → (m.header ≡ header) ⊎ (m.header ≡ msg_shutdown)
      → suc (length ms) < fuel
      → handle_loop run fuel header t
        ≡ handled_last header m (record (serve run ms (m ∷ post) t) { queue = post })
  unfolding handle_loop dispatch_to_handler await_any_message
  handle_loop-serve header ms post m zero t l o q c f = elim f [ ]
  handle_loop-serve header ms post m (suc zero) t l o q c f = absurd (omega arith)
  handle_loop-serve header [] post m (suc (suc fuel)) t l o q c f = ground (arith, q)
  handle_loop-serve header (x ∷ ms) post m (suc (suc fuel)) t l o q c f =
      let t' : Transport = record t { queue = ms ++ (m ∷ post) } in
      let k = call_handler_quiet run quiet (find x.header t'.handlers) x.payload t' in
      let ih =
        handle_loop-serve header ms post m (suc fuel) (served run x t')
          (subst (λ s. IsLive s) (sym k.1) l) o.2 k.0 c (omega arith) in
      ground (arith, q, ih)

  -- In a live transport with quiet handlers, a user that handles messages up to a header returns
  -- when the first message with it was served, behind every message before it, in order; those behind
  -- it stay in the queue. A shutdown message that comes first is answered, unless this side began the
  -- shutdown, and closes the transport; the call then fails, but returns if it was to handle that.
  pub handle_message-serve :
      (header : ℕ) (ms post : List Message) (m : Message) (t : Transport)
      → IsLive t.status
      → Others header ms
      → t.queue ≡ ms ++ m ∷ post
      → (m.header ≡ header) ⊎ (m.header ≡ msg_shutdown)
      → handle_message run header t
        ≡ handled_last header m (record (serve run ms (m ∷ post) t) { queue = post })
  unfolding handle_message
  handle_message-serve header ms post m t l o q c =
      let ih =
        handle_loop-serve header ms post m (suc (length t.queue)) t l o q c
          (omega (arith, ap length q, length-append ms (m ∷ post))) in
      ground (arith, ih)
