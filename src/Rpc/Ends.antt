-- ===== src/Rpc/Ends.antt =====
-- How calls of the client end: `TransportException`s, and what is awaited.
use xrtransport.Common.{
  ℕ, ◌≡◌, ◌≢◌, refl, ap, if◌then◌else◌, ◌∙◌, ◌⊎◌, inl, inr, List, ◌∷◌, ◌++◌, Option, none, some,
  arith, ◌==◌,
}
use xrtransport.Serialization.Stream.{Thrown, undefined, out_of_fuel, Result, ok, throws}
use xrtransport.Serialization.Stream
use xrtransport.Transport.Frame.{Message, msg_shutdown}
use xrtransport.Transport.State.{
  Status, created, opened, write_closed, closed, Transport, start_message,
}
use xrtransport.Transport.State
use xrtransport.Transport.Dispatch.{await_message}
use xrtransport.Transport.Dispatch
use xrtransport.Transport.Awaits.{Others, IsQuiet, serve, stopped, await_message-serve}
use xrtransport.Serialization.Word.{Word}
use xrtransport.Rpc.Call.{
  msg_function_call, msg_function_return, error_runtime_failure, Call, returns, finish,
  call_payload, rpc,
}
use xrtransport.Rpc.Transparent.{sent_call, rpc_sent}

-- The exceptions of the code, as opposed to undefined behaviour.
abbrev pub IsCaught : Thrown → Type 0
IsCaught Stream.undefined = ⊥
IsCaught Stream.out_of_fuel = ⊥
IsCaught _ = Unit

abbrev pub IsDefined {ℓ} : {A : Type ℓ} → Result A → Type 0
IsDefined (ok x) = Unit
IsDefined (throws e) = IsCaught e

-- What a call returns for a reply that is read with this result, and the memory that it has read.
module _ {O : Type 0} where
  abbrev pub result_of : Result ((Word 4 × O) × List ℕ) → Word 4
  result_of (ok p) = p.0.0
  result_of (throws e) = error_runtime_failure

  abbrev pub memory_of : Result ((Word 4 × O) × List ℕ) → Option O
  memory_of (ok p) = some p.0.1
  memory_of (throws e) = none

module _ {A O : Type 0} (c : Call A O) (run : ℕ → List ℕ → Transport → Transport) where
  start_message_refused :
      (s : Status) (t : Transport)
      → t.status ≡ s
      → s ≢ opened
      → (e : State.Exception) × (start_message msg_function_call t ≡ State.throws e)
  unfolding start_message
  start_message_refused created t e n = (State.not_started, rw e refl)
  start_message_refused opened t e n = absurd (n refl)
  start_message_refused write_closed t e n = (State.write_is_closed, rw e refl)
  start_message_refused closed t e n = (State.write_is_closed, rw e refl)

  -- On a transport that is not open, a call fails at once, whatever its arguments are, and nothing is
  -- sent.
  pub rpc_refused :
      (arrive : Transport → Transport) (a : A) (t : Transport)
      → t.status ≢ opened
      → rpc c run arrive a t ≡ returns error_runtime_failure none t
  unfolding rpc
  rpc_refused arrive a t n =
      let (e, h) = start_message_refused t.status t refl n in rw (h, rpc) refl

  module _ (quiet : IsQuiet run) where
    rpc_awaited :
        (a : A) (bs : List ℕ) (ms post : List Message) (m : Message) (t : Transport)
        → t.status ≡ opened
        → call_payload c a ≡ ok bs
        → Others msg_function_return ms
        → (m.header ≡ msg_function_return) ⊎ (m.header ≡ msg_shutdown)
        → let u = record (serve run ms (m ∷ post) (sent_call bs (ms ++ m ∷ post) t)) {
          queue = post;
        } in
          rpc c run (λ t'. record t' { queue = ms ++ m ∷ post }) a t
          ≡ finish c a (
              if m.header == msg_function_return
              then Dispatch.received m.payload u
              else Dispatch.failed State.await_aborted (stopped run u))
    rpc_awaited a bs ms post m t o e others h =
        rpc_sent c run (ms ++ m ∷ post) a bs t o e
        ∙ ap (finish c a) (
            await_message-serve run quiet msg_function_return ms post m
              (sent_call bs (ms ++ m ∷ post) t) (λ x. absurd (omega (arith, x))) (inl o) others refl
              h)

    -- If a shutdown message comes before the reply, a call on an open transport fails: the messages
    -- before it were served, the shutdown is answered, and the transport is closed.
    pub rpc_aborted :
        (a : A) (bs : List ℕ) (ms post : List Message) (m : Message) (t : Transport)
        → t.status ≡ opened
        → call_payload c a ≡ ok bs
        → Others msg_function_return ms
        → m.header ≡ msg_shutdown
        → rpc c run (λ t'. record t' { queue = ms ++ m ∷ post }) a t
          ≡ returns error_runtime_failure none (
              stopped run (record (serve run ms (m ∷ post) (sent_call bs (ms ++ m ∷ post) t)) {
                queue = post;
              }))
    unfolding finish
    rpc_aborted a bs ms post m t o e others h =
        rpc_awaited a bs ms post m t o e others (inr h) ∙ rw h refl
