-- ===== src/Rpc/Call.antt =====
-- The code that every function of src/client/rpc.cpp and every handler of
-- src/server/function_dispatch.cpp has, around the arguments that they write and read, and
-- `FunctionDispatch::handle_function` with the handler of src/server/server.cpp that calls it.
use xrtransport.Common.{ℕ, ◌-◌, ◌^◌, List, Option, none, some}
use xrtransport.Common.Dict.{Dict, find}
use xrtransport.Serialization.Stream.{
  undefined, out_of_fuel, not_loaded, unknown_function, Thrown, Result, ok, throws, Reader, pure,
  ◌>>=◌, bind,
}
use xrtransport.Serialization.Bytes.{serialize, deserialize, u32}
use xrtransport.Transport.State.{Attempt, Transport, start_message, flush}
use xrtransport.Transport.State
use xrtransport.Transport.Dispatch.{Awaited, received, failed, waiting, await_message}
use xrtransport.Serialization.Word.{Word, to_word, deserialize_word}
use xrtransport.Serialization.Wire.{◌⊕◌, scalar}

-- XRTP_MSG_FUNCTION_CALL and XRTP_MSG_FUNCTION_RETURN
abbrev pub msg_function_call : ℕ
msg_function_call = 1

abbrev pub msg_function_return : ℕ
msg_function_return = 2

-- XR_ERROR_RUNTIME_FAILURE, which is -2.
abbrev pub error_runtime_failure : Word 4
error_runtime_failure = to_word 4 (2 ^ 32 - 2)

-- What a function of the client has of its own: its id, the arguments `A` that it writes, and the
-- memory `O` of the application that it reads the reply into.
pub record Call (A O : Type 0) : Type 0 where
  pub function_id : ℕ
  pub request : A → Result (List ℕ)
  pub reply : A → Reader O

-- What a handler of the server has of its own: its key in `handlers`, the parameters that it reads,
-- and what it writes of the memory behind them once the runtime has returned.
pub record Handler (A O : Type 0) : Type 0 where
  pub key : ℕ
  pub params : Reader A
  pub results : A → O → Result (List ℕ)

-- A function of the runtime: its result, and what the memory behind the pointers holds then.
abbrev pub RuntimeFunction : Type 0 → Type 0 → Type 0
RuntimeFunction A O = A → Word 4 × O

module _ {A O : Type 0} (h : Handler A O) where
  -- A handler, from the bytes behind the function id to the payload of XRTP_MSG_FUNCTION_RETURN.
  -- `none` is a function that `ensure_function_loaded` does not find.
  unfoldable pub handle : Option (RuntimeFunction A O) → Word 8 → List ℕ → Result (List ℕ)
  handle none duration bs = throws not_loaded
  handle (some function) duration bs = bind (h.params bs) (λ p.
      let (result, memory) = function p.0 in scalar result ⊕ scalar duration ⊕ h.results p.0 memory)

-- `handlers`, each bound to the server that it runs on.
abbrev pub Handlers : Type 0
Handlers = Dict (List ℕ → Result (List ℕ))

unfoldable pub handle_function : Handlers → ℕ → List ℕ → Result (List ℕ)
handle_function handlers function_id bs = elim (find function_id handlers) [
  | none ↦ throws (unknown_function function_id)
  | some handler ↦ handler bs
]

-- The handler of XRTP_MSG_FUNCTION_CALL. An exception leaves no reply.
unfoldable pub handle_call : Handlers → List ℕ → Result (List ℕ)
unfolding handle_function
handle_call handlers bs = bind (deserialize u32 bs) (λ p. handle_function handlers p.0 p.1)

-- How a call of the client goes: it returns, with the memory that it has read into where it has read
-- all of it; or it waits for the producer; or it has no defined behaviour.
pub data Outcome (O : Type 0) : Type 0 where
  returns : Word 4 → Option O → Transport → Outcome O
  awaits : Transport → Outcome O
  breaks : Outcome O

module _ {A O : Type 0} (c : Call A O) where
  -- An exception is caught.
  unfoldable pub thrown : Thrown → Transport → Outcome O
  thrown undefined t = breaks
  thrown out_of_fuel t = breaks
  thrown _ t = returns error_runtime_failure none t

  -- The payload of XRTP_MSG_FUNCTION_RETURN. The duration only goes to the log.
  unfoldable pub read_reply : A → Reader (Word 4 × O)
  read_reply a = do
    result ← deserialize_word 4
    runtime_duration ← deserialize_word 8
    memory ← c.reply a
    pure (result, memory)

  unfoldable pub finish : A → Awaited → Outcome O
  unfolding read_reply thrown
  finish a (received payload t) = elim (read_reply a payload) [
    | ok p ↦ returns p.0.0 (some p.0.1) t
    | throws e ↦ thrown e t
  ]
  finish a (failed e t) = returns error_runtime_failure none t
  finish a (waiting t) = awaits t
  finish a _ = breaks

  -- The payload of XRTP_MSG_FUNCTION_CALL.
  unfoldable pub call_payload : A → Result (List ℕ)
  call_payload a = ok (serialize u32 c.function_id) ⊕ c.request a

  -- A call. `run` is what the client's own handlers do while the reply is awaited, and `arrive` what
  -- the producer has queued by then. The synchronization before the call is left out.
  unfoldable pub rpc :
      (ℕ → List ℕ → Transport → Transport) → (Transport → Transport) → A → Transport → Outcome O
  unfolding call_payload finish thrown start_message flush await_message
  rpc run arrive a t = elim (start_message msg_function_call t) [
    | State.throws e ↦ returns error_runtime_failure none t
    | State.ok msg_out ↦ elim (call_payload a) [
      | throws e ↦ thrown e t
      | ok bs ↦ elim (flush (record msg_out { payload = bs }) t) [
        | State.throws e ↦ returns error_runtime_failure none t
        | State.ok t' ↦ finish a (await_message run msg_function_return (arrive t'))
      ]
    ]
  ]
