-- ===== src/Transport/Dispatch.antt =====
-- The dispatch of messages to handlers, and the loops that take messages from the queue.
use xrtransport.Common.{ℕ, zero, suc, List, Option, none, some, length, ◌==◌, if◌then◌else◌}
use xrtransport.Common.Dict.{find}
use xrtransport.Transport.Frame.{Message, msg_shutdown}
use xrtransport.Transport.State.{
  Status, created, opened, Exception, not_started, cannot_await_shutdown, await_aborted, Attempt,
  ok, throws, ◌>>=◌, Transport, start_message, flush, stop_threads, Any, got, aborted, waits,
  await_any_message,
}

-- How a loop over the queue ends: with the payload that was awaited, with its message handled, by an
-- exception, or with a wait for the producer. `out_of_fuel` is no behaviour of the code.
pub data Awaited : Type 0 where
  received : List ℕ → Transport → Awaited
  handled : Transport → Awaited
  failed : Exception → Transport → Awaited
  waiting : Transport → Awaited
  out_of_fuel : Awaited

-- What one round of `consumer_loop` does.
pub data Round : Type 0 where
  dispatched : Attempt Transport → Round
  exits sleeps : Round

-- Only a peer that did not begin the shutdown answers it.
unfoldable pub respond_at : Status → Transport → Attempt Transport
respond_at opened t = do msg_out ← start_message msg_shutdown t; flush msg_out t
respond_at _ t = ok t

-- `run` is what a registered handler does with a payload; an exception that it throws is caught.
module _ (run : ℕ → List ℕ → Transport → Transport) where
  unfoldable pub call_handler : Option ℕ → List ℕ → Transport → Transport
  call_handler none payload t = t
  call_handler (some h) payload t = run h payload t

  unfoldable pub dispatch_to_handler : Message → Transport → Attempt Transport
  unfolding call_handler respond_at start_message flush stop_threads
  dispatch_to_handler m t =
      if m.header == msg_shutdown
      then (do t' ← respond_at t.status t; ok (stop_threads t'))
      else ok (call_handler (find m.header t.handlers) m.payload t)

  unfoldable pub await_step : ℕ → Any → Transport → (Transport → Awaited) → Awaited
  await_step header aborted t next = failed await_aborted t
  await_step header waits t next = waiting t
  await_step header (got m t') t next =
      if m.header == header
      then received m.payload t'
      else elim (dispatch_to_handler m t') [ throws e ↦ failed e t' | ok t'' ↦ next t'' ]

  unfoldable pub await_loop : ℕ → ℕ → Transport → Awaited
  unfolding await_step
  await_loop zero header t = out_of_fuel
  await_loop (suc fuel) header t =
      await_step header (await_any_message t) t (await_loop fuel header)

  unfoldable pub await_at : Status → ℕ → Transport → Awaited
  unfolding await_loop
  await_at created header t = failed not_started t
  await_at _ header t =
      if header == msg_shutdown
      then failed cannot_await_shutdown t
      else await_loop (suc (length t.queue)) header t

  -- A round takes a message from the queue, so its length bounds their number where no handler
  -- lengthens it.
  unfoldable pub await_message : ℕ → Transport → Awaited
  unfolding await_at
  await_message header t = await_at t.status header t

  unfoldable pub handle_step : ℕ → Any → Transport → (Transport → Awaited) → Awaited
  handle_step header aborted t next = failed await_aborted t
  handle_step header waits t next = waiting t
  handle_step header (got m t') t next = elim (dispatch_to_handler m t') [
    | throws e ↦ failed e t'
    | ok t'' ↦ let rest = next t'' in if m.header == header then handled t'' else rest
  ]

  unfoldable pub handle_loop : ℕ → ℕ → Transport → Awaited
  unfolding handle_step
  handle_loop zero header t = out_of_fuel
  handle_loop (suc fuel) header t =
      handle_step header (await_any_message t) t (handle_loop fuel header)

  unfoldable pub handle_at : Status → ℕ → Transport → Awaited
  unfolding handle_loop
  handle_at created header t = failed not_started t
  handle_at _ header t = handle_loop (suc (length t.queue)) header t

  unfoldable pub handle_message : ℕ → Transport → Awaited
  unfolding handle_at
  handle_message header t = handle_at t.status header t

  unfoldable pub consume : Any → Round
  consume aborted = exits
  consume waits = sleeps
  consume (got m t) = dispatched (dispatch_to_handler m t)

  -- The consumer's turn, with the message lock and no user that waits for it. It ends its loop on a
  -- closed transport, sleeps on an empty queue, and otherwise dispatches the oldest message.
  unfoldable pub consumer_round : Transport → Round
  unfolding consume await_any_message
  consumer_round t = consume (await_any_message t)
