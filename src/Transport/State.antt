-- ===== src/Transport/State.antt =====
-- `TransportImpl`: its state and the operations that take one critical section each.
use xrtransport.Common.{ℕ, Bool, true, false, List, [], ◌∷◌, ◌++◌}
use xrtransport.Common.Dict.{Dict, erase, assign}
use xrtransport.Transport.Frame.{Message, msg_shutdown}

-- `xrtp_TransportStatus`
pub data Status : Type 0 where
  created opened write_closed closed : Status

-- The `TransportException`s that the operations throw.
pub data Exception : Type 0 where
  not_started write_is_closed flush_is_closed already_started already_shut_down : Exception
  cannot_await_shutdown await_aborted : Exception

pub data Attempt {ℓ} (A : Type ℓ) : Type ℓ where
  ok : A → Attempt A
  throws : Exception → Attempt A

infixl 5 ◌>>=◌
abbrev pub ◌>>=◌ {ℓ κ} : {A : Type ℓ} {B : Type κ} → Attempt A → (A → Attempt B) → Attempt B
ok a >>= f = f a
throws e >>= f = throws e

-- `sent` holds the messages flushed to the stream, whose bytes are their frames, and `handlers` the
-- registered handlers by their messages' headers.
pub record Transport : Type 0 where
  pub status : Status
  pub queue : List Message
  pub handlers : Dict ℕ
  pub sent : List Message
  pub stream_closed : Bool

-- The constructor.
unfoldable pub new_transport : Transport
new_transport = record {
  status = created;
  queue = [];
  handlers = [];
  sent = [];
  stream_closed = false;
}

unfoldable pub start_at : Status → Transport → Attempt Transport
start_at created t = ok (record t { status = opened })
start_at _ t = throws already_started

unfoldable pub start : Transport → Attempt Transport
unfolding start_at
start t = start_at t.status t

unfoldable pub start_message_at : Status → ℕ → Attempt Message
start_message_at created header = throws not_started
start_message_at opened header = ok (record { header = header; payload = [] })
start_message_at write_closed header = throws write_is_closed
start_message_at closed header = throws write_is_closed

-- The message lock that the caller then writes to.
unfoldable pub start_message : ℕ → Transport → Attempt Message
unfolding start_message_at
start_message header t = start_message_at t.status header

unfoldable pub flush_at : Status → Message → Transport → Attempt Transport
flush_at opened m t = ok (record t { sent = t.sent ++ m ∷ [] })
flush_at _ m t = throws flush_is_closed

-- `MessageLockOutImpl::flush` through `flush_to_stream`.
unfoldable pub flush : Message → Transport → Attempt Transport
unfolding flush_at
flush m t = flush_at t.status m t

-- A message as a user sends it: start, write the payload, flush.
unfoldable pub send : Message → Transport → Attempt Transport
unfolding start_message flush
send m t = do msg_out ← start_message m.header t; flush (record msg_out { payload = m.payload }) t

unfoldable pub register_handler : ℕ → ℕ → Transport → Transport
register_handler header handler t = record t { handlers = assign header handler t.handlers }

unfoldable pub unregister_handler : ℕ → Transport → Transport
unregister_handler header t = record t { handlers = erase header t.handlers }

unfoldable pub clear_handlers : Transport → Transport
clear_handlers t = record t { handlers = [] }

unfoldable pub stop_threads : Transport → Transport
stop_threads t = record t { status = closed }

unfoldable pub close : Transport → Transport
unfolding stop_threads
close t = record (stop_threads t) { stream_closed = true }

-- The part of `shutdown` up to its flush, which throws unless the transport is open.
unfoldable pub shutdown_begin_at : Status → Transport → Attempt Transport
unfolding start_message flush
shutdown_begin_at opened t = do msg_out ← start_message msg_shutdown t; flush msg_out t
shutdown_begin_at _ t = throws already_shut_down

unfoldable pub shutdown_begin : Transport → Attempt Transport
unfolding shutdown_begin_at
shutdown_begin t = shutdown_begin_at t.status t

-- Its last statement, a step of its own since the producer may act in between.
unfoldable pub shutdown_end : Transport → Transport
shutdown_end t = record t { status = write_closed }

-- What the producer does with a message that it has read.
unfoldable pub enqueue : Message → Transport → Transport
enqueue m t = record t { queue = t.queue ++ m ∷ [] }

-- `await_any_message`: a message from the queue, the exception, or a wait for the producer.
pub data Any : Type 0 where
  got : Message → Transport → Any
  aborted waits : Any

unfoldable pub take_front : List Message → Transport → Any
take_front [] t = waits
take_front (m ∷ q) t = got m (record t { queue = q })

unfoldable pub await_any_at : Status → Transport → Any
unfolding take_front
await_any_at closed t = aborted
await_any_at _ t = take_front t.queue t

unfoldable pub await_any_message : Transport → Any
unfolding await_any_at
await_any_message t = await_any_at t.status t
