-- ===== src/Transport/Tests.antt =====
-- Messages and transports of a few bytes, and runs of their operations.
use xrtransport.Common.{ℕ, ◌≡◌, refl, inl, inr, true, false, List, [], ◌∷◌, ◌++◌, arith}
use xrtransport.Serialization.Bytes.{serialize}
use xrtransport.Transport.Frame.{
  Message, msg_shutdown, message_header, read_shutdown, closed_by_error, produce,
}
use xrtransport.Transport.Frames.{frame, frames, IsSendable, AllSendable, produce-frames}
use xrtransport.Transport.State.{
  opened, write_closed, closed, await_aborted, ok, Transport, new_transport, start, start_message,
  flush, send, shutdown_begin, shutdown_end, close,
}
use xrtransport.Transport.Dispatch.{
  received, failed, sleeps, exits, await_message, handle_message, consumer_round,
}
use xrtransport.Transport.Awaits.{IsQuiet, serve, stopped, await_message-serve}
use xrtransport.Transport.Handles.{handle_message-serve}
use xrtransport.Transport.Reach.{
  free, shutting, starts, sends, begins_shutdown, ends_shutdown, closes, Reach, here, next,
  IsOrderly, new_transport-IsOrderly,
}
use xrtransport.Transport.Race.{shutdown_race}

abbrev message : ℕ → Message
message header = record { header = header; payload = 10 ∷ 20 ∷ [] }

abbrev bye : Message
bye = record { header = msg_shutdown; payload = [] }

message-IsSendable : IsSendable (message 7)
message-IsSendable = record { header_fits = omega arith; payload_fits = omega arith }

bye-IsSendable : IsSendable bye
bye-IsSendable = record { header_fits = omega arith; payload_fits = omega arith }

all-AllSendable : AllSendable (message 7 ∷ [])
all-AllSendable = ((message-IsSendable, λ e. absurd (omega arith)), tt)

-- The wire format, little-endian.
frame_bytes : frame (message 7) ≡ 7 ∷ 0 ∷ 0 ∷ 0 ∷ 2 ∷ 0 ∷ 0 ∷ 0 ∷ 10 ∷ 20 ∷ []
unfolding message_header serialize
frame_bytes = refl

produce-frames_example :
    (produce (frames (message 7 ∷ []) ++ 1 ∷ [])
      ≡ (message 7 ∷ [] ++ (produce (1 ∷ [])).0, (produce (1 ∷ [])).1))
    × (produce (frames (message 7 ∷ []) ++ (frame bye ++ 1 ∷ []))
        ≡ (message 7 ∷ bye ∷ [], read_shutdown))
    × (produce (frames (message 7 ∷ [])) ≡ (message 7 ∷ [], closed_by_error))
produce-frames_example =
    produce-frames (message 7 ∷ []) bye (1 ∷ []) all-AllSendable bye-IsSendable refl

-- A handler that sends its payload back.
abbrev echo : ℕ → List ℕ → Transport → Transport
echo h p t = record t { sent = t.sent ++ record { header = h; payload = p } ∷ [] }

abbrev idle : ℕ → List ℕ → Transport → Transport
idle h p t = t

abbrev busy : Transport
busy = record {
  status = opened;
  queue = message 7 ∷ message 8 ∷ message 9 ∷ [];
  handlers = (7, 70) ∷ [];
  sent = [];
  stream_closed = false;
}

echo-IsQuiet : IsQuiet echo
echo-IsQuiet = record { keeps_queue = λ h p t. refl; keeps_status = λ h p t. refl }

await_message-serve_example :
    await_message echo 8 busy
    ≡ received
        (10 ∷ 20 ∷ [])
        (record (serve echo (message 7 ∷ []) (message 8 ∷ message 9 ∷ []) busy) {
          queue = message 9 ∷ [];
        })
await_message-serve_example =
    await_message-serve echo echo-IsQuiet 8 (message 7 ∷ []) (message 9 ∷ []) (message 8) busy
      (λ e. absurd (omega arith)) (inl refl)
      ((λ e. absurd (omega arith)), (λ e. absurd (omega arith)), tt) refl (inl refl)

-- A peer asks to shut down before the awaited message comes.
abbrev ending : Transport
ending = record busy { queue = message 7 ∷ bye ∷ message 9 ∷ [] }

handle_message-serve_example :
    handle_message echo 8 ending
    ≡ failed await_aborted (
        stopped echo (record (serve echo (message 7 ∷ []) (bye ∷ message 9 ∷ []) ending) {
          queue = message 9 ∷ [];
        }))
handle_message-serve_example =
    handle_message-serve echo echo-IsQuiet 8 (message 7 ∷ []) (message 9 ∷ []) bye ending (inl refl)
      ((λ e. absurd (omega arith)), (λ e. absurd (omega arith)), tt) refl (inr refl)

abbrev idle_open : Transport
idle_open = record { status = opened; queue = []; handlers = []; sent = []; stream_closed = false }

abbrev said_bye : Transport
said_bye = record idle_open { sent = message 7 ∷ bye ∷ [] }

abbrev done : Transport
done = record said_bye { status = write_closed; stream_closed = true }

-- A transport is started, sends a message, and is shut down; the producer closes it in the middle.
life : Reach new_transport free done free
unfolding new_transport start send start_message flush shutdown_begin shutdown_end close
life =
    next {u = record said_bye { status = closed; stream_closed = true }} {m = shutting}
      (next {u = said_bye} {m = shutting}
        (next {u = record idle_open { sent = message 7 ∷ [] }} {m = free}
          (next {u = idle_open} {m = free} (next {m = free} here (starts refl))
            (sends (message 7) (λ e. absurd (omega arith)) refl))
          (begins_shutdown refl))
        (closes refl))
      (ends_shutdown refl)

new_transport-IsOrderly_example : IsOrderly done free
new_transport-IsOrderly_example = new_transport-IsOrderly life

shutdown_race_example :
    (t' : Transport) × (shutdown_begin idle_open ≡ ok t')
    × ((shutdown_end (close t')).status ≡ write_closed)
    × ((shutdown_end (close t')).stream_closed ≡ true)
    × (consumer_round idle (shutdown_end (close t')) ≡ sleeps)
    × (consumer_round idle (close (shutdown_end t')) ≡ exits)
shutdown_race_example = shutdown_race idle idle_open refl refl
