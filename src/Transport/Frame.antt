-- ===== src/Transport/Frame.antt =====
-- Messages on the wire: `MessageLockOutImpl::flush` and the reads of `TransportImpl::producer_loop`.
use xrtransport.Common.{
  ℕ, zero, suc, ◌-◌, ◌%◌, ◌^◌, List, [], ◌∷◌, ◌++◌, Option, none, some, length, drop, ◌==◌,
  if◌then◌else◌,
}
use xrtransport.Serialization.Stream.{eof, Result, ok, throws, Reader, pure, ◌>>=◌, bind}
use xrtransport.Serialization.Bytes.{serialize, deserialize}

-- `MessageIn`
pub record Message : Type 0 where
  pub header : ℕ
  pub payload : List ℕ

-- XRTP_MSG_SHUTDOWN
abbrev pub msg_shutdown : ℕ
msg_shutdown = 99

-- `MessageHeader`: `header`, `_padding` and `size`.
unfoldable pub message_header : ℕ → ℕ → List ℕ
message_header header size = serialize 2 header ++ (serialize 2 0 ++ serialize 4 size)

-- The bytes of `sizeof(MessageHeader)`.
abbrev pub header_size : ℕ
header_size = 8

-- `MessageLockOutImpl`: the header that is written over the buffer's first bytes when it is flushed.
pub record MessageLockOut : Type 0 where
  pub header : ℕ
  pub buffer : List ℕ

-- The constructor saves space for the header in the buffer.
unfoldable pub new_message : ℕ → MessageLockOut
new_message header = record { header = header; buffer = message_header header 0 }

-- `asio::write` on `buffer`: `SendBuffer::write_some` takes all the bytes that it is given.
unfoldable pub write : MessageLockOut → List ℕ → MessageLockOut
write m bs = record m { buffer = m.buffer ++ bs }

-- The bytes that `flush` hands to `flush_to_stream`; `none` if the buffer was already flushed.
unfoldable pub flushed : MessageLockOut → Option (List ℕ)
flushed m =
    if length m.buffer == 0
    then none
    else some (
        message_header m.header ((length m.buffer - header_size) % 2 ^ 32)
        ++ drop header_size m.buffer)

-- `asio::read` into a payload of `size` bytes.
unfoldable pub read_bytes : ℕ → Reader (List ℕ)
read_bytes zero bs = ok ([], bs)
read_bytes (suc size) [] = throws eof
read_bytes (suc size) (b ∷ bs) = bind (read_bytes size bs) (λ p. ok (b ∷ p.0, p.1))

unfoldable pub read_message : Reader Message
read_message = do
  header ← deserialize 2
  padding ← deserialize 2
  size ← deserialize 4
  payload ← read_bytes size
  pure (record { header = header; payload = payload })

-- How `producer_loop` ends: behind a shutdown message, or by `close()` after an IO error.
pub data End : Type 0 where
  read_shutdown closed_by_error : End

unfoldable pub after_read :
    Result (Message × List ℕ) → (List ℕ → List Message × End) → List Message × End
after_read (throws e) next = ([], closed_by_error)
after_read (ok (m, bs)) next =
    let (ms, end) = next bs in
    if m.header == msg_shutdown then (m ∷ [], read_shutdown) else (m ∷ ms, end)

-- The messages that the loop queues from the bytes of a stream, while no other thread closes the
-- transport. A message takes eight bytes at least, so the number of bytes is fuel enough.
unfoldable pub producer_loop : ℕ → List ℕ → List Message × End
unfolding after_read
producer_loop zero bs = ([], closed_by_error)
producer_loop (suc fuel) bs = after_read (read_message bs) (producer_loop fuel)

unfoldable pub produce : List ℕ → List Message × End
produce bs = producer_loop (suc (length bs)) bs
