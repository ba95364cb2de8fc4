-- ===== src/Serialization/Times.antt =====
-- `serialize_time` and `deserialize_time`: times that cross from one clock to the other. An `XrTime`
-- is the 64-bit pattern of an `int64_t`, and sums wrap: signed overflow, which has no defined behaviour
-- in the source, is taken as what the machine's subtraction does.
use xrtransport.Common.{ℕ, ◌+◌, ◌-◌, ◌%◌, ◌^◌, ◌<◌, ◌≡◌, ap, sym, List, arith}
use xrtransport.Serialization.Stream.{ok, Reader, pure, ◌>>=◌, Reads}
use xrtransport.Serialization.Bytes.{serialize, deserialize, deserialize-serialize}

abbrev pub u64 : ℕ
u64 = 8

-- `ctx.time_offset` is local time less remote time.
unfoldable pub serialize_time : ℕ → ℕ → List ℕ
serialize_time time_offset local_time = serialize u64 ((local_time + 2 ^ 64 - time_offset) % 2 ^ 64)

unfoldable pub deserialize_time : ℕ → Reader ℕ
deserialize_time time_offset = do
  remote_time ← deserialize u64
  pure ((remote_time + time_offset) % 2 ^ 64)

arrives :
    (sent read t u : ℕ)
    → sent < 2 ^ 64
    → t < 2 ^ 64
    → u ≡ ((t + 2 ^ 64 - sent) % 2 ^ 64 + read) % 2 ^ 64
    → Reads (deserialize_time read) (serialize_time sent t) u
unfolding serialize_time deserialize_time
arrives sent read t u h k e rest =
    rw (deserialize-serialize u64 ((t + 2 ^ 64 - sent) % 2 ^ 64) (omega arith) rest)
      (ap (λ v. ok (v, rest)) (sym e))

-- A time that is sent with one offset and read with another arrives moved by both: the first is
-- taken from it and the second added. Read with the offset that it was sent with, it arrives as it
-- was.
pub deserialize_time-serialize_time :
    (sent read t : ℕ)
    → sent < 2 ^ 64
    → t < 2 ^ 64
    → Reads (deserialize_time read) (serialize_time sent t) ((t + (2 ^ 64 - sent) + read) % 2 ^ 64)
      × Reads (deserialize_time sent) (serialize_time sent t) t
deserialize_time-serialize_time sent read t h k =
    (arrives sent read t _ h k (omega arith), arrives sent sent t t h k (omega arith))
