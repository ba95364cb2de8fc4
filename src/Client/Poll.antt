-- ===== src/Client/Poll.antt =====
-- Events: the poll handler of `Server::run` in src/server/server.cpp, and `xrPollEventImpl` of
-- src/client/entry.cpp, which packs the structs of an event into the application's buffer.
use xrtransport.Common.{
  ℕ, ◌+◌, ◌-◌, ◌*◌, ◌/◌, true, false, List, [], ◌∷◌, ◌++◌, leb, ◌==◌, if◌then◌else◌,
}
use xrtransport.Serialization.Stream.{undefined, Result, ok, Reader, pure, fail, ◌>>=◌, bind}
use xrtransport.Serialization.Bytes.{serialize, deserialize}
use xrtransport.Serialization.Chain.{Node, Chain, Table, size_lookup, serialize_xr, deserialize_xr}

-- sizeof(XrEventDataBuffer), alignof(std::max_align_t), and XR_SUCCESS as it is sent.
abbrev pub buffer_size : ℕ
buffer_size = 4016

abbrev pub max_align : ℕ
max_align = 16

abbrev pub xr_success : ℕ
xr_success = 0

-- An event as a runtime returns it: the buffer, and the chain behind its `next`.
abbrev pub Event : Type 0 → Type 0
Event P = Node P × Chain P

-- A struct that was copied into the buffer.
pub record Placed (P : Type 0) : Type 0 where
  pub location : ℕ
  pub size : ℕ
  pub node : Node P

-- What `xrPollEventImpl` returns. With an event, the structs in the buffer, and those that were not
-- copied: the `next` of the last copied struct still points to the first of these.
pub data Polled (P : Type 0) : Type 0 where
  no_event : ℕ → Polled P
  event : List (Placed P) → Chain P → Polled P

module _ {P : Type 0} (table : Table P) where
  -- The handler's loop over what `PollEvent` returns: events, and behind them a result that is no
  -- success. The reply, and the events that are left.
  unfoldable pub poll_handler : List (Event P) → ℕ → Result (List ℕ) × List (Event P)
  poll_handler [] result = (ok (serialize 4 result), [])
  poll_handler (e ∷ es) result =
      let rest = poll_handler es result in
      if size_lookup table e.0.type == 0 then rest else (
        bind (serialize_xr table true (e.0 ∷ e.1)) (λ bs. ok (serialize 4 xr_success ++ bs)),
        es,
      )

  -- `(location + 15) & ~15`
  abbrev pub aligned : ℕ → ℕ
  aligned location = (location + max_align - 1) / max_align * max_align

  -- The loop over the chain behind a struct at `last` of `last_size` bytes.
  unfoldable pub pack : ℕ → ℕ → ℕ → Chain P → List (Placed P) × Chain P
  pack end_of_buffer last last_size [] = ([], [])
  pack end_of_buffer last last_size (n ∷ ns) =
      let location = aligned (last + last_size) in
      let size = size_lookup table n.type in
      let (ps, left) = pack end_of_buffer location size ns in
      if leb (location + size) end_of_buffer
      then (record { location = location; size = size; node = n } ∷ ps, left)
      else ([], n ∷ ns)

  -- What is copied of an event that arrived; the null pointer is read through.
  unfoldable pub copy_out : ℕ → Chain P → Reader (Polled P)
  copy_out event_data_out [] = fail undefined
  copy_out event_data_out (n ∷ ns) =
      let size = size_lookup table n.type in
      let (ps, left) = pack (event_data_out + buffer_size) event_data_out size ns in
      pure (event (record { location = event_data_out; size = size; node = n } ∷ ps) left)

  -- `xrPollEventImpl` on the payload of the reply, with a buffer at the address `event_data_out`.
  unfoldable pub poll_event : ℕ → Reader (Polled P)
  unfolding copy_out
  poll_event event_data_out = do
    result ← deserialize 4
    if result == xr_success
        then (do ns ← deserialize_xr table false []; copy_out event_data_out ns)
        else pure (no_event result)
