-- ===== src/Rpc/Tests.antt =====
-- Calls on concrete arguments, and the witnesses of the properties.
use xrtransport.Common.{ℕ, ◌≡◌, refl, List, [], ◌∷◌, none, some, false, arith}
use xrtransport.Common.Dict.{find}
use xrtransport.Serialization.Stream.{ok}
use xrtransport.Serialization.Bytes.{serialize, deserialize}
use xrtransport.Serialization.Pointer.{
  serialize_ptr, serialize_array, deserialize_ptr, deserialize_array,
}
use xrtransport.Transport.Frame.{Message}
use xrtransport.Transport.State.{opened, Transport}
use xrtransport.Transport.Dispatch.{call_handler}
use xrtransport.Transport.Awaits.{IsQuiet}
use xrtransport.Serialization.Word.{to_word, serialize_word, deserialize_word}
use xrtransport.Serialization.Wire.{scalar, ◌⊕◌}
use xrtransport.Rpc.Call.{
  error_runtime_failure, RuntimeFunction, handle, Handlers, handle_call, handle_function, returns,
  call_payload, rpc,
}
use xrtransport.Rpc.Transparent.{
  sent_call, reply_message, rpc-handle_call, handle_call-call_payload,
}
use xrtransport.Rpc.Spaces.{xr_enumerate_reference_spaces, handle_xr_enumerate_reference_spaces}
use xrtransport.Rpc.Agree.Spaces.{xr_enumerate_reference_spaces-Agrees}
use xrtransport.Serialization.Samples.{table, table-IsTable}
use xrtransport.Serialization.Wire.{moved}
use xrtransport.Structs.Shared.{space_location}
use xrtransport.Rpc.Pieces.{StructsReady, received_structs, placed_structs}
use xrtransport.Rpc.Transparent.{Agrees}
use xrtransport.Rpc.Spaces.{xr_locate_space, handle_xr_locate_space}
use xrtransport.Rpc.Agree.Spaces.{xr_locate_space-Agrees}
use xrtransport.Rpc.Enumerate.{Arguments, Filled, xr_enumerate_reference_spaces_first}

abbrev idle : ℕ → List ℕ → Transport → Transport
idle handler payload t = t

idle_quiet : IsQuiet idle
idle_quiet = record { keeps_queue = λ h p t. refl; keeps_status = λ h p t. refl }

abbrev open_transport : Transport
open_transport = record {
  status = opened;
  queue = [];
  handlers = [];
  sent = [];
  stream_closed = false;
}

abbrev ping : Message
ping = record { header = 7; payload = [] }

-- A runtime with the spaces 1 and 2.
abbrev two_spaces : RuntimeFunction Arguments Filled
two_spaces a = elim a.3 [
  | none ↦ (to_word 4 0, (some (to_word 4 2 ∷ []), none))
  | some ys ↦ (to_word 4 0, (some (to_word 4 2 ∷ []), some (to_word 4 1 ∷ to_word 4 2 ∷ [])))
]

abbrev server : Handlers
server = (25, handle handle_xr_enumerate_reference_spaces (some two_spaces) (to_word 8 5)) ∷ []

-- A call with room for two spaces.
abbrev second_call : Arguments
second_call =
    (to_word 8 3, to_word 4 2, some (to_word 4 0 ∷ []), some (to_word 4 0 ∷ to_word 4 0 ∷ []))

abbrev second_payload : List ℕ
second_payload =
    25 ∷ 0 ∷ 0 ∷ 0 ∷ 3 ∷ 0 ∷ 0 ∷ 0 ∷ 0 ∷ 0 ∷ 0 ∷ 0 ∷ 2 ∷ 0 ∷ 0 ∷ 0 ∷ 1 ∷ 0 ∷ 0 ∷ 0 ∷ 0 ∷ 0 ∷ 0 ∷ 0
    ∷ 2 ∷ 0 ∷ 0 ∷ 0 ∷ 0 ∷ 0 ∷ 0 ∷ 0 ∷ 0 ∷ 0 ∷ 0 ∷ 0 ∷ []

second_payload_sent : call_payload xr_enumerate_reference_spaces second_call ≡ ok second_payload
unfolding call_payload xr_enumerate_reference_spaces ◌⊕◌ serialize_word serialize serialize_ptr
    serialize_array to_word
second_payload_sent = refl

abbrev second_reply : List ℕ
second_reply =
    0 ∷ 0 ∷ 0 ∷ 0 ∷ 5 ∷ 0 ∷ 0 ∷ 0 ∷ 0 ∷ 0 ∷ 0 ∷ 0 ∷ 1 ∷ 0 ∷ 0 ∷ 0 ∷ 2 ∷ 0 ∷ 0 ∷ 0 ∷ 2 ∷ 0 ∷ 0 ∷ 0
    ∷ 1 ∷ 0 ∷ 0 ∷ 0 ∷ 2 ∷ 0 ∷ 0 ∷ 0 ∷ []

second_reply_sent : handle_call server second_payload ≡ ok second_reply
unfolding handle_call handle_function handle handle_xr_enumerate_reference_spaces find ◌⊕◌
    serialize_word serialize deserialize_word deserialize serialize_ptr serialize_array
    deserialize_ptr deserialize_array to_word
second_reply_sent = refl

server_found :
    find handle_xr_enumerate_reference_spaces.key server
    ≡ some (handle handle_xr_enumerate_reference_spaces (some two_spaces) (to_word 8 5))
unfolding find handle_xr_enumerate_reference_spaces
server_found = refl

handle_call-call_payload_example :
    handle_call server second_payload
    ≡ scalar (to_word 4 0)
      ⊕ scalar (to_word 8 5)
      ⊕ handle_xr_enumerate_reference_spaces.results second_call
          (some (to_word 4 2 ∷ []), some (to_word 4 1 ∷ to_word 4 2 ∷ []))
unfolding to_word
handle_call-call_payload_example =
    handle_call-call_payload xr_enumerate_reference_spaces handle_xr_enumerate_reference_spaces _ _
      _ _ xr_enumerate_reference_spaces-Agrees two_spaces (to_word 8 5) server second_call
      second_payload tt server_found second_payload_sent

-- The transport that a call with this payload leaves, after a ping.
abbrev after : List ℕ → Transport
after bs = record (sent_call bs [] open_transport) { queue = [] }

rpc-handle_call_example :
    rpc xr_enumerate_reference_spaces idle
      (λ t. record t { queue = ping ∷ reply_message second_reply ∷ [] })
      second_call
      open_transport
    ≡ returns
        (to_word 4 0)
        (some (some (to_word 4 2 ∷ []), some (to_word 4 1 ∷ to_word 4 2 ∷ [])))
        (after second_payload)
unfolding to_word call_handler find
rpc-handle_call_example =
    rpc-handle_call xr_enumerate_reference_spaces handle_xr_enumerate_reference_spaces _ _ _ _
      xr_enumerate_reference_spaces-Agrees two_spaces (to_word 8 5) server idle second_call
      second_payload second_reply (ping ∷ []) [] open_transport idle_quiet tt
      ((tt, tt), (tt, (tt, tt))) server_found second_payload_sent second_reply_sent refl
      (λ e. absurd (omega (arith, e)), λ e. absurd (omega (arith, e)), tt)

-- The first call, with a buffer that is not null.
abbrev first_call : Arguments
first_call = (to_word 8 3, to_word 4 0, some (to_word 4 0 ∷ []), some (to_word 4 9 ∷ []))

abbrev first_payload : List ℕ
first_payload =
    25 ∷ 0 ∷ 0 ∷ 0 ∷ 3 ∷ 0 ∷ 0 ∷ 0 ∷ 0 ∷ 0 ∷ 0 ∷ 0 ∷ 0 ∷ 0 ∷ 0 ∷ 0 ∷ 1 ∷ 0 ∷ 0 ∷ 0 ∷ 0 ∷ 0 ∷ 0 ∷ 0
    ∷ 0 ∷ 0 ∷ 0 ∷ 0 ∷ []

first_payload_sent : call_payload xr_enumerate_reference_spaces first_call ≡ ok first_payload
unfolding call_payload xr_enumerate_reference_spaces ◌⊕◌ serialize_word serialize serialize_ptr
    serialize_array to_word
first_payload_sent = refl

abbrev first_reply : List ℕ
first_reply =
    0 ∷ 0 ∷ 0 ∷ 0 ∷ 5 ∷ 0 ∷ 0 ∷ 0 ∷ 0 ∷ 0 ∷ 0 ∷ 0 ∷ 1 ∷ 0 ∷ 0 ∷ 0 ∷ 2 ∷ 0 ∷ 0 ∷ 0 ∷ 0 ∷ 0 ∷ 0 ∷ 0
    ∷ []

first_reply_sent : handle_call server first_payload ≡ ok first_reply
unfolding handle_call handle_function handle handle_xr_enumerate_reference_spaces find ◌⊕◌
    serialize_word serialize deserialize_word deserialize serialize_ptr serialize_array
    deserialize_ptr deserialize_array to_word
first_reply_sent = refl

xr_enumerate_reference_spaces_first_example :
    rpc xr_enumerate_reference_spaces idle
      (λ t. record t { queue = reply_message first_reply ∷ [] })
      first_call
      open_transport
    ≡ returns error_runtime_failure none (after first_payload)
unfolding to_word
xr_enumerate_reference_spaces_first_example =
    xr_enumerate_reference_spaces_first two_spaces (to_word 8 5) server idle (to_word 8 3)
      (to_word 4 0) (to_word 4 0) (to_word 4 2) (to_word 4 0) (some (to_word 4 9 ∷ []))
      first_payload first_reply [] [] open_transport idle_quiet refl server_found refl
      first_payload_sent first_reply_sent refl tt

-- Locations with a chain behind them, located by a client that is 300 ahead of the server.
xr_locate_space-Agrees_example :
    Agrees
      (xr_locate_space (space_location table table-IsTable).client 300)
      (handle_xr_locate_space (space_location table table-IsTable).server)
      (λ a. Unit)
      (λ a o. StructsReady (space_location table table-IsTable) a.3 o 1)
      (λ a. (a.0, a.1, moved 300 a.2, received_structs (space_location table table-IsTable) a.3 1))
      (λ a o. placed_structs (space_location table table-IsTable) a.3 o 1)
xr_locate_space-Agrees_example =
    xr_locate_space-Agrees (space_location table table-IsTable) 300 (omega arith)
