-- ===== src/Serialization/Tests.antt =====
-- Chains and arrays of the sample structs.
use xrtransport.Common.{ℕ, ◌≡◌, refl, true, false, List, [], ◌∷◌, ◌++◌, none, some, arith, subst}
use xrtransport.Serialization.Stream.{ok, Reads, Fuelled}
use xrtransport.Serialization.Bytes.{serialize, deserialize-Fuelled, u32}
use xrtransport.Serialization.Pointer.{Pointer, serialize_array, serialize_ptr, deserialize_ptr}
use xrtransport.Serialization.Pointers.{
  received, deserialize_ptr-serialize_ptr, deserialize_ptr_in_place,
}
use xrtransport.Serialization.Chain.{Chain, lookup, serialize_struct, serialize_xr, deserialize_xr}
use xrtransport.Serialization.Chains.{known}
use xrtransport.Serialization.ChainTrip.{
  deserialize_xr-serialize_xr, serialize_xr_skip, IsBounded, deserialize_xr-Fuelled,
}
use xrtransport.Serialization.XrArray.{XrStruct, serialize_xr_array, deserialize_xr_array}
use xrtransport.Serialization.XrArrays.{empty_array_desync}
use xrtransport.Serialization.Times.{
  serialize_time, deserialize_time, deserialize_time-serialize_time,
}
use xrtransport.Serialization.FrameEnd.{
  FrameEndInfo, serialize_frame_end_info, deserialize_frame_end_info,
  deserialize_frame_end_info-serialize_frame_end_info,
}
use xrtransport.Serialization.Samples.{
  byte, AnyMemory, byte-IsCodec, entry, table, Ready, table-entry, table-IsTable, struct,
}

-- A chain of a known, an unknown and a known struct.
abbrev chain : Chain ℕ
chain = struct 1 10 ∷ struct 3 30 ∷ struct 2 20 ∷ []

abbrev chain_bytes : List ℕ
chain_bytes =
    1 ∷ 0 ∷ 0 ∷ 0 ∷ 1 ∷ 0 ∷ 0 ∷ 0 ∷ 2 ∷ 0 ∷ 0 ∷ 0 ∷ 2 ∷ 0 ∷ 0 ∷ 0 ∷ 0 ∷ 0 ∷ 0 ∷ 0 ∷ 20 ∷ 10 ∷ []

written : serialize_xr table true chain ≡ ok chain_bytes
unfolding serialize_xr serialize_struct lookup serialize
written = refl

known-chain : known table chain ≡ struct 1 10 ∷ struct 2 20 ∷ []
unfolding known lookup
known-chain = refl

deserialize_xr-serialize_xr_example :
    Reads (deserialize_xr table false []) chain_bytes (known table chain)
unfolding known lookup
deserialize_xr-serialize_xr_example =
    deserialize_xr-serialize_xr table Ready true false chain [] chain_bytes table-IsTable written
      ((λ e l. tt), ((λ e l. tt), tt))

serialize_xr_skip_example :
    serialize_xr table true chain ≡ serialize_xr table false (known table chain)
serialize_xr_skip_example = serialize_xr_skip table chain

abbrev lone : Chain ℕ
lone = struct 2 20 ∷ []

abbrev lone_bytes : List ℕ
lone_bytes = 2 ∷ 0 ∷ 0 ∷ 0 ∷ 2 ∷ 0 ∷ 0 ∷ 0 ∷ 0 ∷ 0 ∷ 0 ∷ 0 ∷ 20 ∷ []

lone_written : serialize_xr table false lone ≡ ok lone_bytes
unfolding serialize_xr serialize_struct lookup serialize
lone_written = refl

table-IsBounded : IsBounded table
table-IsBounded = record {
  members = λ t e old bs l.
      subst (λ e. Fuelled (e.members.read old bs)) (table-entry t e l).0 (deserialize-Fuelled 1 bs);
}

deserialize_xr-Fuelled_example : Fuelled (deserialize_xr table false [] (1 ∷ 0 ∷ 0 ∷ 0 ∷ 1 ∷ []))
deserialize_xr-Fuelled_example =
    deserialize_xr-Fuelled table false [] (1 ∷ 0 ∷ 0 ∷ 0 ∷ 1 ∷ []) table-IsBounded

abbrev three : Pointer ℕ
three = some (7 ∷ 8 ∷ 9 ∷ [])

two_written : serialize_ptr byte three 2 ≡ ok (2 ∷ 0 ∷ 0 ∷ 0 ∷ 7 ∷ 8 ∷ [])
unfolding serialize_ptr serialize_array serialize
two_written = refl

deserialize_ptr-serialize_ptr_example :
    Reads (deserialize_ptr byte false 0 none) (2 ∷ 0 ∷ 0 ∷ 0 ∷ 7 ∷ 8 ∷ []) (received three 2)
deserialize_ptr-serialize_ptr_example =
    deserialize_ptr-serialize_ptr AnyMemory byte byte-IsCodec 0 none three 2
      (2 ∷ 0 ∷ 0 ∷ 0 ∷ 7 ∷ 8 ∷ []) (λ x. tt) (omega arith) two_written

-- The third element of the receiver's array stays.
deserialize_ptr_in_place_example :
    deserialize_ptr byte true 0 (some (1 ∷ 2 ∷ 3 ∷ [])) (2 ∷ 0 ∷ 0 ∷ 0 ∷ 7 ∷ 8 ∷ 5 ∷ [])
    ≡ ok (some (7 ∷ 8 ∷ 3 ∷ []), 5 ∷ [])
deserialize_ptr_in_place_example =
    deserialize_ptr_in_place AnyMemory byte byte-IsCodec 0 (some (1 ∷ 2 ∷ 3 ∷ [])) three 2
      (2 ∷ 0 ∷ 0 ∷ 0 ∷ 7 ∷ 8 ∷ []) (5 ∷ []) (tt, (tt, tt)) (omega arith) two_written

abbrev element : ℕ → XrStruct ℕ
element x = (struct 2 x, [])

empty_array_desync_example :
    (bs : List ℕ) × (serialize_xr_array table false (some (element 20 ∷ [])) 0 ≡ ok bs)
    × ((rest : List ℕ)
        → deserialize_xr_array table false none (bs ++ rest) ≡ ok (none, serialize u32 2 ++ rest))
unfolding lookup
empty_array_desync_example = empty_array_desync table false false (element 20) [] entry none refl

abbrev array_bytes : List ℕ
array_bytes =
    2 ∷ 0 ∷ 0 ∷ 0 ∷ 2 ∷ 0 ∷ 0 ∷ 0 ∷ 2 ∷ 0 ∷ 0 ∷ 0 ∷ 0 ∷ 0 ∷ 0 ∷ 0 ∷ 20 ∷ 2 ∷ 0 ∷ 0 ∷ 0 ∷ 0 ∷ 0 ∷ 0
    ∷ 0 ∷ 21 ∷ []

-- A time of 5, 10 behind the other clock: the difference wraps.
deserialize_time-serialize_time_example :
    Reads (deserialize_time 12) (serialize_time 10 5) 7
    × Reads (deserialize_time 10) (serialize_time 10 5) 5
deserialize_time-serialize_time_example =
    deserialize_time-serialize_time 10 12 5 (omega arith) (omega arith)

-- The end of a frame with one layer, at the time 100 of a clock that is 10 ahead.
abbrev frame_end : FrameEndInfo ℕ
frame_end = record {
  type = 12;
  next = [];
  display_time = 100;
  environment_blend_mode = 1;
  layer_count = 1;
  layers = (struct 1 10 ∷ []) ∷ [];
}

abbrev frame_end_bytes : List ℕ
frame_end_bytes =
    12 ∷ 0 ∷ 0 ∷ 0 ∷ 0 ∷ 0 ∷ 0 ∷ 0 ∷ 90 ∷ 0 ∷ 0 ∷ 0 ∷ 0 ∷ 0 ∷ 0 ∷ 0 ∷ 1 ∷ 0 ∷ 0 ∷ 0 ∷ 1 ∷ 0 ∷ 0 ∷ 0
    ∷ 1 ∷ 0 ∷ 0 ∷ 0 ∷ 1 ∷ 0 ∷ 0 ∷ 0 ∷ 0 ∷ 0 ∷ 0 ∷ 0 ∷ 10 ∷ []

frame_end_written : serialize_frame_end_info table 10 false frame_end ≡ ok frame_end_bytes
unfolding serialize_frame_end_info serialize_time serialize_array serialize serialize_xr
    serialize_struct lookup
frame_end_written = refl

deserialize_frame_end_info-serialize_frame_end_info_example :
    Reads (deserialize_frame_end_info table 10 false frame_end) frame_end_bytes frame_end
deserialize_frame_end_info-serialize_frame_end_info_example =
    deserialize_frame_end_info-serialize_frame_end_info Ready table table-IsTable 10 false frame_end
      frame_end frame_end_bytes (omega arith)
      (record {
        type_fits = omega arith;
        time_fits = omega arith;
        mode_fits = omega arith;
        count_fits = omega arith;
      })
      tt (((λ e l. tt), tt), tt) frame_end_written
