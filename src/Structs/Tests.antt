-- ===== src/Structs/Tests.antt =====
-- Structs with a chain and times on the wire, and the witnesses of the properties.
use xrtransport.Common.{ℕ, ◌≡◌, refl, true, [], ◌∷◌, arith}
use xrtransport.Serialization.Stream.{ok}
use xrtransport.Serialization.Bytes.{serialize}
use xrtransport.Serialization.Chain.{serialize_xr, lookup, serialize_struct}
use xrtransport.Serialization.Samples.{table, table-IsTable, Ready, struct}
use xrtransport.Serialization.Times.{serialize_time}
use xrtransport.Serialization.Word.{to_word, serialize_word}
use xrtransport.Serialization.Wire.{Lands, ◌⊕◌}
use xrtransport.Structs.Frames.{FrameState, serialize_xr_frame_state, deserialize_xr_frame_state}
use xrtransport.Structs.Trip.Frames.{serialize_xr_frame_state-Lands}

abbrev frame_state : ℕ → ℕ → FrameState ℕ
frame_state time member = record {
  type = to_word 4 44;
  next = struct 1 member ∷ [];
  predicted_display_time = to_word 8 time;
  predicted_display_period = to_word 8 11;
  should_render = to_word 4 1;
}

-- The time is written on the clock of the other side.
frame_state_bytes :
    serialize_xr_frame_state table 300 (frame_state 1000 7)
    ≡ ok (
        44 ∷ 0 ∷ 0 ∷ 0 ∷ 1 ∷ 0 ∷ 0 ∷ 0 ∷ 1 ∷ 0 ∷ 0 ∷ 0 ∷ 0 ∷ 0 ∷ 0 ∷ 0 ∷ 7 ∷ 188 ∷ 2 ∷ 0 ∷ 0 ∷ 0 ∷ 0
        ∷ 0 ∷ 0 ∷ 11 ∷ 0 ∷ 0 ∷ 0 ∷ 0 ∷ 0 ∷ 0 ∷ 0 ∷ 1 ∷ 0 ∷ 0 ∷ 0 ∷ [])
unfolding serialize_xr_frame_state ◌⊕◌ serialize_word serialize to_word serialize_xr lookup
    serialize_struct serialize_time
frame_state_bytes = refl

serialize_xr_frame_state-Lands_example :
    Lands
      (serialize_xr_frame_state table 300 (frame_state 1000 7))
      (deserialize_xr_frame_state table 300 true (frame_state 0 0))
      (ok (frame_state 1000 7))
serialize_xr_frame_state-Lands_example =
    serialize_xr_frame_state-Lands Ready table table-IsTable 300 (omega arith) true
      (frame_state 0 0) (frame_state 1000 7) (refl, tt, tt)
