-- ===== src/Structs/Frames.antt =====
-- Frames and sessions: their functions in src/common/serialization/serializer.cpp and deserializer.cpp.
use xrtransport.Common.{ℕ, Bool, false, List}
use xrtransport.Serialization.Stream.{Result, Reader, pure, ◌>>=◌}
use xrtransport.Serialization.Chain.{Chain, Table, serialize_xr, deserialize_xr}
use xrtransport.Serialization.Word.{Word, deserialize_word}
use xrtransport.Serialization.Wire.{◌⊕◌, scalar, time, read_time}

-- XrFrameBeginInfo
pub record FrameBeginInfo (P : Type 0) : Type 0 where
  pub type : Word 4
  pub next : Chain P

-- XrFrameWaitInfo
pub record FrameWaitInfo (P : Type 0) : Type 0 where
  pub type : Word 4
  pub next : Chain P

-- XrFrameState
pub record FrameState (P : Type 0) : Type 0 where
  pub type : Word 4
  pub next : Chain P
  pub predicted_display_time : Word 8
  pub predicted_display_period : Word 8
  pub should_render : Word 4

-- XrSessionBeginInfo
pub record SessionBeginInfo (P : Type 0) : Type 0 where
  pub type : Word 4
  pub next : Chain P
  pub primary_view_configuration_type : Word 4

-- XrSessionCreateInfo
pub record SessionCreateInfo (P : Type 0) : Type 0 where
  pub type : Word 4
  pub next : Chain P
  pub create_flags : Word 8
  pub system_id : Word 8

-- XrSystemGetInfo
pub record SystemGetInfo (P : Type 0) : Type 0 where
  pub type : Word 4
  pub next : Chain P
  pub form_factor : Word 4

module _ {P : Type 0} (table : Table P) where
  unfoldable pub serialize_xr_frame_begin_info : FrameBeginInfo P → Result (List ℕ)
  serialize_xr_frame_begin_info s = scalar s.type ⊕ serialize_xr table false s.next

  unfoldable pub deserialize_xr_frame_begin_info :
      Bool → FrameBeginInfo P → Reader (FrameBeginInfo P)
  deserialize_xr_frame_begin_info in_place old = do
    type ← deserialize_word 4
    next ← deserialize_xr table in_place old.next
    pure (record { type = type; next = next })

  unfoldable pub serialize_xr_frame_wait_info : FrameWaitInfo P → Result (List ℕ)
  serialize_xr_frame_wait_info s = scalar s.type ⊕ serialize_xr table false s.next

  unfoldable pub deserialize_xr_frame_wait_info : Bool → FrameWaitInfo P → Reader (FrameWaitInfo P)
  deserialize_xr_frame_wait_info in_place old = do
    type ← deserialize_word 4
    next ← deserialize_xr table in_place old.next
    pure (record { type = type; next = next })

  unfoldable pub serialize_xr_frame_state : ℕ → FrameState P → Result (List ℕ)
  serialize_xr_frame_state time_offset s =
      scalar s.type
      ⊕ serialize_xr table false s.next
      ⊕ time time_offset s.predicted_display_time
      ⊕ scalar s.predicted_display_period
      ⊕ scalar s.should_render

  unfoldable pub deserialize_xr_frame_state : ℕ → Bool → FrameState P → Reader (FrameState P)
  deserialize_xr_frame_state time_offset in_place old = do
    type ← deserialize_word 4
    next ← deserialize_xr table in_place old.next
    predicted_display_time ← read_time time_offset
    predicted_display_period ← deserialize_word 8
    should_render ← deserialize_word 4
    pure (record {
      type = type;
      next = next;
      predicted_display_time = predicted_display_time;
      predicted_display_period = predicted_display_period;
      should_render = should_render;
    })

  unfoldable pub serialize_xr_session_begin_info : SessionBeginInfo P → Result (List ℕ)
  serialize_xr_session_begin_info s =
      scalar s.type ⊕ serialize_xr table false s.next ⊕ scalar s.primary_view_configuration_type

  unfoldable pub deserialize_xr_session_begin_info :
      Bool → SessionBeginInfo P → Reader (SessionBeginInfo P)
  deserialize_xr_session_begin_info in_place old = do
    type ← deserialize_word 4
    next ← deserialize_xr table in_place old.next
    primary_view_configuration_type ← deserialize_word 4
    pure (record {
      type = type;
      next = next;
      primary_view_configuration_type = primary_view_configuration_type;
    })

  unfoldable pub serialize_xr_session_create_info : SessionCreateInfo P → Result (List ℕ)
  serialize_xr_session_create_info s =
      scalar s.type ⊕ serialize_xr table false s.next ⊕ scalar s.create_flags ⊕ scalar s.system_id

  unfoldable pub deserialize_xr_session_create_info :
      Bool → SessionCreateInfo P → Reader (SessionCreateInfo P)
  deserialize_xr_session_create_info in_place old = do
    type ← deserialize_word 4
    next ← deserialize_xr table in_place old.next
    create_flags ← deserialize_word 8
    system_id ← deserialize_word 8
    pure (record { type = type; next = next; create_flags = create_flags; system_id = system_id })

  unfoldable pub serialize_xr_system_get_info : SystemGetInfo P → Result (List ℕ)
  serialize_xr_system_get_info s =
      scalar s.type ⊕ serialize_xr table false s.next ⊕ scalar s.form_factor

  unfoldable pub deserialize_xr_system_get_info : Bool → SystemGetInfo P → Reader (SystemGetInfo P)
  deserialize_xr_system_get_info in_place old = do
    type ← deserialize_word 4
    next ← deserialize_xr table in_place old.next
    form_factor ← deserialize_word 4
    pure (record { type = type; next = next; form_factor = form_factor })
