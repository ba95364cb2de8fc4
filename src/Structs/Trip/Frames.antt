-- ===== src/Structs/Trip/Frames.antt =====
-- Frames and sessions: what is written of each struct is read back.
use xrtransport.Common.{ℕ, ◌^◌, ◌<◌, Bool}
use xrtransport.Serialization.Stream.{ok}
use xrtransport.Serialization.Chain.{Table, deserialize_xr}
use xrtransport.Serialization.Chains.{IsTable, Prepared}
use xrtransport.Serialization.Word.{deserialize_word}
use xrtransport.Serialization.Wire.{Lands, last-Lands, scalar-Lands, scalar_first}
use xrtransport.Structs.Rows.{next-Lands, next_first, same_time_first}
use xrtransport.Structs.Frames.{
  FrameBeginInfo, serialize_xr_frame_begin_info, deserialize_xr_frame_begin_info, FrameWaitInfo,
  serialize_xr_frame_wait_info, deserialize_xr_frame_wait_info, FrameState,
  serialize_xr_frame_state, deserialize_xr_frame_state, SessionBeginInfo,
  serialize_xr_session_begin_info, deserialize_xr_session_begin_info, SessionCreateInfo,
  serialize_xr_session_create_info, deserialize_xr_session_create_info, SystemGetInfo,
  serialize_xr_system_get_info, deserialize_xr_system_get_info,
}

module _ {P : Type 0} (Ready : ℕ → P → P → Type 0) (table : Table P) (t : IsTable Ready table) where
  pub serialize_xr_frame_begin_info-Lands :
      (in_place : Bool) (old s : FrameBeginInfo P)
      → Prepared Ready table in_place old.next s.next
      → Lands
          (serialize_xr_frame_begin_info table s)
          (deserialize_xr_frame_begin_info table in_place old)
          (ok s)
  unfolding serialize_xr_frame_begin_info deserialize_xr_frame_begin_info
  serialize_xr_frame_begin_info-Lands in_place old s p = scalar_first s.type _ (
      last-Lands (deserialize_xr table in_place old.next) (ok s.next) (λ x. record s { next = x })
        (next-Lands Ready table t in_place old.next s.next p))

  pub serialize_xr_frame_wait_info-Lands :
      (in_place : Bool) (old s : FrameWaitInfo P)
      → Prepared Ready table in_place old.next s.next
      → Lands
          (serialize_xr_frame_wait_info table s)
          (deserialize_xr_frame_wait_info table in_place old)
          (ok s)
  unfolding serialize_xr_frame_wait_info deserialize_xr_frame_wait_info
  serialize_xr_frame_wait_info-Lands in_place old s p = scalar_first s.type _ (
      last-Lands (deserialize_xr table in_place old.next) (ok s.next) (λ x. record s { next = x })
        (next-Lands Ready table t in_place old.next s.next p))

  -- The state of a frame is read back as it was written, with the chain behind it and its time, if both
  -- sides use the same time offset below 2^64 and the same table, which reads what it writes, and the
  -- memory that is read into is ready for the chain.
  pub serialize_xr_frame_state-Lands :
      (time_offset : ℕ)
      → time_offset < 2 ^ 64
      → (in_place : Bool) (old s : FrameState P) → Prepared Ready table in_place old.next s.next
      → Lands
          (serialize_xr_frame_state table time_offset s)
          (deserialize_xr_frame_state table time_offset in_place old)
          (ok s)
  unfolding serialize_xr_frame_state deserialize_xr_frame_state
  serialize_xr_frame_state-Lands time_offset o in_place old s p = scalar_first s.type _ (
      next_first Ready table t in_place old.next s.next _ p (
        same_time_first time_offset s.predicted_display_time _ o (
          scalar_first s.predicted_display_period _ (
            last-Lands (deserialize_word 4) (ok s.should_render)
              (λ x. record s { should_render = x }) (scalar-Lands s.should_render)))))

  pub serialize_xr_session_begin_info-Lands :
      (in_place : Bool) (old s : SessionBeginInfo P)
      → Prepared Ready table in_place old.next s.next
      → Lands
          (serialize_xr_session_begin_info table s)
          (deserialize_xr_session_begin_info table in_place old)
          (ok s)
  unfolding serialize_xr_session_begin_info deserialize_xr_session_begin_info
  serialize_xr_session_begin_info-Lands in_place old s p = scalar_first s.type _ (
      next_first Ready table t in_place old.next s.next _ p (
        last-Lands (deserialize_word 4) (ok s.primary_view_configuration_type)
          (λ x. record s { primary_view_configuration_type = x })
          (scalar-Lands s.primary_view_configuration_type)))

  pub serialize_xr_session_create_info-Lands :
      (in_place : Bool) (old s : SessionCreateInfo P)
      → Prepared Ready table in_place old.next s.next
      → Lands
          (serialize_xr_session_create_info table s)
          (deserialize_xr_session_create_info table in_place old)
          (ok s)
  unfolding serialize_xr_session_create_info deserialize_xr_session_create_info
  serialize_xr_session_create_info-Lands in_place old s p = scalar_first s.type _ (
      next_first Ready table t in_place old.next s.next _ p (
        scalar_first s.create_flags _ (
          last-Lands (deserialize_word 8) (ok s.system_id) (λ x. record s { system_id = x })
            (scalar-Lands s.system_id))))

  pub serialize_xr_system_get_info-Lands :
      (in_place : Bool) (old s : SystemGetInfo P)
      → Prepared Ready table in_place old.next s.next
      → Lands
          (serialize_xr_system_get_info table s)
          (deserialize_xr_system_get_info table in_place old)
          (ok s)
  unfolding serialize_xr_system_get_info deserialize_xr_system_get_info
  serialize_xr_system_get_info-Lands in_place old s p = scalar_first s.type _ (
      next_first Ready table t in_place old.next s.next _ p (
        last-Lands (deserialize_word 4) (ok s.form_factor) (λ x. record s { form_factor = x })
          (scalar-Lands s.form_factor)))
