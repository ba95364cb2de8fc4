-- ===== src/Structs/Trip/ActionStates.antt =====
-- The states of actions: what is written of each struct is read back.
use xrtransport.Common.{ℕ, ◌^◌, ◌<◌, Bool}
use xrtransport.Serialization.Stream.{ok}
use xrtransport.Serialization.Chain.{Table}
use xrtransport.Serialization.Chains.{IsTable, Prepared}
use xrtransport.Serialization.Word.{deserialize_word}
use xrtransport.Serialization.Wire.{Lands, first-Lands, last-Lands, scalar-Lands, scalar_first}
use xrtransport.Structs.Rows.{next_first, same_time_first}
use xrtransport.Structs.ActionStates.{
  ActionStateGetInfo, serialize_xr_action_state_get_info, deserialize_xr_action_state_get_info,
  ActionStateBoolean, serialize_xr_action_state_boolean, deserialize_xr_action_state_boolean,
  ActionStateFloat, serialize_xr_action_state_float, deserialize_xr_action_state_float,
  ActionStatePose, serialize_xr_action_state_pose, deserialize_xr_action_state_pose,
  ActionStateVector2f, serialize_xr_action_state_vector2f, deserialize_xr_action_state_vector2f,
}
use xrtransport.Structs.Vectors.{deserialize_xr_vector2f}
use xrtransport.Structs.Trip.Vectors.{serialize_xr_vector2f-Lands}

module _ {P : Type 0} (Ready : ℕ → P → P → Type 0) (table : Table P) (t : IsTable Ready table) where
  pub serialize_xr_action_state_get_info-Lands :
      (in_place : Bool) (old s : ActionStateGetInfo P)
      → Prepared Ready table in_place old.next s.next
      → Lands
          (serialize_xr_action_state_get_info table s)
          (deserialize_xr_action_state_get_info table in_place old)
          (ok s)
  unfolding serialize_xr_action_state_get_info deserialize_xr_action_state_get_info
  serialize_xr_action_state_get_info-Lands in_place old s p = scalar_first s.type _ (
      next_first Ready table t in_place old.next s.next _ p (
        scalar_first s.action _ (
          last-Lands (deserialize_word 8) (ok s.subaction_path)
            (λ x. record s { subaction_path = x }) (scalar-Lands s.subaction_path))))

  pub serialize_xr_action_state_boolean-Lands :
      (time_offset : ℕ)
      → time_offset < 2 ^ 64
      → (in_place : Bool) (old s : ActionStateBoolean P)
      → Prepared Ready table in_place old.next s.next
      → Lands
          (serialize_xr_action_state_boolean table time_offset s)
          (deserialize_xr_action_state_boolean table time_offset in_place old)
          (ok s)
  unfolding serialize_xr_action_state_boolean deserialize_xr_action_state_boolean
  serialize_xr_action_state_boolean-Lands time_offset o in_place old s p = scalar_first s.type _ (
      next_first Ready table t in_place old.next s.next _ p (
        scalar_first s.current_state _ (
          scalar_first s.changed_since_last_sync _ (
            same_time_first time_offset s.last_change_time _ o (
              last-Lands (deserialize_word 4) (ok s.is_active) (λ x. record s { is_active = x })
                (scalar-Lands s.is_active))))))

  pub serialize_xr_action_state_float-Lands :
      (time_offset : ℕ)
      → time_offset < 2 ^ 64
      → (in_place : Bool) (old s : ActionStateFloat P)
      → Prepared Ready table in_place old.next s.next
      → Lands
          (serialize_xr_action_state_float table time_offset s)
          (deserialize_xr_action_state_float table time_offset in_place old)
          (ok s)
  unfolding serialize_xr_action_state_float deserialize_xr_action_state_float
  serialize_xr_action_state_float-Lands time_offset o in_place old s p = scalar_first s.type _ (
      next_first Ready table t in_place old.next s.next _ p (
        scalar_first s.current_state _ (
          scalar_first s.changed_since_last_sync _ (
            same_time_first time_offset s.last_change_time _ o (
              last-Lands (deserialize_word 4) (ok s.is_active) (λ x. record s { is_active = x })
                (scalar-Lands s.is_active))))))

  pub serialize_xr_action_state_pose-Lands :
      (in_place : Bool) (old s : ActionStatePose P)
      → Prepared Ready table in_place old.next s.next
      → Lands
          (serialize_xr_action_state_pose table s)
          (deserialize_xr_action_state_pose table in_place old)
          (ok s)
  unfolding serialize_xr_action_state_pose deserialize_xr_action_state_pose
  serialize_xr_action_state_pose-Lands in_place old s p = scalar_first s.type _ (
      next_first Ready table t in_place old.next s.next _ p (
        last-Lands (deserialize_word 4) (ok s.is_active) (λ x. record s { is_active = x })
          (scalar-Lands s.is_active)))

  pub serialize_xr_action_state_vector2f-Lands :
      (time_offset : ℕ)
      → time_offset < 2 ^ 64
      → (in_place : Bool) (old s : ActionStateVector2f P)
      → Prepared Ready table in_place old.next s.next
      → Lands
          (serialize_xr_action_state_vector2f table time_offset s)
          (deserialize_xr_action_state_vector2f table time_offset in_place old)
          (ok s)
  unfolding serialize_xr_action_state_vector2f deserialize_xr_action_state_vector2f
  serialize_xr_action_state_vector2f-Lands time_offset o in_place old s p = scalar_first s.type _ (
      next_first Ready table t in_place old.next s.next _ p (
        first-Lands deserialize_xr_vector2f _ s.current_state
          (serialize_xr_vector2f-Lands s.current_state)
          (scalar_first s.changed_since_last_sync _ (
            same_time_first time_offset s.last_change_time _ o (
              last-Lands (deserialize_word 4) (ok s.is_active) (λ x. record s { is_active = x })
                (scalar-Lands s.is_active))))))
