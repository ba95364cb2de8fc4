-- ===== src/Structs/Trip/ActionInfos.antt =====
-- Structs that name actions: what is written of each struct is read back.
use xrtransport.Common.{ℕ, Bool}
use xrtransport.Serialization.Stream.{ok}
use xrtransport.Serialization.Chain.{Table}
use xrtransport.Serialization.Chains.{IsTable, Prepared}
use xrtransport.Serialization.Word.{deserialize_word}
use xrtransport.Serialization.Wire.{Lands, last-Lands, scalar-Lands, scalar_first}
use xrtransport.Structs.Rows.{next_first}
use xrtransport.Structs.ActionInfos.{
  ActionSpaceCreateInfo, serialize_xr_action_space_create_info,
  deserialize_xr_action_space_create_info, BoundSourcesForActionEnumerateInfo,
  serialize_xr_bound_sources_for_action_enumerate_info,
  deserialize_xr_bound_sources_for_action_enumerate_info, HapticActionInfo,
  serialize_xr_haptic_action_info, deserialize_xr_haptic_action_info, HapticVibration,
  serialize_xr_haptic_vibration, deserialize_xr_haptic_vibration, InputSourceLocalizedNameGetInfo,
  serialize_xr_input_source_localized_name_get_info,
  deserialize_xr_input_source_localized_name_get_info, InteractionProfileState,
  serialize_xr_interaction_profile_state, deserialize_xr_interaction_profile_state,
}
use xrtransport.Structs.Vectors.{deserialize_xr_posef}
use xrtransport.Structs.Trip.Vectors.{serialize_xr_posef-Lands}

module _ {P : Type 0} (Ready : ℕ → P → P → Type 0) (table : Table P) (t : IsTable Ready table) where
  pub serialize_xr_action_space_create_info-Lands :
      (in_place : Bool) (old s : ActionSpaceCreateInfo P)
      → Prepared Ready table in_place old.next s.next
      → Lands
          (serialize_xr_action_space_create_info table s)
          (deserialize_xr_action_space_create_info table in_place old)
          (ok s)
  unfolding serialize_xr_action_space_create_info deserialize_xr_action_space_create_info
  serialize_xr_action_space_create_info-Lands in_place old s p = scalar_first s.type _ (
      next_first Ready table t in_place old.next s.next _ p (
        scalar_first s.action _ (
          scalar_first s.subaction_path _ (
            last-Lands deserialize_xr_posef (ok s.pose_in_action_space)
              (λ x. record s { pose_in_action_space = x })
              (serialize_xr_posef-Lands s.pose_in_action_space)))))

  pub serialize_xr_bound_sources_for_action_enumerate_info-Lands :
      (in_place : Bool) (old s : BoundSourcesForActionEnumerateInfo P)
      → Prepared Ready table in_place old.next s.next
      → Lands
          (serialize_xr_bound_sources_for_action_enumerate_info table s)
          (deserialize_xr_bound_sources_for_action_enumerate_info table in_place old)
          (ok s)
  unfolding serialize_xr_bound_sources_for_action_enumerate_info
      deserialize_xr_bound_sources_for_action_enumerate_info
  serialize_xr_bound_sources_for_action_enumerate_info-Lands in_place old s p =
      scalar_first s.type _ (
        next_first Ready table t in_place old.next s.next _ p (
          last-Lands (deserialize_word 8) (ok s.action) (λ x. record s { action = x })
            (scalar-Lands s.action)))

  pub serialize_xr_haptic_action_info-Lands :
      (in_place : Bool) (old s : HapticActionInfo P)
      → Prepared Ready table in_place old.next s.next
      → Lands
          (serialize_xr_haptic_action_info table s)
          (deserialize_xr_haptic_action_info table in_place old)
          (ok s)
  unfolding serialize_xr_haptic_action_info deserialize_xr_haptic_action_info
  serialize_xr_haptic_action_info-Lands in_place old s p = scalar_first s.type _ (
      next_first Ready table t in_place old.next s.next _ p (
        scalar_first s.action _ (
          last-Lands (deserialize_word 8) (ok s.subaction_path)
            (λ x. record s { subaction_path = x }) (scalar-Lands s.subaction_path))))

  pub serialize_xr_haptic_vibration-Lands :
      (in_place : Bool) (old s : HapticVibration P)
      → Prepared Ready table in_place old.next s.next
      → Lands
          (serialize_xr_haptic_vibration table s)
          (deserialize_xr_haptic_vibration table in_place old)
          (ok s)
  unfolding serialize_xr_haptic_vibration deserialize_xr_haptic_vibration
  serialize_xr_haptic_vibration-Lands in_place old s p = scalar_first s.type _ (
      next_first Ready table t in_place old.next s.next _ p (
        scalar_first s.duration _ (
          scalar_first s.frequency _ (
            last-Lands (deserialize_word 4) (ok s.amplitude) (λ x. record s { amplitude = x })
              (scalar-Lands s.amplitude)))))

  pub serialize_xr_input_source_localized_name_get_info-Lands :
      (in_place : Bool) (old s : InputSourceLocalizedNameGetInfo P)
      → Prepared Ready table in_place old.next s.next
      → Lands
          (serialize_xr_input_source_localized_name_get_info table s)
          (deserialize_xr_input_source_localized_name_get_info table in_place old)
          (ok s)
  unfolding serialize_xr_input_source_localized_name_get_info
      deserialize_xr_input_source_localized_name_get_info
  serialize_xr_input_source_localized_name_get_info-Lands in_place old s p = scalar_first s.type _ (
      next_first Ready table t in_place old.next s.next _ p (
        scalar_first s.source_path _ (
          last-Lands (deserialize_word 8) (ok s.which_components)
            (λ x. record s { which_components = x }) (scalar-Lands s.which_components))))

  pub serialize_xr_interaction_profile_state-Lands :
      (in_place : Bool) (old s : InteractionProfileState P)
      → Prepared Ready table in_place old.next s.next
      → Lands
          (serialize_xr_interaction_profile_state table s)
          (deserialize_xr_interaction_profile_state table in_place old)
          (ok s)
  unfolding serialize_xr_interaction_profile_state deserialize_xr_interaction_profile_state
  serialize_xr_interaction_profile_state-Lands in_place old s p = scalar_first s.type _ (
      next_first Ready table t in_place old.next s.next _ p (
        last-Lands (deserialize_word 8) (ok s.interaction_profile)
          (λ x. record s { interaction_profile = x }) (scalar-Lands s.interaction_profile)))
