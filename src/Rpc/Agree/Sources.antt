-- ===== src/Rpc/Agree/Sources.antt =====
-- The sources of actions and their feedback: each function of the client fits its handler on the server.
use xrtransport.Common.{refl, arith}
use xrtransport.Serialization.Stream.{ok, bind}
use xrtransport.Serialization.Pointers.{received, placed}
use xrtransport.Serialization.Wire.{
  word, new_pointer, last-Lands, new_words-Lands, WordsReady, words_in_place-Lands, scalar_first,
}
use xrtransport.Rpc.Pieces.{
  below_2^32, SharedStruct, received_structs, placed_structs, StructsReady, both-Lands, words_first,
  structs_first,
}
use xrtransport.Rpc.Transparent.{Agrees}
use xrtransport.Rpc.Shapes.{struct_call, property_call}
use xrtransport.Rpc.Sources.{
  xr_get_current_interaction_profile, handle_xr_get_current_interaction_profile,
  xr_enumerate_bound_sources_for_action, handle_xr_enumerate_bound_sources_for_action,
  xr_get_input_source_localized_name, handle_xr_get_input_source_localized_name,
  xr_stop_haptic_feedback, handle_xr_stop_haptic_feedback,
}

pub xr_get_current_interaction_profile-Agrees :
    {InteractionProfileState : Type 0}
    (interaction_profile_state : SharedStruct InteractionProfileState)
    → Agrees
        (xr_get_current_interaction_profile interaction_profile_state.client)
        (handle_xr_get_current_interaction_profile interaction_profile_state.server)
        (λ a. Unit)
        (λ a o. StructsReady interaction_profile_state a.2 o 1)
        (λ a. (a.0, a.1, received_structs interaction_profile_state a.2 1))
        (λ a o. placed_structs interaction_profile_state a.2 o 1)
unfolding xr_get_current_interaction_profile handle_xr_get_current_interaction_profile
xr_get_current_interaction_profile-Agrees interaction_profile_state =
    property_call 34 (omega arith) interaction_profile_state

pub xr_enumerate_bound_sources_for_action-Agrees :
    {BoundSourcesForActionEnumerateInfo : Type 0}
    (bound_sources_for_action_enumerate_info : SharedStruct BoundSourcesForActionEnumerateInfo)
    → Agrees
        (xr_enumerate_bound_sources_for_action bound_sources_for_action_enumerate_info.client)
        (handle_xr_enumerate_bound_sources_for_action
          bound_sources_for_action_enumerate_info.server)
        (λ a. Unit)
        (λ a o. WordsReady a.3 o.0 1 × WordsReady a.4 o.1 a.2.value)
        (λ a. (
          a.0,
          received_structs bound_sources_for_action_enumerate_info a.1 1,
          a.2,
          received a.3 1,
          received a.4 a.2.value,
        ))
        (λ a o. bind (placed a.3 o.0 1) (λ x. bind (placed a.4 o.1 a.2.value) (λ y. ok (x, y))))
unfolding xr_enumerate_bound_sources_for_action handle_xr_enumerate_bound_sources_for_action
xr_enumerate_bound_sources_for_action-Agrees bound_sources_for_action_enumerate_info = record {
  same_function = refl;
  id_fits = omega arith;
  sends = λ a s. scalar_first a.0 _ (
      structs_first bound_sources_for_action_enumerate_info a.1 1 _ (omega arith) (
        scalar_first a.2 _ (
          words_first a.3 1 _ (omega arith) (
            last-Lands (new_pointer (word 8)) (ok (received a.4 a.2.value))
              (λ x. (
                a.0,
                received_structs bound_sources_for_action_enumerate_info a.1 1,
                a.2,
                received a.3 1,
                x,
              ))
              (new_words-Lands a.4 a.2.value (below_2^32 a.2))))));
  answers = λ a o s r.
      both-Lands (words_in_place-Lands a.3 o.0 1 (omega arith) r.0)
        (words_in_place-Lands a.4 o.1 a.2.value (below_2^32 a.2) r.1);
}

pub xr_get_input_source_localized_name-Agrees :
    {InputSourceLocalizedNameGetInfo : Type 0}
    (input_source_localized_name_get_info : SharedStruct InputSourceLocalizedNameGetInfo)
    → Agrees
        (xr_get_input_source_localized_name input_source_localized_name_get_info.client)
        (handle_xr_get_input_source_localized_name input_source_localized_name_get_info.server)
        (λ a. Unit)
        (λ a o. WordsReady a.3 o.0 1 × WordsReady a.4 o.1 a.2.value)
        (λ a. (
          a.0,
          received_structs input_source_localized_name_get_info a.1 1,
          a.2,
          received a.3 1,
          received a.4 a.2.value,
        ))
        (λ a o. bind (placed a.3 o.0 1) (λ x. bind (placed a.4 o.1 a.2.value) (λ y. ok (x, y))))
unfolding xr_get_input_source_localized_name handle_xr_get_input_source_localized_name
xr_get_input_source_localized_name-Agrees input_source_localized_name_get_info = record {
  same_function = refl;
  id_fits = omega arith;
  sends = λ a s. scalar_first a.0 _ (
      structs_first input_source_localized_name_get_info a.1 1 _ (omega arith) (
        scalar_first a.2 _ (
          words_first a.3 1 _ (omega arith) (
            last-Lands (new_pointer (word 1)) (ok (received a.4 a.2.value))
              (λ x. (
                a.0,
                received_structs input_source_localized_name_get_info a.1 1,
                a.2,
                received a.3 1,
                x,
              ))
              (new_words-Lands a.4 a.2.value (below_2^32 a.2))))));
  answers = λ a o s r.
      both-Lands (words_in_place-Lands a.3 o.0 1 (omega arith) r.0)
        (words_in_place-Lands a.4 o.1 a.2.value (below_2^32 a.2) r.1);
}

pub xr_stop_haptic_feedback-Agrees :
    {HapticActionInfo : Type 0} (haptic_action_info : SharedStruct HapticActionInfo)
    → Agrees
        (xr_stop_haptic_feedback haptic_action_info.client)
        (handle_xr_stop_haptic_feedback haptic_action_info.server)
        (λ a. Unit)
        (λ a o. Unit)
        (λ a. (a.0, received_structs haptic_action_info a.1 1))
        (λ a o. ok tt)
unfolding xr_stop_haptic_feedback handle_xr_stop_haptic_feedback
xr_stop_haptic_feedback-Agrees haptic_action_info = struct_call 49 (omega arith) haptic_action_info
