-- ===== src/Rpc/Sources.antt =====
-- The sources of actions and their feedback: the functions of src/client/rpc.cpp and their handlers of
-- src/server/function_dispatch.cpp.
use xrtransport.Common.{[]}
use xrtransport.Serialization.Stream.{ok, pure, ◌>>=◌}
use xrtransport.Serialization.Pointer.{Pointer}
use xrtransport.Serialization.Word.{Word, deserialize_word}
use xrtransport.Serialization.Wire.{
  Overloads, ◌⊕◌, scalar, word, pointer, new_pointer, pointer_in_place,
}
use xrtransport.Rpc.Call.{Call, Handler}

-- xrGetCurrentInteractionProfile
unfoldable pub xr_get_current_interaction_profile :
    {InteractionProfileState : Type 0}
    → Overloads InteractionProfileState
    → Call (Word 8 × Word 8 × Pointer InteractionProfileState) (Pointer InteractionProfileState)
xr_get_current_interaction_profile interaction_profile_state_type = record {
  function_id = 34;
  request = λ a.
      let (session, top_level_user_path, interaction_profile) = a in
      scalar session
      ⊕ scalar top_level_user_path
      ⊕ pointer interaction_profile_state_type interaction_profile 1;
  reply = λ a.
      let (session, top_level_user_path, interaction_profile) = a in
      pointer_in_place interaction_profile_state_type interaction_profile;
}

unfoldable pub handle_xr_get_current_interaction_profile :
    {InteractionProfileState : Type 0}
    → Overloads InteractionProfileState
    → Handler (Word 8 × Word 8 × Pointer InteractionProfileState) (Pointer InteractionProfileState)
handle_xr_get_current_interaction_profile interaction_profile_state_type = record {
  key = 34;
  params = (do
    session ← deserialize_word 8
    top_level_user_path ← deserialize_word 8
    interaction_profile ← new_pointer interaction_profile_state_type
    pure (session, top_level_user_path, interaction_profile));
  results = λ a memory. pointer interaction_profile_state_type memory 1;
}

-- xrEnumerateBoundSourcesForAction
unfoldable pub xr_enumerate_bound_sources_for_action :
    {BoundSourcesForActionEnumerateInfo : Type 0}
    → Overloads BoundSourcesForActionEnumerateInfo
    → Call
        (Word 8
          × Pointer BoundSourcesForActionEnumerateInfo
          × Word 4
          × Pointer (Word 4)
          × Pointer (Word 8))
        (Pointer (Word 4) × Pointer (Word 8))
xr_enumerate_bound_sources_for_action bound_sources_for_action_enumerate_info_type = record {
  function_id = 22;
  request = λ a.
      let (session, enumerate_info, source_capacity_input, source_count_output, sources) = a in
      scalar session
      ⊕ pointer bound_sources_for_action_enumerate_info_type enumerate_info 1
      ⊕ scalar source_capacity_input
      ⊕ pointer (word 4) source_count_output 1
      ⊕ pointer (word 8) sources source_capacity_input.value;
  reply = λ a.
      let (session, enumerate_info, source_capacity_input, source_count_output, sources) = a in
      (do
        new_source_count_output ← pointer_in_place (word 4) source_count_output
        new_sources ← pointer_in_place (word 8) sources
        pure (new_source_count_output, new_sources));
}

unfoldable pub handle_xr_enumerate_bound_sources_for_action :
    {BoundSourcesForActionEnumerateInfo : Type 0}
    → Overloads BoundSourcesForActionEnumerateInfo
    → Handler
        (Word 8
          × Pointer BoundSourcesForActionEnumerateInfo
          × Word 4
          × Pointer (Word 4)
          × Pointer (Word 8))
        (Pointer (Word 4) × Pointer (Word 8))
handle_xr_enumerate_bound_sources_for_action bound_sources_for_action_enumerate_info_type = record {
  key = 22;
  params = (do
    session ← deserialize_word 8
    enumerate_info ← new_pointer bound_sources_for_action_enumerate_info_type
    source_capacity_input ← deserialize_word 4
    source_count_output ← new_pointer (word 4)
    sources ← new_pointer (word 8)
    pure (session, enumerate_info, source_capacity_input, source_count_output, sources));
  results = λ a memory.
      let (session, enumerate_info, source_capacity_input, source_count_output, sources) = a in
      let (new_source_count_output, new_sources) = memory in
      pointer (word 4) new_source_count_output 1
      ⊕ pointer (word 8) new_sources source_capacity_input.value;
}

-- xrGetInputSourceLocalizedName
unfoldable pub xr_get_input_source_localized_name :
    {InputSourceLocalizedNameGetInfo : Type 0}
    → Overloads InputSourceLocalizedNameGetInfo
    → Call
        (Word 8
          × Pointer InputSourceLocalizedNameGetInfo
          × Word 4
          × Pointer (Word 4)
          × Pointer (Word 1))
        (Pointer (Word 4) × Pointer (Word 1))
xr_get_input_source_localized_name input_source_localized_name_get_info_type = record {
  function_id = 35;
  request = λ a.
      let (session, get_info, buffer_capacity_input, buffer_count_output, buffer) = a in
      scalar session
      ⊕ pointer input_source_localized_name_get_info_type get_info 1
      ⊕ scalar buffer_capacity_input
      ⊕ pointer (word 4) buffer_count_output 1
      ⊕ pointer (word 1) buffer buffer_capacity_input.value;
  reply = λ a.
      let (session, get_info, buffer_capacity_input, buffer_count_output, buffer) = a in
      (do
        new_buffer_count_output ← pointer_in_place (word 4) buffer_count_output
        new_buffer ← pointer_in_place (word 1) buffer
        pure (new_buffer_count_output, new_buffer));
}

unfoldable pub handle_xr_get_input_source_localized_name :
    {InputSourceLocalizedNameGetInfo : Type 0}
    → Overloads InputSourceLocalizedNameGetInfo
    → Handler
        (Word 8
          × Pointer InputSourceLocalizedNameGetInfo
          × Word 4
          × Pointer (Word 4)
          × Pointer (Word 1))
        (Pointer (Word 4) × Pointer (Word 1))
handle_xr_get_input_source_localized_name input_source_localized_name_get_info_type = record {
  key = 35;
  params = (do
    session ← deserialize_word 8
    get_info ← new_pointer input_source_localized_name_get_info_type
    buffer_capacity_input ← deserialize_word 4
    buffer_count_output ← new_pointer (word 4)
    buffer ← new_pointer (word 1)
    pure (session, get_info, buffer_capacity_input, buffer_count_output, buffer));
  results = λ a memory.
      let (session, get_info, buffer_capacity_input, buffer_count_output, buffer) = a in
      let (new_buffer_count_output, new_buffer) = memory in
      pointer (word 4) new_buffer_count_output 1
      ⊕ pointer (word 1) new_buffer buffer_capacity_input.value;
}

-- xrStopHapticFeedback
unfoldable pub xr_stop_haptic_feedback :
    {HapticActionInfo : Type 0}
    → Overloads HapticActionInfo
    → Call (Word 8 × Pointer HapticActionInfo) Unit
xr_stop_haptic_feedback haptic_action_info_type = record {
  function_id = 49;
  request = λ a.
      let (session, haptic_action_info) = a in
      scalar session ⊕ pointer haptic_action_info_type haptic_action_info 1;
  reply = λ a. pure tt;
}

unfoldable pub handle_xr_stop_haptic_feedback :
    {HapticActionInfo : Type 0}
    → Overloads HapticActionInfo
    → Handler (Word 8 × Pointer HapticActionInfo) Unit
handle_xr_stop_haptic_feedback haptic_action_info_type = record {
  key = 49;
  params = (do
    session ← deserialize_word 8
    haptic_action_info ← new_pointer haptic_action_info_type
    pure (session, haptic_action_info));
  results = λ a memory. ok [];
}
