-- ===== src/Rpc/Views.antt =====
-- Views: the functions of src/client/rpc.cpp and their handlers of
-- src/server/function_dispatch.cpp.
use xrtransport.Serialization.Stream.{pure, ◌>>=◌}
use xrtransport.Serialization.Pointer.{Pointer}
use xrtransport.Serialization.Word.{Word, deserialize_word}
use xrtransport.Serialization.Wire.{
  Overloads, ◌⊕◌, scalar, word, pointer, new_pointer, pointer_in_place,
}
use xrtransport.Rpc.Call.{Call, Handler}

-- xrEnumerateViewConfigurationViews
unfoldable pub xr_enumerate_view_configuration_views :
    {ViewConfigurationView : Type 0}
    → Overloads ViewConfigurationView
    → Call
        (Word 8 × Word 8 × Word 4 × Word 4 × Pointer (Word 4) × Pointer ViewConfigurationView)
        (Pointer (Word 4) × Pointer ViewConfigurationView)
xr_enumerate_view_configuration_views view_configuration_view_type = record {
  function_id = 28;
  request = λ a.
      let (
        instance_, system_id, view_configuration_type, view_capacity_input, view_count_output,
        views,
      ) =
        a in
      scalar instance_
      ⊕ scalar system_id
      ⊕ scalar view_configuration_type
      ⊕ scalar view_capacity_input
      ⊕ pointer (word 4) view_count_output 1
      ⊕ pointer view_configuration_view_type views view_capacity_input.value;
  reply = λ a.
      let (
        instance_, system_id, view_configuration_type, view_capacity_input, view_count_output,
        views,
      ) =
        a in
      (do
        new_view_count_output ← pointer_in_place (word 4) view_count_output
        new_views ← pointer_in_place view_configuration_view_type views
        pure (new_view_count_output, new_views));
}

unfoldable pub handle_xr_enumerate_view_configuration_views :
    {ViewConfigurationView : Type 0}
    → Overloads ViewConfigurationView
    → Handler
        (Word 8 × Word 8 × Word 4 × Word 4 × Pointer (Word 4) × Pointer ViewConfigurationView)
        (Pointer (Word 4) × Pointer ViewConfigurationView)
handle_xr_enumerate_view_configuration_views view_configuration_view_type = record {
  key = 28;
  params = (do
    instance_ ← deserialize_word 8
    system_id ← deserialize_word 8
    view_configuration_type ← deserialize_word 4
    view_capacity_input ← deserialize_word 4
    view_count_output ← new_pointer (word 4)
    views ← new_pointer view_configuration_view_type
    pure (
      instance_, system_id, view_configuration_type, view_capacity_input, view_count_output, views,
    ));
  results = λ a memory.
      let (
        instance_, system_id, view_configuration_type, view_capacity_input, view_count_output,
        views,
      ) =
        a in
      let (new_view_count_output, new_views) = memory in
      pointer (word 4) new_view_count_output 1
      ⊕ pointer view_configuration_view_type new_views view_capacity_input.value;
}

-- xrLocateViews
unfoldable pub xr_locate_views :
    {ViewLocateInfo : Type 0} {ViewState : Type 0} {View : Type 0}
    → Overloads ViewLocateInfo
    → Overloads ViewState
    → Overloads View
    → Call
        (Word 8
          × Pointer ViewLocateInfo
          × Pointer ViewState
          × Word 4
          × Pointer (Word 4)
          × Pointer View)
        (Pointer ViewState × Pointer (Word 4) × Pointer View)
xr_locate_views view_locate_info_type view_state_type view_type = record {
  function_id = 43;
  request = λ a.
      let (session, view_locate_info, view_state, view_capacity_input, view_count_output, views) =
        a in
      scalar session
      ⊕ pointer view_locate_info_type view_locate_info 1
      ⊕ pointer view_state_type view_state 1
      ⊕ scalar view_capacity_input
      ⊕ pointer (word 4) view_count_output 1
      ⊕ pointer view_type views view_capacity_input.value;
  reply = λ a.
      let (session, view_locate_info, view_state, view_capacity_input, view_count_output, views) =
        a in
      (do
        new_view_state ← pointer_in_place view_state_type view_state
        new_view_count_output ← pointer_in_place (word 4) view_count_output
        new_views ← pointer_in_place view_type views
        pure (new_view_state, new_view_count_output, new_views));
}

unfoldable pub handle_xr_locate_views :
    {ViewLocateInfo : Type 0} {ViewState : Type 0} {View : Type 0}
    → Overloads ViewLocateInfo
    → Overloads ViewState
    → Overloads View
    → Handler
        (Word 8
          × Pointer ViewLocateInfo
          × Pointer ViewState
          × Word 4
          × Pointer (Word 4)
          × Pointer View)
        (Pointer ViewState × Pointer (Word 4) × Pointer View)
handle_xr_locate_views view_locate_info_type view_state_type view_type = record {
  key = 43;
  params = (do
    session ← deserialize_word 8
    view_locate_info ← new_pointer view_locate_info_type
    view_state ← new_pointer view_state_type
    view_capacity_input ← deserialize_word 4
    view_count_output ← new_pointer (word 4)
    views ← new_pointer view_type
    pure (session, view_locate_info, view_state, view_capacity_input, view_count_output, views));
  results = λ a memory.
      let (session, view_locate_info, view_state, view_capacity_input, view_count_output, views) =
        a in
      let (new_view_state, new_view_count_output, new_views) = memory in
      pointer view_state_type new_view_state 1
      ⊕ pointer (word 4) new_view_count_output 1
      ⊕ pointer view_type new_views view_capacity_input.value;
}
