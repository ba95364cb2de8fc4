-- ===== src/Rpc/ViewConfigurations.antt =====
-- View configurations: the functions of src/client/rpc.cpp and their handlers of
-- src/server/function_dispatch.cpp.
use xrtransport.Serialization.Stream.{pure, ◌>>=◌}
use xrtransport.Serialization.Pointer.{Pointer}
use xrtransport.Serialization.Word.{Word, deserialize_word}
use xrtransport.Serialization.Wire.{
  Overloads, ◌⊕◌, scalar, word, pointer, new_pointer, pointer_in_place,
}
use xrtransport.Rpc.Call.{Call, Handler}

-- xrEnumerateViewConfigurations
unfoldable pub xr_enumerate_view_configurations :
    Call
      (Word 8 × Word 8 × Word 4 × Pointer (Word 4) × Pointer (Word 4))
      (Pointer (Word 4) × Pointer (Word 4))
xr_enumerate_view_configurations = record {
  function_id = 29;
  request = λ a.
      let (
        instance_, system_id, view_configuration_type_capacity_input,
        view_configuration_type_count_output, view_configuration_types,
      ) =
        a in
      scalar instance_
      ⊕ scalar system_id
      ⊕ scalar view_configuration_type_capacity_input
      ⊕ pointer (word 4) view_configuration_type_count_output 1
      ⊕ pointer (word 4) view_configuration_types view_configuration_type_capacity_input.value;
  reply = λ a.
      let (
        instance_, system_id, view_configuration_type_capacity_input,
        view_configuration_type_count_output, view_configuration_types,
      ) =
        a in
      (do
        new_view_configuration_type_count_output ←
            pointer_in_place (word 4) view_configuration_type_count_output
        new_view_configuration_types ← pointer_in_place (word 4) view_configuration_types
        pure (new_view_configuration_type_count_output, new_view_configuration_types));
}

unfoldable pub handle_xr_enumerate_view_configurations :
    Handler
      (Word 8 × Word 8 × Word 4 × Pointer (Word 4) × Pointer (Word 4))
      (Pointer (Word 4) × Pointer (Word 4))
handle_xr_enumerate_view_configurations = record {
  key = 29;
  params = (do
    instance_ ← deserialize_word 8
    system_id ← deserialize_word 8
    view_configuration_type_capacity_input ← deserialize_word 4
    view_configuration_type_count_output ← new_pointer (word 4)
    view_configuration_types ← new_pointer (word 4)
    pure (
      instance_, system_id, view_configuration_type_capacity_input,
      view_configuration_type_count_output, view_configuration_types,
    ));
  results = λ a memory.
      let (
        instance_, system_id, view_configuration_type_capacity_input,
        view_configuration_type_count_output, view_configuration_types,
      ) =
        a in
      let (new_view_configuration_type_count_output, new_view_configuration_types) = memory in
      pointer (word 4) new_view_configuration_type_count_output 1
      ⊕ pointer (word 4) new_view_configuration_types view_configuration_type_capacity_input.value;
}

-- xrGetViewConfigurationProperties
unfoldable pub xr_get_view_configuration_properties :
    {ViewConfigurationProperties : Type 0}
    → Overloads ViewConfigurationProperties
    → Call
        (Word 8 × Word 8 × Word 4 × Pointer ViewConfigurationProperties)
        (Pointer ViewConfigurationProperties)
xr_get_view_configuration_properties view_configuration_properties_type = record {
  function_id = 40;
  request = λ a.
      let (instance_, system_id, view_configuration_type, configuration_properties) = a in
      scalar instance_
      ⊕ scalar system_id
      ⊕ scalar view_configuration_type
      ⊕ pointer view_configuration_properties_type configuration_properties 1;
  reply = λ a.
      let (instance_, system_id, view_configuration_type, configuration_properties) = a in
      pointer_in_place view_configuration_properties_type configuration_properties;
}

unfoldable pub handle_xr_get_view_configuration_properties :
    {ViewConfigurationProperties : Type 0}
    → Overloads ViewConfigurationProperties
    → Handler
        (Word 8 × Word 8 × Word 4 × Pointer ViewConfigurationProperties)
        (Pointer ViewConfigurationProperties)
handle_xr_get_view_configuration_properties view_configuration_properties_type = record {
  key = 40;
  params = (do
    instance_ ← deserialize_word 8
    system_id ← deserialize_word 8
    view_configuration_type ← deserialize_word 4
    configuration_properties ← new_pointer view_configuration_properties_type
    pure (instance_, system_id, view_configuration_type, configuration_properties));
  results = λ a memory. pointer view_configuration_properties_type memory 1;
}

-- xrEnumerateEnvironmentBlendModes
unfoldable pub xr_enumerate_environment_blend_modes :
    Call
      (Word 8 × Word 8 × Word 4 × Word 4 × Pointer (Word 4) × Pointer (Word 4))
      (Pointer (Word 4) × Pointer (Word 4))
xr_enumerate_environment_blend_modes = record {
  function_id = 23;
  request = λ a.
      let (
        instance_, system_id, view_configuration_type, environment_blend_mode_capacity_input,
        environment_blend_mode_count_output, environment_blend_modes,
      ) =
        a in
      scalar instance_
      ⊕ scalar system_id
      ⊕ scalar view_configuration_type
      ⊕ scalar environment_blend_mode_capacity_input
      ⊕ pointer (word 4) environment_blend_mode_count_output 1
      ⊕ pointer (word 4) environment_blend_modes environment_blend_mode_capacity_input.value;
  reply = λ a.
      let (
        instance_, system_id, view_configuration_type, environment_blend_mode_capacity_input,
        environment_blend_mode_count_output, environment_blend_modes,
      ) =
        a in
      (do
        new_environment_blend_mode_count_output ←
            pointer_in_place (word 4) environment_blend_mode_count_output
        new_environment_blend_modes ← pointer_in_place (word 4) environment_blend_modes
        pure (new_environment_blend_mode_count_output, new_environment_blend_modes));
}

unfoldable pub handle_xr_enumerate_environment_blend_modes :
    Handler
      (Word 8 × Word 8 × Word 4 × Word 4 × Pointer (Word 4) × Pointer (Word 4))
      (Pointer (Word 4) × Pointer (Word 4))
handle_xr_enumerate_environment_blend_modes = record {
  key = 23;
  params = (do
    instance_ ← deserialize_word 8
    system_id ← deserialize_word 8
    view_configuration_type ← deserialize_word 4
    environment_blend_mode_capacity_input ← deserialize_word 4
    environment_blend_mode_count_output ← new_pointer (word 4)
    environment_blend_modes ← new_pointer (word 4)
    pure (
      instance_, system_id, view_configuration_type, environment_blend_mode_capacity_input,
      environment_blend_mode_count_output, environment_blend_modes,
    ));
  results = λ a memory.
      let (
        instance_, system_id, view_configuration_type, environment_blend_mode_capacity_input,
        environment_blend_mode_count_output, environment_blend_modes,
      ) =
        a in
      let (new_environment_blend_mode_count_output, new_environment_blend_modes) = memory in
      pointer (word 4) new_environment_blend_mode_count_output 1
      ⊕ pointer (word 4) new_environment_blend_modes environment_blend_mode_capacity_input.value;
}
