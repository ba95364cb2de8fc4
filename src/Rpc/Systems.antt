-- ===== src/Rpc/Systems.antt =====
-- Systems and instances: the functions of src/client/rpc.cpp and their handlers of
-- src/server/function_dispatch.cpp.
use xrtransport.Serialization.Stream.{pure, ◌>>=◌}
use xrtransport.Serialization.Pointer.{Pointer}
use xrtransport.Serialization.Word.{Word, deserialize_word}
use xrtransport.Serialization.Wire.{
  Overloads, ◌⊕◌, scalar, word, pointer, new_pointer, pointer_in_place,
}
use xrtransport.Rpc.Call.{Call, Handler}

-- xrGetInstanceProperties
unfoldable pub xr_get_instance_properties :
    {InstanceProperties : Type 0}
    → Overloads InstanceProperties
    → Call (Word 8 × Pointer InstanceProperties) (Pointer InstanceProperties)
xr_get_instance_properties instance_properties_type = record {
  function_id = 36;
  request = λ a.
      let (instance_, instance_properties) = a in
      scalar instance_ ⊕ pointer instance_properties_type instance_properties 1;
  reply = λ a.
      let (instance_, instance_properties) = a in
      pointer_in_place instance_properties_type instance_properties;
}

unfoldable pub handle_xr_get_instance_properties :
    {InstanceProperties : Type 0}
    → Overloads InstanceProperties
    → Handler (Word 8 × Pointer InstanceProperties) (Pointer InstanceProperties)
handle_xr_get_instance_properties instance_properties_type = record {
  key = 36;
  params = (do
    instance_ ← deserialize_word 8
    instance_properties ← new_pointer instance_properties_type
    pure (instance_, instance_properties));
  results = λ a memory. pointer instance_properties_type memory 1;
}

-- xrPollEvent
unfoldable pub xr_poll_event :
    {EventDataBuffer : Type 0}
    → Overloads EventDataBuffer
    → Call (Word 8 × Pointer EventDataBuffer) (Pointer EventDataBuffer)
xr_poll_event event_data_buffer_type = record {
  function_id = 45;
  request = λ a.
      let (instance_, event_data) = a in
      scalar instance_ ⊕ pointer event_data_buffer_type event_data 1;
  reply =
      λ a. let (instance_, event_data) = a in pointer_in_place event_data_buffer_type event_data;
}

unfoldable pub handle_xr_poll_event :
    {EventDataBuffer : Type 0}
    → Overloads EventDataBuffer
    → Handler (Word 8 × Pointer EventDataBuffer) (Pointer EventDataBuffer)
handle_xr_poll_event event_data_buffer_type = record {
  key = 45;
  params = (do
    instance_ ← deserialize_word 8
    event_data ← new_pointer event_data_buffer_type
    pure (instance_, event_data));
  results = λ a memory. pointer event_data_buffer_type memory 1;
}

-- xrGetSystem
unfoldable pub xr_get_system :
    {SystemGetInfo : Type 0}
    → Overloads SystemGetInfo
    → Call (Word 8 × Pointer SystemGetInfo × Pointer (Word 8)) (Pointer (Word 8))
xr_get_system system_get_info_type = record {
  function_id = 38;
  request = λ a.
      let (instance_, get_info, system_id) = a in
      scalar instance_ ⊕ pointer system_get_info_type get_info 1 ⊕ pointer (word 8) system_id 1;
  reply = λ a. let (instance_, get_info, system_id) = a in pointer_in_place (word 8) system_id;
}

unfoldable pub handle_xr_get_system :
    {SystemGetInfo : Type 0}
    → Overloads SystemGetInfo
    → Handler (Word 8 × Pointer SystemGetInfo × Pointer (Word 8)) (Pointer (Word 8))
handle_xr_get_system system_get_info_type = record {
  key = 38;
  params = (do
    instance_ ← deserialize_word 8
    get_info ← new_pointer system_get_info_type
    system_id ← new_pointer (word 8)
    pure (instance_, get_info, system_id));
  results = λ a memory. pointer (word 8) memory 1;
}

-- xrGetSystemProperties
unfoldable pub xr_get_system_properties :
    {SystemProperties : Type 0}
    → Overloads SystemProperties
    → Call (Word 8 × Word 8 × Pointer SystemProperties) (Pointer SystemProperties)
xr_get_system_properties system_properties_type = record {
  function_id = 39;
  request = λ a.
      let (instance_, system_id, properties) = a in
      scalar instance_ ⊕ scalar system_id ⊕ pointer system_properties_type properties 1;
  reply = λ a.
      let (instance_, system_id, properties) = a in
      pointer_in_place system_properties_type properties;
}

unfoldable pub handle_xr_get_system_properties :
    {SystemProperties : Type 0}
    → Overloads SystemProperties
    → Handler (Word 8 × Word 8 × Pointer SystemProperties) (Pointer SystemProperties)
handle_xr_get_system_properties system_properties_type = record {
  key = 39;
  params = (do
    instance_ ← deserialize_word 8
    system_id ← deserialize_word 8
    properties ← new_pointer system_properties_type
    pure (instance_, system_id, properties));
  results = λ a memory. pointer system_properties_type memory 1;
}

-- xrEnumerateApiLayerProperties
unfoldable pub xr_enumerate_api_layer_properties :
    {ApiLayerProperties : Type 0}
    → Overloads ApiLayerProperties
    → Call
        (Word 4 × Pointer (Word 4) × Pointer ApiLayerProperties)
        (Pointer (Word 4) × Pointer ApiLayerProperties)
xr_enumerate_api_layer_properties api_layer_properties_type = record {
  function_id = 21;
  request = λ a.
      let (property_capacity_input, property_count_output, properties) = a in
      scalar property_capacity_input
      ⊕ pointer (word 4) property_count_output 1
      ⊕ pointer api_layer_properties_type properties property_capacity_input.value;
  reply = λ a.
      let (property_capacity_input, property_count_output, properties) = a in
      (do
        new_property_count_output ← pointer_in_place (word 4) property_count_output
        new_properties ← pointer_in_place api_layer_properties_type properties
        pure (new_property_count_output, new_properties));
}

unfoldable pub handle_xr_enumerate_api_layer_properties :
    {ApiLayerProperties : Type 0}
    → Overloads ApiLayerProperties
    → Handler
        (Word 4 × Pointer (Word 4) × Pointer ApiLayerProperties)
        (Pointer (Word 4) × Pointer ApiLayerProperties)
handle_xr_enumerate_api_layer_properties api_layer_properties_type = record {
  key = 21;
  params = (do
    property_capacity_input ← deserialize_word 4
    property_count_output ← new_pointer (word 4)
    properties ← new_pointer api_layer_properties_type
    pure (property_capacity_input, property_count_output, properties));
  results = λ a memory.
      let (property_capacity_input, property_count_output, properties) = a in
      let (new_property_count_output, new_properties) = memory in
      pointer (word 4) new_property_count_output 1
      ⊕ pointer api_layer_properties_type new_properties property_capacity_input.value;
}
