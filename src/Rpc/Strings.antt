-- ===== src/Rpc/Strings.antt =====
-- Paths and extensions: the functions of src/client/rpc.cpp and their handlers of
-- src/server/function_dispatch.cpp.
use xrtransport.Serialization.Stream.{pure, ◌>>=◌}
use xrtransport.Serialization.Pointer.{Pointer}
use xrtransport.Serialization.Word.{Word, deserialize_word}
use xrtransport.Serialization.Wire.{
  Overloads, ◌⊕◌, scalar, word, pointer, new_pointer, pointer_in_place,
}
use xrtransport.Rpc.Pieces.{c_string}
use xrtransport.Rpc.Call.{Call, Handler}

-- xrStringToPath
unfoldable pub xr_string_to_path :
    Call (Word 8 × Pointer (Word 1) × Pointer (Word 8)) (Pointer (Word 8))
xr_string_to_path = record {
  function_id = 50;
  request = λ a.
      let (instance_, path_string, path) = a in
      scalar instance_ ⊕ c_string path_string ⊕ pointer (word 8) path 1;
  reply = λ a. let (instance_, path_string, path) = a in pointer_in_place (word 8) path;
}

unfoldable pub handle_xr_string_to_path :
    Handler (Word 8 × Pointer (Word 1) × Pointer (Word 8)) (Pointer (Word 8))
handle_xr_string_to_path = record {
  key = 50;
  params = (do
    instance_ ← deserialize_word 8
    path_string ← new_pointer (word 1)
    path ← new_pointer (word 8)
    pure (instance_, path_string, path));
  results = λ a memory. pointer (word 8) memory 1;
}

-- xrPathToString
unfoldable pub xr_path_to_string :
    Call
      (Word 8 × Word 8 × Word 4 × Pointer (Word 4) × Pointer (Word 1))
      (Pointer (Word 4) × Pointer (Word 1))
xr_path_to_string = record {
  function_id = 44;
  request = λ a.
      let (instance_, path, buffer_capacity_input, buffer_count_output, buffer) = a in
      scalar instance_
      ⊕ scalar path
      ⊕ scalar buffer_capacity_input
      ⊕ pointer (word 4) buffer_count_output 1
      ⊕ pointer (word 1) buffer buffer_capacity_input.value;
  reply = λ a.
      let (instance_, path, buffer_capacity_input, buffer_count_output, buffer) = a in
      (do
        new_buffer_count_output ← pointer_in_place (word 4) buffer_count_output
        new_buffer ← pointer_in_place (word 1) buffer
        pure (new_buffer_count_output, new_buffer));
}

unfoldable pub handle_xr_path_to_string :
    Handler
      (Word 8 × Word 8 × Word 4 × Pointer (Word 4) × Pointer (Word 1))
      (Pointer (Word 4) × Pointer (Word 1))
handle_xr_path_to_string = record {
  key = 44;
  params = (do
    instance_ ← deserialize_word 8
    path ← deserialize_word 8
    buffer_capacity_input ← deserialize_word 4
    buffer_count_output ← new_pointer (word 4)
    buffer ← new_pointer (word 1)
    pure (instance_, path, buffer_capacity_input, buffer_count_output, buffer));
  results = λ a memory.
      let (instance_, path, buffer_capacity_input, buffer_count_output, buffer) = a in
      let (new_buffer_count_output, new_buffer) = memory in
      pointer (word 4) new_buffer_count_output 1
      ⊕ pointer (word 1) new_buffer buffer_capacity_input.value;
}

-- xrEnumerateInstanceExtensionProperties
unfoldable pub xr_enumerate_instance_extension_properties :
    {ExtensionProperties : Type 0}
    → Overloads ExtensionProperties
    → Call
        (Pointer (Word 1) × Word 4 × Pointer (Word 4) × Pointer ExtensionProperties)
        (Pointer (Word 4) × Pointer ExtensionProperties)
xr_enumerate_instance_extension_properties extension_properties_type = record {
  function_id = 24;
  request = λ a.
      let (layer_name, property_capacity_input, property_count_output, properties) = a in
      c_string layer_name
      ⊕ scalar property_capacity_input
      ⊕ pointer (word 4) property_count_output 1
      ⊕ pointer extension_properties_type properties property_capacity_input.value;
  reply = λ a.
      let (layer_name, property_capacity_input, property_count_output, properties) = a in
      (do
        new_property_count_output ← pointer_in_place (word 4) property_count_output
        new_properties ← pointer_in_place extension_properties_type properties
        pure (new_property_count_output, new_properties));
}

unfoldable pub handle_xr_enumerate_instance_extension_properties :
    {ExtensionProperties : Type 0}
    → Overloads ExtensionProperties
    → Handler
        (Pointer (Word 1) × Word 4 × Pointer (Word 4) × Pointer ExtensionProperties)
        (Pointer (Word 4) × Pointer ExtensionProperties)
handle_xr_enumerate_instance_extension_properties extension_properties_type = record {
  key = 24;
  params = (do
    layer_name ← new_pointer (word 1)
    property_capacity_input ← deserialize_word 4
    property_count_output ← new_pointer (word 4)
    properties ← new_pointer extension_properties_type
    pure (layer_name, property_capacity_input, property_count_output, properties));
  results = λ a memory.
      let (layer_name, property_capacity_input, property_count_output, properties) = a in
      let (new_property_count_output, new_properties) = memory in
      pointer (word 4) new_property_count_output 1
      ⊕ pointer extension_properties_type new_properties property_capacity_input.value;
}
