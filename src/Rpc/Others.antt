-- ===== src/Rpc/Others.antt =====
-- The functions of src/client/rpc.cpp with arguments of other kinds, and their handlers of
-- src/server/function_dispatch.cpp: arrays that are sent by themselves, next chains and arrays of
-- structs. The handlers of the instance are in src/server/server.cpp.
use xrtransport.Common.{ℕ, true, false, List, [], none, some, replicate}
use xrtransport.Serialization.Stream.{Result, ok, Reader, pure, ◌>>=◌}
use xrtransport.Serialization.Pointer.{Pointer, serialize_array, deserialize_array}
use xrtransport.Serialization.Chain.{Chain, Table, serialize_xr, deserialize_xr}
use xrtransport.Serialization.XrArray.{XrStruct, serialize_xr_array, deserialize_xr_array}
use xrtransport.Serialization.Word.{Word, to_word, deserialize_word}
use xrtransport.Serialization.Wire.{
  Overloads, ◌⊕◌, scalar, word, pointer, new_pointer, pointer_in_place,
}
use xrtransport.Rpc.Call.{Call, Handler}

-- xrCreateInstance
unfoldable pub xr_create_instance :
    {InstanceCreateInfo : Type 0}
    → Overloads InstanceCreateInfo
    → Call (Pointer InstanceCreateInfo × Pointer (Word 8)) (Pointer (Word 8))
xr_create_instance instance_create_info_type = record {
  function_id = 9;
  request = λ a.
      let (create_info, instance_) = a in
      pointer instance_create_info_type create_info 1 ⊕ pointer (word 8) instance_ 1;
  reply = λ a. let (create_info, instance_) = a in pointer_in_place (word 8) instance_;
}

-- xrDestroyInstance
unfoldable pub xr_destroy_instance : Call (Word 8) Unit
xr_destroy_instance = record { function_id = 15; request = λ a. scalar a; reply = λ a. pure tt }

-- XR_MAX_RESULT_STRING_SIZE and XR_MAX_STRUCTURE_NAME_SIZE
abbrev pub max_result_string_size : ℕ
max_result_string_size = 64

abbrev pub max_structure_name_size : ℕ
max_structure_name_size = 64

-- `serialize_array` and `deserialize_array` of characters, the latter into an array of zeros.
abbrev pub characters : List (Word 1) → ℕ → Result (List ℕ)
characters buffer size = serialize_array (word 1).codec buffer size

abbrev pub new_characters : ℕ → Reader (List (Word 1))
new_characters size = deserialize_array (word 1).codec (replicate size (to_word 1 0)) size

-- xrResultToString
unfoldable pub xr_result_to_string : Call (Word 8 × Word 4 × List (Word 1)) (Pointer (Word 1))
xr_result_to_string = record {
  function_id = 48;
  request = λ a.
      let (instance_, value, buffer) = a in
      scalar instance_ ⊕ scalar value ⊕ characters buffer max_result_string_size;
  reply = λ a. let (instance_, value, buffer) = a in pointer_in_place (word 1) (some buffer);
}

unfoldable pub handle_xr_result_to_string :
    Handler (Word 8 × Word 4 × List (Word 1)) (Pointer (Word 1))
handle_xr_result_to_string = record {
  key = 48;
  params = (do
    instance_ ← deserialize_word 8
    value ← deserialize_word 4
    buffer ← new_characters max_result_string_size
    pure (instance_, value, buffer));
  results = λ a memory. pointer (word 1) memory max_result_string_size;
}

-- xrStructureTypeToString
unfoldable pub xr_structure_type_to_string :
    Call (Word 8 × Word 4 × List (Word 1)) (Pointer (Word 1))
xr_structure_type_to_string = record {
  function_id = 51;
  request = λ a.
      let (instance_, value, buffer) = a in
      scalar instance_ ⊕ scalar value ⊕ characters buffer max_structure_name_size;
  reply = λ a. let (instance_, value, buffer) = a in pointer_in_place (word 1) (some buffer);
}

unfoldable pub handle_xr_structure_type_to_string :
    Handler (Word 8 × Word 4 × List (Word 1)) (Pointer (Word 1))
handle_xr_structure_type_to_string = record {
  key = 51;
  params = (do
    instance_ ← deserialize_word 8
    value ← deserialize_word 4
    buffer ← new_characters max_structure_name_size
    pure (instance_, value, buffer));
  results = λ a memory. pointer (word 1) memory max_structure_name_size;
}

-- xrApplyHapticFeedback
unfoldable pub xr_apply_haptic_feedback :
    {P HapticActionInfo : Type 0}
    → Table P
    → Overloads HapticActionInfo
    → Call (Word 8 × Pointer HapticActionInfo × Chain P) Unit
xr_apply_haptic_feedback table haptic_action_info_type = record {
  function_id = 2;
  request = λ a.
      let (session, haptic_action_info, haptic_feedback) = a in
      scalar session
      ⊕ pointer haptic_action_info_type haptic_action_info 1
      ⊕ serialize_xr table false haptic_feedback;
  reply = λ a. pure tt;
}

unfoldable pub handle_xr_apply_haptic_feedback :
    {P HapticActionInfo : Type 0}
    → Table P
    → Overloads HapticActionInfo
    → Handler (Word 8 × Pointer HapticActionInfo × Chain P) Unit
handle_xr_apply_haptic_feedback table haptic_action_info_type = record {
  key = 2;
  params = (do
    session ← deserialize_word 8
    haptic_action_info ← new_pointer haptic_action_info_type
    haptic_feedback ← deserialize_xr table false []
    pure (session, haptic_action_info, haptic_feedback));
  results = λ a memory. ok [];
}

-- xrEnumerateSwapchainImages
unfoldable pub xr_enumerate_swapchain_images :
    {P : Type 0}
    → Table P
    → Call
        (Word 8 × Word 4 × Pointer (Word 4) × Pointer (XrStruct P))
        (Pointer (Word 4) × Pointer (XrStruct P))
xr_enumerate_swapchain_images table = record {
  function_id = 27;
  request = λ a.
      let (swapchain, image_capacity_input, image_count_output, images) = a in
      scalar swapchain
      ⊕ scalar image_capacity_input
      ⊕ pointer (word 4) image_count_output 1
      ⊕ serialize_xr_array table false images image_capacity_input.value;
  reply = λ a.
      let (swapchain, image_capacity_input, image_count_output, images) = a in
      (do
        new_image_count_output ← pointer_in_place (word 4) image_count_output
        new_images ← deserialize_xr_array table true images
        pure (new_image_count_output, new_images));
}

unfoldable pub handle_xr_enumerate_swapchain_images :
    {P : Type 0}
    → Table P
    → Handler
        (Word 8 × Word 4 × Pointer (Word 4) × Pointer (XrStruct P))
        (Pointer (Word 4) × Pointer (XrStruct P))
handle_xr_enumerate_swapchain_images table = record {
  key = 27;
  params = (do
    swapchain ← deserialize_word 8
    image_capacity_input ← deserialize_word 4
    image_count_output ← new_pointer (word 4)
    images ← deserialize_xr_array table false none
    pure (swapchain, image_capacity_input, image_count_output, images));
  results = λ a memory.
      let (swapchain, image_capacity_input, image_count_output, images) = a in
      let (new_image_count_output, new_images) = memory in
      pointer (word 4) new_image_count_output 1
      ⊕ serialize_xr_array table false new_images image_capacity_input.value;
}
