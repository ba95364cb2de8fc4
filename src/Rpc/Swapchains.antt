-- ===== src/Rpc/Swapchains.antt =====
-- Swapchains: the functions of src/client/rpc.cpp and their handlers of
-- src/server/function_dispatch.cpp.
use xrtransport.Common.{[]}
use xrtransport.Serialization.Stream.{ok, pure, ◌>>=◌}
use xrtransport.Serialization.Pointer.{Pointer}
use xrtransport.Serialization.Word.{Word, deserialize_word}
use xrtransport.Serialization.Wire.{
  Overloads, ◌⊕◌, scalar, word, pointer, new_pointer, pointer_in_place,
}
use xrtransport.Rpc.Call.{Call, Handler}

-- xrEnumerateSwapchainFormats
unfoldable pub xr_enumerate_swapchain_formats :
    Call
      (Word 8 × Word 4 × Pointer (Word 4) × Pointer (Word 8))
      (Pointer (Word 4) × Pointer (Word 8))
xr_enumerate_swapchain_formats = record {
  function_id = 26;
  request = λ a.
      let (session, format_capacity_input, format_count_output, formats) = a in
      scalar session
      ⊕ scalar format_capacity_input
      ⊕ pointer (word 4) format_count_output 1
      ⊕ pointer (word 8) formats format_capacity_input.value;
  reply = λ a.
      let (session, format_capacity_input, format_count_output, formats) = a in
      (do
        new_format_count_output ← pointer_in_place (word 4) format_count_output
        new_formats ← pointer_in_place (word 8) formats
        pure (new_format_count_output, new_formats));
}

unfoldable pub handle_xr_enumerate_swapchain_formats :
    Handler
      (Word 8 × Word 4 × Pointer (Word 4) × Pointer (Word 8))
      (Pointer (Word 4) × Pointer (Word 8))
handle_xr_enumerate_swapchain_formats = record {
  key = 26;
  params = (do
    session ← deserialize_word 8
    format_capacity_input ← deserialize_word 4
    format_count_output ← new_pointer (word 4)
    formats ← new_pointer (word 8)
    pure (session, format_capacity_input, format_count_output, formats));
  results = λ a memory.
      let (session, format_capacity_input, format_count_output, formats) = a in
      let (new_format_count_output, new_formats) = memory in
      pointer (word 4) new_format_count_output 1
      ⊕ pointer (word 8) new_formats format_capacity_input.value;
}

-- xrCreateSwapchain
unfoldable pub xr_create_swapchain :
    {SwapchainCreateInfo : Type 0}
    → Overloads SwapchainCreateInfo
    → Call (Word 8 × Pointer SwapchainCreateInfo × Pointer (Word 8)) (Pointer (Word 8))
xr_create_swapchain swapchain_create_info_type = record {
  function_id = 12;
  request = λ a.
      let (session, create_info, swapchain) = a in
      scalar session
      ⊕ pointer swapchain_create_info_type create_info 1
      ⊕ pointer (word 8) swapchain 1;
  reply = λ a. let (session, create_info, swapchain) = a in pointer_in_place (word 8) swapchain;
}

unfoldable pub handle_xr_create_swapchain :
    {SwapchainCreateInfo : Type 0}
    → Overloads SwapchainCreateInfo
    → Handler (Word 8 × Pointer SwapchainCreateInfo × Pointer (Word 8)) (Pointer (Word 8))
handle_xr_create_swapchain swapchain_create_info_type = record {
  key = 12;
  params = (do
    session ← deserialize_word 8
    create_info ← new_pointer swapchain_create_info_type
    swapchain ← new_pointer (word 8)
    pure (session, create_info, swapchain));
  results = λ a memory. pointer (word 8) memory 1;
}

-- xrAcquireSwapchainImage
unfoldable pub xr_acquire_swapchain_image :
    {SwapchainImageAcquireInfo : Type 0}
    → Overloads SwapchainImageAcquireInfo
    → Call (Word 8 × Pointer SwapchainImageAcquireInfo × Pointer (Word 4)) (Pointer (Word 4))
xr_acquire_swapchain_image swapchain_image_acquire_info_type = record {
  function_id = 1;
  request = λ a.
      let (swapchain, acquire_info, index) = a in
      scalar swapchain
      ⊕ pointer swapchain_image_acquire_info_type acquire_info 1
      ⊕ pointer (word 4) index 1;
  reply = λ a. let (swapchain, acquire_info, index) = a in pointer_in_place (word 4) index;
}

unfoldable pub handle_xr_acquire_swapchain_image :
    {SwapchainImageAcquireInfo : Type 0}
    → Overloads SwapchainImageAcquireInfo
    → Handler (Word 8 × Pointer SwapchainImageAcquireInfo × Pointer (Word 4)) (Pointer (Word 4))
handle_xr_acquire_swapchain_image swapchain_image_acquire_info_type = record {
  key = 1;
  params = (do
    swapchain ← deserialize_word 8
    acquire_info ← new_pointer swapchain_image_acquire_info_type
    index ← new_pointer (word 4)
    pure (swapchain, acquire_info, index));
  results = λ a memory. pointer (word 4) memory 1;
}

-- xrWaitSwapchainImage
unfoldable pub xr_wait_swapchain_image :
    {SwapchainImageWaitInfo : Type 0}
    → Overloads SwapchainImageWaitInfo
    → Call (Word 8 × Pointer SwapchainImageWaitInfo) Unit
xr_wait_swapchain_image swapchain_image_wait_info_type = record {
  function_id = 55;
  request = λ a.
      let (swapchain, wait_info) = a in
      scalar swapchain ⊕ pointer swapchain_image_wait_info_type wait_info 1;
  reply = λ a. pure tt;
}

unfoldable pub handle_xr_wait_swapchain_image :
    {SwapchainImageWaitInfo : Type 0}
    → Overloads SwapchainImageWaitInfo
    → Handler (Word 8 × Pointer SwapchainImageWaitInfo) Unit
handle_xr_wait_swapchain_image swapchain_image_wait_info_type = record {
  key = 55;
  params = (do
    swapchain ← deserialize_word 8
    wait_info ← new_pointer swapchain_image_wait_info_type
    pure (swapchain, wait_info));
  results = λ a memory. ok [];
}

-- xrReleaseSwapchainImage
unfoldable pub xr_release_swapchain_image :
    {SwapchainImageReleaseInfo : Type 0}
    → Overloads SwapchainImageReleaseInfo
    → Call (Word 8 × Pointer SwapchainImageReleaseInfo) Unit
xr_release_swapchain_image swapchain_image_release_info_type = record {
  function_id = 46;
  request = λ a.
      let (swapchain, release_info) = a in
      scalar swapchain ⊕ pointer swapchain_image_release_info_type release_info 1;
  reply = λ a. pure tt;
}

unfoldable pub handle_xr_release_swapchain_image :
    {SwapchainImageReleaseInfo : Type 0}
    → Overloads SwapchainImageReleaseInfo
    → Handler (Word 8 × Pointer SwapchainImageReleaseInfo) Unit
handle_xr_release_swapchain_image swapchain_image_release_info_type = record {
  key = 46;
  params = (do
    swapchain ← deserialize_word 8
    release_info ← new_pointer swapchain_image_release_info_type
    pure (swapchain, release_info));
  results = λ a memory. ok [];
}

-- xrDestroySwapchain
unfoldable pub xr_destroy_swapchain : Call (Word 8) Unit
xr_destroy_swapchain = record { function_id = 18; request = λ a. scalar a; reply = λ a. pure tt }

unfoldable pub handle_xr_destroy_swapchain : Handler (Word 8) Unit
handle_xr_destroy_swapchain = record {
  key = 18;
  params = deserialize_word 8;
  results = λ a memory. ok [];
}
