-- ===== src/Rpc/Meta.antt =====
-- Extensions of META: the functions of src/client/rpc.cpp and their handlers of
-- src/server/function_dispatch.cpp.
use xrtransport.Common.{[]}
use xrtransport.Serialization.Stream.{ok, pure, ◌>>=◌}
use xrtransport.Serialization.Pointer.{Pointer}
use xrtransport.Serialization.Word.{Word, deserialize_word}
use xrtransport.Serialization.Wire.{◌⊕◌, scalar, word, pointer, new_pointer, pointer_in_place}
use xrtransport.Rpc.Call.{Call, Handler}

-- xrDestroyEnvironmentDepthProviderMETA
unfoldable pub xr_destroy_environment_depth_provider_meta : Call (Word 8) Unit
xr_destroy_environment_depth_provider_meta = record {
  function_id = 292004;
  request = λ a. scalar a;
  reply = λ a. pure tt;
}

unfoldable pub handle_xr_destroy_environment_depth_provider_meta : Handler (Word 8) Unit
handle_xr_destroy_environment_depth_provider_meta = record {
  key = 292004;
  params = deserialize_word 8;
  results = λ a memory. ok [];
}

-- xrDestroyEnvironmentDepthSwapchainMETA
unfoldable pub xr_destroy_environment_depth_swapchain_meta : Call (Word 8) Unit
xr_destroy_environment_depth_swapchain_meta = record {
  function_id = 292005;
  request = λ a. scalar a;
  reply = λ a. pure tt;
}

unfoldable pub handle_xr_destroy_environment_depth_swapchain_meta : Handler (Word 8) Unit
handle_xr_destroy_environment_depth_swapchain_meta = record {
  key = 292005;
  params = deserialize_word 8;
  results = λ a memory. ok [];
}

-- xrStartEnvironmentDepthProviderMETA
unfoldable pub xr_start_environment_depth_provider_meta : Call (Word 8) Unit
xr_start_environment_depth_provider_meta = record {
  function_id = 292009;
  request = λ a. scalar a;
  reply = λ a. pure tt;
}

unfoldable pub handle_xr_start_environment_depth_provider_meta : Handler (Word 8) Unit
handle_xr_start_environment_depth_provider_meta = record {
  key = 292009;
  params = deserialize_word 8;
  results = λ a memory. ok [];
}

-- xrStopEnvironmentDepthProviderMETA
unfoldable pub xr_stop_environment_depth_provider_meta : Call (Word 8) Unit
xr_stop_environment_depth_provider_meta = record {
  function_id = 292010;
  request = λ a. scalar a;
  reply = λ a. pure tt;
}

unfoldable pub handle_xr_stop_environment_depth_provider_meta : Handler (Word 8) Unit
handle_xr_stop_environment_depth_provider_meta = record {
  key = 292010;
  params = deserialize_word 8;
  results = λ a memory. ok [];
}

-- xrDestroyPassthroughColorLutMETA
unfoldable pub xr_destroy_passthrough_color_lut_meta : Call (Word 8) Unit
xr_destroy_passthrough_color_lut_meta = record {
  function_id = 267002;
  request = λ a. scalar a;
  reply = λ a. pure tt;
}

unfoldable pub handle_xr_destroy_passthrough_color_lut_meta : Handler (Word 8) Unit
handle_xr_destroy_passthrough_color_lut_meta = record {
  key = 267002;
  params = deserialize_word 8;
  results = λ a memory. ok [];
}

-- xrDestroyVirtualKeyboardMETA
unfoldable pub xr_destroy_virtual_keyboard_meta : Call (Word 8) Unit
xr_destroy_virtual_keyboard_meta = record {
  function_id = 220004;
  request = λ a. scalar a;
  reply = λ a. pure tt;
}

unfoldable pub handle_xr_destroy_virtual_keyboard_meta : Handler (Word 8) Unit
handle_xr_destroy_virtual_keyboard_meta = record {
  key = 220004;
  params = deserialize_word 8;
  results = λ a memory. ok [];
}

-- xrGetVirtualKeyboardScaleMETA
unfoldable pub xr_get_virtual_keyboard_scale_meta :
    Call (Word 8 × Pointer (Word 4)) (Pointer (Word 4))
xr_get_virtual_keyboard_scale_meta = record {
  function_id = 220007;
  request = λ a. let (keyboard, scale) = a in scalar keyboard ⊕ pointer (word 4) scale 1;
  reply = λ a. let (keyboard, scale) = a in pointer_in_place (word 4) scale;
}

unfoldable pub handle_xr_get_virtual_keyboard_scale_meta :
    Handler (Word 8 × Pointer (Word 4)) (Pointer (Word 4))
handle_xr_get_virtual_keyboard_scale_meta = record {
  key = 220007;
  params = (do keyboard ← deserialize_word 8; scale ← new_pointer (word 4); pure (keyboard, scale));
  results = λ a memory. pointer (word 4) memory 1;
}
