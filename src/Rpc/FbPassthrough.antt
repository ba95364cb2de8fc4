-- ===== src/Rpc/FbPassthrough.antt =====
-- Passthrough of FB: the functions of src/client/rpc.cpp and their handlers of
-- src/server/function_dispatch.cpp.
use xrtransport.Common.{[]}
use xrtransport.Serialization.Stream.{ok, pure}
use xrtransport.Serialization.Word.{Word, deserialize_word}
use xrtransport.Serialization.Wire.{scalar}
use xrtransport.Rpc.Call.{Call, Handler}

-- xrDestroyFoveationProfileFB
unfoldable pub xr_destroy_foveation_profile_fb : Call (Word 8) Unit
xr_destroy_foveation_profile_fb = record {
  function_id = 115002;
  request = λ a. scalar a;
  reply = λ a. pure tt;
}

unfoldable pub handle_xr_destroy_foveation_profile_fb : Handler (Word 8) Unit
handle_xr_destroy_foveation_profile_fb = record {
  key = 115002;
  params = deserialize_word 8;
  results = λ a memory. ok [];
}

-- xrDestroyPassthroughFB
unfoldable pub xr_destroy_passthrough_fb : Call (Word 8) Unit
xr_destroy_passthrough_fb = record {
  function_id = 119005;
  request = λ a. scalar a;
  reply = λ a. pure tt;
}

unfoldable pub handle_xr_destroy_passthrough_fb : Handler (Word 8) Unit
handle_xr_destroy_passthrough_fb = record {
  key = 119005;
  params = deserialize_word 8;
  results = λ a memory. ok [];
}

-- xrDestroyPassthroughLayerFB
unfoldable pub xr_destroy_passthrough_layer_fb : Call (Word 8) Unit
xr_destroy_passthrough_layer_fb = record {
  function_id = 119006;
  request = λ a. scalar a;
  reply = λ a. pure tt;
}

unfoldable pub handle_xr_destroy_passthrough_layer_fb : Handler (Word 8) Unit
handle_xr_destroy_passthrough_layer_fb = record {
  key = 119006;
  params = deserialize_word 8;
  results = λ a memory. ok [];
}

-- xrPassthroughLayerPauseFB
unfoldable pub xr_passthrough_layer_pause_fb : Call (Word 8) Unit
xr_passthrough_layer_pause_fb = record {
  function_id = 119008;
  request = λ a. scalar a;
  reply = λ a. pure tt;
}

unfoldable pub handle_xr_passthrough_layer_pause_fb : Handler (Word 8) Unit
handle_xr_passthrough_layer_pause_fb = record {
  key = 119008;
  params = deserialize_word 8;
  results = λ a memory. ok [];
}

-- xrPassthroughLayerResumeFB
unfoldable pub xr_passthrough_layer_resume_fb : Call (Word 8) Unit
xr_passthrough_layer_resume_fb = record {
  function_id = 119009;
  request = λ a. scalar a;
  reply = λ a. pure tt;
}

unfoldable pub handle_xr_passthrough_layer_resume_fb : Handler (Word 8) Unit
handle_xr_passthrough_layer_resume_fb = record {
  key = 119009;
  params = deserialize_word 8;
  results = λ a memory. ok [];
}

-- xrPassthroughPauseFB
unfoldable pub xr_passthrough_pause_fb : Call (Word 8) Unit
xr_passthrough_pause_fb = record {
  function_id = 119011;
  request = λ a. scalar a;
  reply = λ a. pure tt;
}

unfoldable pub handle_xr_passthrough_pause_fb : Handler (Word 8) Unit
handle_xr_passthrough_pause_fb = record {
  key = 119011;
  params = deserialize_word 8;
  results = λ a memory. ok [];
}

-- xrPassthroughStartFB
unfoldable pub xr_passthrough_start_fb : Call (Word 8) Unit
xr_passthrough_start_fb = record {
  function_id = 119012;
  request = λ a. scalar a;
  reply = λ a. pure tt;
}

unfoldable pub handle_xr_passthrough_start_fb : Handler (Word 8) Unit
handle_xr_passthrough_start_fb = record {
  key = 119012;
  params = deserialize_word 8;
  results = λ a memory. ok [];
}
