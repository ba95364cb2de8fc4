-- ===== src/Rpc/FbTrackers.antt =====
-- Trackers and displays of FB: the functions of src/client/rpc.cpp and their handlers of
-- src/server/function_dispatch.cpp.
use xrtransport.Common.{[]}
use xrtransport.Serialization.Stream.{ok, pure, ◌>>=◌}
use xrtransport.Serialization.Pointer.{Pointer}
use xrtransport.Serialization.Word.{Word, deserialize_word}
use xrtransport.Serialization.Wire.{◌⊕◌, scalar, word, pointer, new_pointer, pointer_in_place}
use xrtransport.Rpc.Call.{Call, Handler}

-- xrDestroyBodyTrackerFB
unfoldable pub xr_destroy_body_tracker_fb : Call (Word 8) Unit
xr_destroy_body_tracker_fb = record {
  function_id = 77002;
  request = λ a. scalar a;
  reply = λ a. pure tt;
}

unfoldable pub handle_xr_destroy_body_tracker_fb : Handler (Word 8) Unit
handle_xr_destroy_body_tracker_fb = record {
  key = 77002;
  params = deserialize_word 8;
  results = λ a memory. ok [];
}

-- xrSetColorSpaceFB
unfoldable pub xr_set_color_space_fb : Call (Word 8 × Word 4) Unit
xr_set_color_space_fb = record {
  function_id = 109002;
  request = λ a. let (session, color_space) = a in scalar session ⊕ scalar color_space;
  reply = λ a. pure tt;
}

unfoldable pub handle_xr_set_color_space_fb : Handler (Word 8 × Word 4) Unit
handle_xr_set_color_space_fb = record {
  key = 109002;
  params = (do
    session ← deserialize_word 8
    color_space ← deserialize_word 4
    pure (session, color_space));
  results = λ a memory. ok [];
}

-- xrRequestDisplayRefreshRateFB
unfoldable pub xr_request_display_refresh_rate_fb : Call (Word 8 × Word 4) Unit
xr_request_display_refresh_rate_fb = record {
  function_id = 102003;
  request =
      λ a. let (session, display_refresh_rate) = a in scalar session ⊕ scalar display_refresh_rate;
  reply = λ a. pure tt;
}

unfoldable pub handle_xr_request_display_refresh_rate_fb : Handler (Word 8 × Word 4) Unit
handle_xr_request_display_refresh_rate_fb = record {
  key = 102003;
  params = (do
    session ← deserialize_word 8
    display_refresh_rate ← deserialize_word 4
    pure (session, display_refresh_rate));
  results = λ a memory. ok [];
}

-- xrDestroyEyeTrackerFB
unfoldable pub xr_destroy_eye_tracker_fb : Call (Word 8) Unit
xr_destroy_eye_tracker_fb = record {
  function_id = 203002;
  request = λ a. scalar a;
  reply = λ a. pure tt;
}

unfoldable pub handle_xr_destroy_eye_tracker_fb : Handler (Word 8) Unit
handle_xr_destroy_eye_tracker_fb = record {
  key = 203002;
  params = deserialize_word 8;
  results = λ a memory. ok [];
}

-- xrDestroyFaceTrackerFB
unfoldable pub xr_destroy_face_tracker_fb : Call (Word 8) Unit
xr_destroy_face_tracker_fb = record {
  function_id = 202002;
  request = λ a. scalar a;
  reply = λ a. pure tt;
}

unfoldable pub handle_xr_destroy_face_tracker_fb : Handler (Word 8) Unit
handle_xr_destroy_face_tracker_fb = record {
  key = 202002;
  params = deserialize_word 8;
  results = λ a memory. ok [];
}

-- xrDestroyFaceTracker2FB
unfoldable pub xr_destroy_face_tracker2_fb : Call (Word 8) Unit
xr_destroy_face_tracker2_fb = record {
  function_id = 288002;
  request = λ a. scalar a;
  reply = λ a. pure tt;
}

unfoldable pub handle_xr_destroy_face_tracker2_fb : Handler (Word 8) Unit
handle_xr_destroy_face_tracker2_fb = record {
  key = 288002;
  params = deserialize_word 8;
  results = λ a memory. ok [];
}

-- xrDestroySpaceUserFB
unfoldable pub xr_destroy_space_user_fb : Call (Word 8) Unit
xr_destroy_space_user_fb = record {
  function_id = 242002;
  request = λ a. scalar a;
  reply = λ a. pure tt;
}

unfoldable pub handle_xr_destroy_space_user_fb : Handler (Word 8) Unit
handle_xr_destroy_space_user_fb = record {
  key = 242002;
  params = deserialize_word 8;
  results = λ a memory. ok [];
}

-- xrGetSpaceUserIdFB
unfoldable pub xr_get_space_user_id_fb : Call (Word 8 × Pointer (Word 8)) (Pointer (Word 8))
xr_get_space_user_id_fb = record {
  function_id = 242003;
  request = λ a. let (user, user_id) = a in scalar user ⊕ pointer (word 8) user_id 1;
  reply = λ a. let (user, user_id) = a in pointer_in_place (word 8) user_id;
}

unfoldable pub handle_xr_get_space_user_id_fb :
    Handler (Word 8 × Pointer (Word 8)) (Pointer (Word 8))
handle_xr_get_space_user_id_fb = record {
  key = 242003;
  params = (do user ← deserialize_word 8; user_id ← new_pointer (word 8); pure (user, user_id));
  results = λ a memory. pointer (word 8) memory 1;
}
