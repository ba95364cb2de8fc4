-- ===== src/Rpc/Ext.antt =====
-- Extensions of several vendors: the functions of src/client/rpc.cpp and their handlers of
-- src/server/function_dispatch.cpp.
use xrtransport.Common.{[]}
use xrtransport.Serialization.Stream.{ok, pure, ◌>>=◌}
use xrtransport.Serialization.Pointer.{Pointer}
use xrtransport.Serialization.Word.{Word, deserialize_word}
use xrtransport.Serialization.Wire.{◌⊕◌, scalar, word, pointer, new_pointer, pointer_in_place}
use xrtransport.Rpc.Call.{Call, Handler}

-- xrDestroyDebugUtilsMessengerEXT
unfoldable pub xr_destroy_debug_utils_messenger_ext : Call (Word 8) Unit
xr_destroy_debug_utils_messenger_ext = record {
  function_id = 20002;
  request = λ a. scalar a;
  reply = λ a. pure tt;
}

unfoldable pub handle_xr_destroy_debug_utils_messenger_ext : Handler (Word 8) Unit
handle_xr_destroy_debug_utils_messenger_ext = record {
  key = 20002;
  params = deserialize_word 8;
  results = λ a memory. ok [];
}

-- xrSessionEndDebugUtilsLabelRegionEXT
unfoldable pub xr_session_end_debug_utils_label_region_ext : Call (Word 8) Unit
xr_session_end_debug_utils_label_region_ext = record {
  function_id = 20004;
  request = λ a. scalar a;
  reply = λ a. pure tt;
}

unfoldable pub handle_xr_session_end_debug_utils_label_region_ext : Handler (Word 8) Unit
handle_xr_session_end_debug_utils_label_region_ext = record {
  key = 20004;
  params = deserialize_word 8;
  results = λ a memory. ok [];
}

-- xrDestroyHandTrackerEXT
unfoldable pub xr_destroy_hand_tracker_ext : Call (Word 8) Unit
xr_destroy_hand_tracker_ext = record {
  function_id = 52002;
  request = λ a. scalar a;
  reply = λ a. pure tt;
}

unfoldable pub handle_xr_destroy_hand_tracker_ext : Handler (Word 8) Unit
handle_xr_destroy_hand_tracker_ext = record {
  key = 52002;
  params = deserialize_word 8;
  results = λ a memory. ok [];
}

-- xrPerfSettingsSetPerformanceLevelEXT
unfoldable pub xr_perf_settings_set_performance_level_ext : Call (Word 8 × Word 4 × Word 4) Unit
xr_perf_settings_set_performance_level_ext = record {
  function_id = 16001;
  request = λ a. let (session, domain, level) = a in scalar session ⊕ scalar domain ⊕ scalar level;
  reply = λ a. pure tt;
}

unfoldable pub handle_xr_perf_settings_set_performance_level_ext :
    Handler (Word 8 × Word 4 × Word 4) Unit
handle_xr_perf_settings_set_performance_level_ext = record {
  key = 16001;
  params = (do
    session ← deserialize_word 8
    domain ← deserialize_word 4
    level ← deserialize_word 4
    pure (session, domain, level));
  results = λ a memory. ok [];
}

-- xrDestroyPlaneDetectorEXT
unfoldable pub xr_destroy_plane_detector_ext : Call (Word 8) Unit
xr_destroy_plane_detector_ext = record {
  function_id = 430003;
  request = λ a. scalar a;
  reply = λ a. pure tt;
}

unfoldable pub handle_xr_destroy_plane_detector_ext : Handler (Word 8) Unit
handle_xr_destroy_plane_detector_ext = record {
  key = 430003;
  params = deserialize_word 8;
  results = λ a memory. ok [];
}

-- xrGetPlaneDetectionStateEXT
unfoldable pub xr_get_plane_detection_state_ext :
    Call (Word 8 × Pointer (Word 4)) (Pointer (Word 4))
xr_get_plane_detection_state_ext = record {
  function_id = 430004;
  request =
      λ a. let (plane_detector, state) = a in scalar plane_detector ⊕ pointer (word 4) state 1;
  reply = λ a. let (plane_detector, state) = a in pointer_in_place (word 4) state;
}

unfoldable pub handle_xr_get_plane_detection_state_ext :
    Handler (Word 8 × Pointer (Word 4)) (Pointer (Word 4))
handle_xr_get_plane_detection_state_ext = record {
  key = 430004;
  params = (do
    plane_detector ← deserialize_word 8
    state ← new_pointer (word 4)
    pure (plane_detector, state));
  results = λ a memory. pointer (word 4) memory 1;
}

-- xrSetAndroidApplicationThreadKHR
unfoldable pub xr_set_android_application_thread_khr : Call (Word 8 × Word 4 × Word 4) Unit
xr_set_android_application_thread_khr = record {
  function_id = 4001;
  request = λ a.
      let (session, thread_type, thread_id) = a in
      scalar session ⊕ scalar thread_type ⊕ scalar thread_id;
  reply = λ a. pure tt;
}

unfoldable pub handle_xr_set_android_application_thread_khr :
    Handler (Word 8 × Word 4 × Word 4) Unit
handle_xr_set_android_application_thread_khr = record {
  key = 4001;
  params = (do
    session ← deserialize_word 8
    thread_type ← deserialize_word 4
    thread_id ← deserialize_word 4
    pure (session, thread_type, thread_id));
  results = λ a memory. ok [];
}
