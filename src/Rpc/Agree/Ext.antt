-- ===== src/Rpc/Agree/Ext.antt =====
-- Extensions of several vendors: each function of the client fits its handler on the server.
use xrtransport.Common.{arith}
use xrtransport.Serialization.Pointers.{received, placed}
use xrtransport.Serialization.Wire.{WordsReady}
use xrtransport.Rpc.Transparent.{Agrees}
use xrtransport.Rpc.Shapes.{AgreesPlainly, scalar_call, three_scalars_call, value_call}
use xrtransport.Rpc.Ext.{
  xr_destroy_debug_utils_messenger_ext, handle_xr_destroy_debug_utils_messenger_ext,
  xr_session_end_debug_utils_label_region_ext, handle_xr_session_end_debug_utils_label_region_ext,
  xr_destroy_hand_tracker_ext, handle_xr_destroy_hand_tracker_ext,
  xr_perf_settings_set_performance_level_ext, handle_xr_perf_settings_set_performance_level_ext,
  xr_destroy_plane_detector_ext, handle_xr_destroy_plane_detector_ext,
  xr_get_plane_detection_state_ext, handle_xr_get_plane_detection_state_ext,
  xr_set_android_application_thread_khr, handle_xr_set_android_application_thread_khr,
}

pub xr_destroy_debug_utils_messenger_ext-Agrees :
    AgreesPlainly xr_destroy_debug_utils_messenger_ext handle_xr_destroy_debug_utils_messenger_ext
unfolding xr_destroy_debug_utils_messenger_ext handle_xr_destroy_debug_utils_messenger_ext
xr_destroy_debug_utils_messenger_ext-Agrees = scalar_call 20002 (omega arith)

pub xr_session_end_debug_utils_label_region_ext-Agrees :
    AgreesPlainly xr_session_end_debug_utils_label_region_ext
      handle_xr_session_end_debug_utils_label_region_ext
unfolding xr_session_end_debug_utils_label_region_ext
    handle_xr_session_end_debug_utils_label_region_ext
xr_session_end_debug_utils_label_region_ext-Agrees = scalar_call 20004 (omega arith)

pub xr_destroy_hand_tracker_ext-Agrees :
    AgreesPlainly xr_destroy_hand_tracker_ext handle_xr_destroy_hand_tracker_ext
unfolding xr_destroy_hand_tracker_ext handle_xr_destroy_hand_tracker_ext
xr_destroy_hand_tracker_ext-Agrees = scalar_call 52002 (omega arith)

pub xr_perf_settings_set_performance_level_ext-Agrees :
    AgreesPlainly xr_perf_settings_set_performance_level_ext
      handle_xr_perf_settings_set_performance_level_ext
unfolding xr_perf_settings_set_performance_level_ext
    handle_xr_perf_settings_set_performance_level_ext
xr_perf_settings_set_performance_level_ext-Agrees = three_scalars_call 16001 (omega arith)

pub xr_destroy_plane_detector_ext-Agrees :
    AgreesPlainly xr_destroy_plane_detector_ext handle_xr_destroy_plane_detector_ext
unfolding xr_destroy_plane_detector_ext handle_xr_destroy_plane_detector_ext
xr_destroy_plane_detector_ext-Agrees = scalar_call 430003 (omega arith)

pub xr_get_plane_detection_state_ext-Agrees :
    Agrees xr_get_plane_detection_state_ext handle_xr_get_plane_detection_state_ext
      (λ a. Unit)
      (λ a o. WordsReady a.1 o 1)
      (λ a. (a.0, received a.1 1))
      (λ a o. placed a.1 o 1)
unfolding xr_get_plane_detection_state_ext handle_xr_get_plane_detection_state_ext
xr_get_plane_detection_state_ext-Agrees = value_call 430004 (omega arith)

pub xr_set_android_application_thread_khr-Agrees :
    AgreesPlainly xr_set_android_application_thread_khr handle_xr_set_android_application_thread_khr
unfolding xr_set_android_application_thread_khr handle_xr_set_android_application_thread_khr
xr_set_android_application_thread_khr-Agrees = three_scalars_call 4001 (omega arith)
