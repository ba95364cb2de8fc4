-- ===== src/Rpc/Agree/FbTrackers.antt =====
-- Trackers and displays of FB: each function of the client fits its handler on the server.
use xrtransport.Common.{arith}
use xrtransport.Serialization.Pointers.{received, placed}
use xrtransport.Serialization.Wire.{WordsReady}
use xrtransport.Rpc.Transparent.{Agrees}
use xrtransport.Rpc.Shapes.{AgreesPlainly, scalar_call, two_scalars_call, value_call}
use xrtransport.Rpc.FbTrackers.{
  xr_destroy_body_tracker_fb, handle_xr_destroy_body_tracker_fb, xr_set_color_space_fb,
  handle_xr_set_color_space_fb, xr_request_display_refresh_rate_fb,
  handle_xr_request_display_refresh_rate_fb, xr_destroy_eye_tracker_fb,
  handle_xr_destroy_eye_tracker_fb, xr_destroy_face_tracker_fb, handle_xr_destroy_face_tracker_fb,
  xr_destroy_face_tracker2_fb, handle_xr_destroy_face_tracker2_fb, xr_destroy_space_user_fb,
  handle_xr_destroy_space_user_fb, xr_get_space_user_id_fb, handle_xr_get_space_user_id_fb,
}

pub xr_destroy_body_tracker_fb-Agrees :
    AgreesPlainly xr_destroy_body_tracker_fb handle_xr_destroy_body_tracker_fb
unfolding xr_destroy_body_tracker_fb handle_xr_destroy_body_tracker_fb
xr_destroy_body_tracker_fb-Agrees = scalar_call 77002 (omega arith)

pub xr_set_color_space_fb-Agrees : AgreesPlainly xr_set_color_space_fb handle_xr_set_color_space_fb
unfolding xr_set_color_space_fb handle_xr_set_color_space_fb
xr_set_color_space_fb-Agrees = two_scalars_call 109002 (omega arith)

pub xr_request_display_refresh_rate_fb-Agrees :
    AgreesPlainly xr_request_display_refresh_rate_fb handle_xr_request_display_refresh_rate_fb
unfolding xr_request_display_refresh_rate_fb handle_xr_request_display_refresh_rate_fb
xr_request_display_refresh_rate_fb-Agrees = two_scalars_call 102003 (omega arith)

pub xr_destroy_eye_tracker_fb-Agrees :
    AgreesPlainly xr_destroy_eye_tracker_fb handle_xr_destroy_eye_tracker_fb
unfolding xr_destroy_eye_tracker_fb handle_xr_destroy_eye_tracker_fb
xr_destroy_eye_tracker_fb-Agrees = scalar_call 203002 (omega arith)

pub xr_destroy_face_tracker_fb-Agrees :
    AgreesPlainly xr_destroy_face_tracker_fb handle_xr_destroy_face_tracker_fb
unfolding xr_destroy_face_tracker_fb handle_xr_destroy_face_tracker_fb
xr_destroy_face_tracker_fb-Agrees = scalar_call 202002 (omega arith)

pub xr_destroy_face_tracker2_fb-Agrees :
    AgreesPlainly xr_destroy_face_tracker2_fb handle_xr_destroy_face_tracker2_fb
unfolding xr_destroy_face_tracker2_fb handle_xr_destroy_face_tracker2_fb
xr_destroy_face_tracker2_fb-Agrees = scalar_call 288002 (omega arith)

pub xr_destroy_space_user_fb-Agrees :
    AgreesPlainly xr_destroy_space_user_fb handle_xr_destroy_space_user_fb
unfolding xr_destroy_space_user_fb handle_xr_destroy_space_user_fb
xr_destroy_space_user_fb-Agrees = scalar_call 242002 (omega arith)

pub xr_get_space_user_id_fb-Agrees :
    Agrees xr_get_space_user_id_fb handle_xr_get_space_user_id_fb
      (λ a. Unit)
      (λ a o. WordsReady a.1 o 1)
      (λ a. (a.0, received a.1 1))
      (λ a o. placed a.1 o 1)
unfolding xr_get_space_user_id_fb handle_xr_get_space_user_id_fb
xr_get_space_user_id_fb-Agrees = value_call 242003 (omega arith)
