-- ===== src/Rpc/Agree/FbPassthrough.antt =====
-- Passthrough of FB: each function of the client fits its handler on the server.
use xrtransport.Common.{arith}
use xrtransport.Rpc.Shapes.{AgreesPlainly, scalar_call}
use xrtransport.Rpc.FbPassthrough.{
  xr_destroy_foveation_profile_fb, handle_xr_destroy_foveation_profile_fb,
  xr_destroy_passthrough_fb, handle_xr_destroy_passthrough_fb, xr_destroy_passthrough_layer_fb,
  handle_xr_destroy_passthrough_layer_fb, xr_passthrough_layer_pause_fb,
  handle_xr_passthrough_layer_pause_fb, xr_passthrough_layer_resume_fb,
  handle_xr_passthrough_layer_resume_fb, xr_passthrough_pause_fb, handle_xr_passthrough_pause_fb,
  xr_passthrough_start_fb, handle_xr_passthrough_start_fb,
}

pub xr_destroy_foveation_profile_fb-Agrees :
    AgreesPlainly xr_destroy_foveation_profile_fb handle_xr_destroy_foveation_profile_fb
unfolding xr_destroy_foveation_profile_fb handle_xr_destroy_foveation_profile_fb
xr_destroy_foveation_profile_fb-Agrees = scalar_call 115002 (omega arith)

pub xr_destroy_passthrough_fb-Agrees :
    AgreesPlainly xr_destroy_passthrough_fb handle_xr_destroy_passthrough_fb
unfolding xr_destroy_passthrough_fb handle_xr_destroy_passthrough_fb
xr_destroy_passthrough_fb-Agrees = scalar_call 119005 (omega arith)

pub xr_destroy_passthrough_layer_fb-Agrees :
    AgreesPlainly xr_destroy_passthrough_layer_fb handle_xr_destroy_passthrough_layer_fb
unfolding xr_destroy_passthrough_layer_fb handle_xr_destroy_passthrough_layer_fb
xr_destroy_passthrough_layer_fb-Agrees = scalar_call 119006 (omega arith)

pub xr_passthrough_layer_pause_fb-Agrees :
    AgreesPlainly xr_passthrough_layer_pause_fb handle_xr_passthrough_layer_pause_fb
unfolding xr_passthrough_layer_pause_fb handle_xr_passthrough_layer_pause_fb
xr_passthrough_layer_pause_fb-Agrees = scalar_call 119008 (omega arith)

pub xr_passthrough_layer_resume_fb-Agrees :
    AgreesPlainly xr_passthrough_layer_resume_fb handle_xr_passthrough_layer_resume_fb
unfolding xr_passthrough_layer_resume_fb handle_xr_passthrough_layer_resume_fb
xr_passthrough_layer_resume_fb-Agrees = scalar_call 119009 (omega arith)

pub xr_passthrough_pause_fb-Agrees :
    AgreesPlainly xr_passthrough_pause_fb handle_xr_passthrough_pause_fb
unfolding xr_passthrough_pause_fb handle_xr_passthrough_pause_fb
xr_passthrough_pause_fb-Agrees = scalar_call 119011 (omega arith)

pub xr_passthrough_start_fb-Agrees :
    AgreesPlainly xr_passthrough_start_fb handle_xr_passthrough_start_fb
unfolding xr_passthrough_start_fb handle_xr_passthrough_start_fb
xr_passthrough_start_fb-Agrees = scalar_call 119012 (omega arith)
