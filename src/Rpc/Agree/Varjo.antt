-- ===== src/Rpc/Agree/Varjo.antt =====
-- Extensions of VARJO: each function of the client fits its handler on the server.
use xrtransport.Common.{arith}
use xrtransport.Rpc.Shapes.{AgreesPlainly, two_scalars_call, three_scalars_call}
use xrtransport.Rpc.Varjo.{
  xr_set_environment_depth_estimation_varjo, handle_xr_set_environment_depth_estimation_varjo,
  xr_set_marker_tracking_prediction_varjo, handle_xr_set_marker_tracking_prediction_varjo,
  xr_set_marker_tracking_timeout_varjo, handle_xr_set_marker_tracking_timeout_varjo,
  xr_set_marker_tracking_varjo, handle_xr_set_marker_tracking_varjo, xr_set_view_offset_varjo,
  handle_xr_set_view_offset_varjo,
}

pub xr_set_environment_depth_estimation_varjo-Agrees :
    AgreesPlainly xr_set_environment_depth_estimation_varjo
      handle_xr_set_environment_depth_estimation_varjo
unfolding xr_set_environment_depth_estimation_varjo handle_xr_set_environment_depth_estimation_varjo
xr_set_environment_depth_estimation_varjo-Agrees = two_scalars_call 124001 (omega arith)

pub xr_set_marker_tracking_prediction_varjo-Agrees :
    AgreesPlainly xr_set_marker_tracking_prediction_varjo
      handle_xr_set_marker_tracking_prediction_varjo
unfolding xr_set_marker_tracking_prediction_varjo handle_xr_set_marker_tracking_prediction_varjo
xr_set_marker_tracking_prediction_varjo-Agrees = three_scalars_call 125003 (omega arith)

pub xr_set_marker_tracking_timeout_varjo-Agrees :
    AgreesPlainly xr_set_marker_tracking_timeout_varjo handle_xr_set_marker_tracking_timeout_varjo
unfolding xr_set_marker_tracking_timeout_varjo handle_xr_set_marker_tracking_timeout_varjo
xr_set_marker_tracking_timeout_varjo-Agrees = three_scalars_call 125004 (omega arith)

pub xr_set_marker_tracking_varjo-Agrees :
    AgreesPlainly xr_set_marker_tracking_varjo handle_xr_set_marker_tracking_varjo
unfolding xr_set_marker_tracking_varjo handle_xr_set_marker_tracking_varjo
xr_set_marker_tracking_varjo-Agrees = two_scalars_call 125005 (omega arith)

pub xr_set_view_offset_varjo-Agrees :
    AgreesPlainly xr_set_view_offset_varjo handle_xr_set_view_offset_varjo
unfolding xr_set_view_offset_varjo handle_xr_set_view_offset_varjo
xr_set_view_offset_varjo-Agrees = two_scalars_call 126001 (omega arith)
