-- ===== src/Rpc/Agree/HtcMl.antt =====
-- Extensions of HTC and ML: each function of the client fits its handler on the server.
use xrtransport.Common.{arith}
use xrtransport.Rpc.Shapes.{AgreesPlainly, scalar_call}
use xrtransport.Rpc.HtcMl.{
  xr_destroy_body_tracker_htc, handle_xr_destroy_body_tracker_htc, xr_destroy_facial_tracker_htc,
  handle_xr_destroy_facial_tracker_htc, xr_destroy_passthrough_htc,
  handle_xr_destroy_passthrough_htc, xr_destroy_facial_expression_client_ml,
  handle_xr_destroy_facial_expression_client_ml, xr_destroy_exported_localization_map_ml,
  handle_xr_destroy_exported_localization_map_ml, xr_destroy_marker_detector_ml,
  handle_xr_destroy_marker_detector_ml, xr_destroy_spatial_anchors_storage_ml,
  handle_xr_destroy_spatial_anchors_storage_ml, xr_destroy_world_mesh_detector_ml,
  handle_xr_destroy_world_mesh_detector_ml,
}

pub xr_destroy_body_tracker_htc-Agrees :
    AgreesPlainly xr_destroy_body_tracker_htc handle_xr_destroy_body_tracker_htc
unfolding xr_destroy_body_tracker_htc handle_xr_destroy_body_tracker_htc
xr_destroy_body_tracker_htc-Agrees = scalar_call 321002 (omega arith)

pub xr_destroy_facial_tracker_htc-Agrees :
    AgreesPlainly xr_destroy_facial_tracker_htc handle_xr_destroy_facial_tracker_htc
unfolding xr_destroy_facial_tracker_htc handle_xr_destroy_facial_tracker_htc
xr_destroy_facial_tracker_htc-Agrees = scalar_call 105002 (omega arith)

pub xr_destroy_passthrough_htc-Agrees :
    AgreesPlainly xr_destroy_passthrough_htc handle_xr_destroy_passthrough_htc
unfolding xr_destroy_passthrough_htc handle_xr_destroy_passthrough_htc
xr_destroy_passthrough_htc-Agrees = scalar_call 318002 (omega arith)

pub xr_destroy_facial_expression_client_ml-Agrees :
    AgreesPlainly xr_destroy_facial_expression_client_ml
      handle_xr_destroy_facial_expression_client_ml
unfolding xr_destroy_facial_expression_client_ml handle_xr_destroy_facial_expression_client_ml
xr_destroy_facial_expression_client_ml-Agrees = scalar_call 483002 (omega arith)

pub xr_destroy_exported_localization_map_ml-Agrees :
    AgreesPlainly xr_destroy_exported_localization_map_ml
      handle_xr_destroy_exported_localization_map_ml
unfolding xr_destroy_exported_localization_map_ml handle_xr_destroy_exported_localization_map_ml
xr_destroy_exported_localization_map_ml-Agrees = scalar_call 140002 (omega arith)

pub xr_destroy_marker_detector_ml-Agrees :
    AgreesPlainly xr_destroy_marker_detector_ml handle_xr_destroy_marker_detector_ml
unfolding xr_destroy_marker_detector_ml handle_xr_destroy_marker_detector_ml
xr_destroy_marker_detector_ml-Agrees = scalar_call 139003 (omega arith)

pub xr_destroy_spatial_anchors_storage_ml-Agrees :
    AgreesPlainly xr_destroy_spatial_anchors_storage_ml handle_xr_destroy_spatial_anchors_storage_ml
unfolding xr_destroy_spatial_anchors_storage_ml handle_xr_destroy_spatial_anchors_storage_ml
xr_destroy_spatial_anchors_storage_ml-Agrees = scalar_call 142004 (omega arith)

pub xr_destroy_world_mesh_detector_ml-Agrees :
    AgreesPlainly xr_destroy_world_mesh_detector_ml handle_xr_destroy_world_mesh_detector_ml
unfolding xr_destroy_world_mesh_detector_ml handle_xr_destroy_world_mesh_detector_ml
xr_destroy_world_mesh_detector_ml-Agrees = scalar_call 475003 (omega arith)
