-- ===== src/Rpc/HtcMl.antt =====
-- Extensions of HTC and ML: the functions of src/client/rpc.cpp and their handlers of
-- src/server/function_dispatch.cpp.
use xrtransport.Common.{[]}
use xrtransport.Serialization.Stream.{ok, pure}
use xrtransport.Serialization.Word.{Word, deserialize_word}
use xrtransport.Serialization.Wire.{scalar}
use xrtransport.Rpc.Call.{Call, Handler}

-- xrDestroyBodyTrackerHTC
unfoldable pub xr_destroy_body_tracker_htc : Call (Word 8) Unit
xr_destroy_body_tracker_htc = record {
  function_id = 321002;
  request = λ a. scalar a;
  reply = λ a. pure tt;
}

unfoldable pub handle_xr_destroy_body_tracker_htc : Handler (Word 8) Unit
handle_xr_destroy_body_tracker_htc = record {
  key = 321002;
  params = deserialize_word 8;
  results = λ a memory. ok [];
}

-- xrDestroyFacialTrackerHTC
unfoldable pub xr_destroy_facial_tracker_htc : Call (Word 8) Unit
xr_destroy_facial_tracker_htc = record {
  function_id = 105002;
  request = λ a. scalar a;
  reply = λ a. pure tt;
}

unfoldable pub handle_xr_destroy_facial_tracker_htc : Handler (Word 8) Unit
handle_xr_destroy_facial_tracker_htc = record {
  key = 105002;
  params = deserialize_word 8;
  results = λ a memory. ok [];
}

-- xrDestroyPassthroughHTC
unfoldable pub xr_destroy_passthrough_htc : Call (Word 8) Unit
xr_destroy_passthrough_htc = record {
  function_id = 318002;
  request = λ a. scalar a;
  reply = λ a. pure tt;
}

unfoldable pub handle_xr_destroy_passthrough_htc : Handler (Word 8) Unit
handle_xr_destroy_passthrough_htc = record {
  key = 318002;
  params = deserialize_word 8;
  results = λ a memory. ok [];
}

-- xrDestroyFacialExpressionClientML
unfoldable pub xr_destroy_facial_expression_client_ml : Call (Word 8) Unit
xr_destroy_facial_expression_client_ml = record {
  function_id = 483002;
  request = λ a. scalar a;
  reply = λ a. pure tt;
}

unfoldable pub handle_xr_destroy_facial_expression_client_ml : Handler (Word 8) Unit
handle_xr_destroy_facial_expression_client_ml = record {
  key = 483002;
  params = deserialize_word 8;
  results = λ a memory. ok [];
}

-- xrDestroyExportedLocalizationMapML
unfoldable pub xr_destroy_exported_localization_map_ml : Call (Word 8) Unit
xr_destroy_exported_localization_map_ml = record {
  function_id = 140002;
  request = λ a. scalar a;
  reply = λ a. pure tt;
}

unfoldable pub handle_xr_destroy_exported_localization_map_ml : Handler (Word 8) Unit
handle_xr_destroy_exported_localization_map_ml = record {
  key = 140002;
  params = deserialize_word 8;
  results = λ a memory. ok [];
}

-- xrDestroyMarkerDetectorML
unfoldable pub xr_destroy_marker_detector_ml : Call (Word 8) Unit
xr_destroy_marker_detector_ml = record {
  function_id = 139003;
  request = λ a. scalar a;
  reply = λ a. pure tt;
}

unfoldable pub handle_xr_destroy_marker_detector_ml : Handler (Word 8) Unit
handle_xr_destroy_marker_detector_ml = record {
  key = 139003;
  params = deserialize_word 8;
  results = λ a memory. ok [];
}

-- xrDestroySpatialAnchorsStorageML
unfoldable pub xr_destroy_spatial_anchors_storage_ml : Call (Word 8) Unit
xr_destroy_spatial_anchors_storage_ml = record {
  function_id = 142004;
  request = λ a. scalar a;
  reply = λ a. pure tt;
}

unfoldable pub handle_xr_destroy_spatial_anchors_storage_ml : Handler (Word 8) Unit
handle_xr_destroy_spatial_anchors_storage_ml = record {
  key = 142004;
  params = deserialize_word 8;
  results = λ a memory. ok [];
}

-- xrDestroyWorldMeshDetectorML
unfoldable pub xr_destroy_world_mesh_detector_ml : Call (Word 8) Unit
xr_destroy_world_mesh_detector_ml = record {
  function_id = 475003;
  request = λ a. scalar a;
  reply = λ a. pure tt;
}

unfoldable pub handle_xr_destroy_world_mesh_detector_ml : Handler (Word 8) Unit
handle_xr_destroy_world_mesh_detector_ml = record {
  key = 475003;
  params = deserialize_word 8;
  results = λ a memory. ok [];
}
