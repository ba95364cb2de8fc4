-- ===== src/Rpc/Varjo.antt =====
-- Extensions of VARJO: the functions of src/client/rpc.cpp and their handlers of
-- src/server/function_dispatch.cpp.
use xrtransport.Common.{[]}
use xrtransport.Serialization.Stream.{ok, pure, ◌>>=◌}
use xrtransport.Serialization.Word.{Word, deserialize_word}
use xrtransport.Serialization.Wire.{◌⊕◌, scalar}
use xrtransport.Rpc.Call.{Call, Handler}

-- xrSetEnvironmentDepthEstimationVARJO
unfoldable pub xr_set_environment_depth_estimation_varjo : Call (Word 8 × Word 4) Unit
xr_set_environment_depth_estimation_varjo = record {
  function_id = 124001;
  request = λ a. let (session, enabled) = a in scalar session ⊕ scalar enabled;
  reply = λ a. pure tt;
}

unfoldable pub handle_xr_set_environment_depth_estimation_varjo : Handler (Word 8 × Word 4) Unit
handle_xr_set_environment_depth_estimation_varjo = record {
  key = 124001;
  params = (do session ← deserialize_word 8; enabled ← deserialize_word 4; pure (session, enabled));
  results = λ a memory. ok [];
}

-- xrSetMarkerTrackingPredictionVARJO
unfoldable pub xr_set_marker_tracking_prediction_varjo : Call (Word 8 × Word 8 × Word 4) Unit
xr_set_marker_tracking_prediction_varjo = record {
  function_id = 125003;
  request = λ a.
      let (session, marker_id, enable) = a in scalar session ⊕ scalar marker_id ⊕ scalar enable;
  reply = λ a. pure tt;
}

unfoldable pub handle_xr_set_marker_tracking_prediction_varjo :
    Handler (Word 8 × Word 8 × Word 4) Unit
handle_xr_set_marker_tracking_prediction_varjo = record {
  key = 125003;
  params = (do
    session ← deserialize_word 8
    marker_id ← deserialize_word 8
    enable ← deserialize_word 4
    pure (session, marker_id, enable));
  results = λ a memory. ok [];
}

-- xrSetMarkerTrackingTimeoutVARJO
unfoldable pub xr_set_marker_tracking_timeout_varjo : Call (Word 8 × Word 8 × Word 8) Unit
xr_set_marker_tracking_timeout_varjo = record {
  function_id = 125004;
  request = λ a.
      let (session, marker_id, timeout) = a in scalar session ⊕ scalar marker_id ⊕ scalar timeout;
  reply = λ a. pure tt;
}

unfoldable pub handle_xr_set_marker_tracking_timeout_varjo : Handler (Word 8 × Word 8 × Word 8) Unit
handle_xr_set_marker_tracking_timeout_varjo = record {
  key = 125004;
  params = (do
    session ← deserialize_word 8
    marker_id ← deserialize_word 8
    timeout ← deserialize_word 8
    pure (session, marker_id, timeout));
  results = λ a memory. ok [];
}

-- xrSetMarkerTrackingVARJO
unfoldable pub xr_set_marker_tracking_varjo : Call (Word 8 × Word 4) Unit
xr_set_marker_tracking_varjo = record {
  function_id = 125005;
  request = λ a. let (session, enabled) = a in scalar session ⊕ scalar enabled;
  reply = λ a. pure tt;
}

unfoldable pub handle_xr_set_marker_tracking_varjo : Handler (Word 8 × Word 4) Unit
handle_xr_set_marker_tracking_varjo = record {
  key = 125005;
  params = (do session ← deserialize_word 8; enabled ← deserialize_word 4; pure (session, enabled));
  results = λ a memory. ok [];
}

-- xrSetViewOffsetVARJO
unfoldable pub xr_set_view_offset_varjo : Call (Word 8 × Word 4) Unit
xr_set_view_offset_varjo = record {
  function_id = 126001;
  request = λ a. let (session, offset) = a in scalar session ⊕ scalar offset;
  reply = λ a. pure tt;
}

unfoldable pub handle_xr_set_view_offset_varjo : Handler (Word 8 × Word 4) Unit
handle_xr_set_view_offset_varjo = record {
  key = 126001;
  params = (do session ← deserialize_word 8; offset ← deserialize_word 4; pure (session, offset));
  results = λ a memory. ok [];
}
