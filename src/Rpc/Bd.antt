-- ===== src/Rpc/Bd.antt =====
-- Extensions of BD: the functions of src/client/rpc.cpp and their handlers of
-- src/server/function_dispatch.cpp.
use xrtransport.Common.{[]}
use xrtransport.Serialization.Stream.{ok, pure, ◌>>=◌}
use xrtransport.Serialization.Pointer.{Pointer}
use xrtransport.Serialization.Word.{Word, deserialize_word}
use xrtransport.Serialization.Wire.{◌⊕◌, scalar, word, pointer, new_pointer, pointer_in_place}
use xrtransport.Rpc.Call.{Call, Handler}

-- xrDestroyBodyTrackerBD
unfoldable pub xr_destroy_body_tracker_bd : Call (Word 8) Unit
xr_destroy_body_tracker_bd = record {
  function_id = 386002;
  request = λ a. scalar a;
  reply = λ a. pure tt;
}

unfoldable pub handle_xr_destroy_body_tracker_bd : Handler (Word 8) Unit
handle_xr_destroy_body_tracker_bd = record {
  key = 386002;
  params = deserialize_word 8;
  results = λ a memory. ok [];
}

-- xrDestroyAnchorBD
unfoldable pub xr_destroy_anchor_bd : Call (Word 8) Unit
xr_destroy_anchor_bd = record {
  function_id = 390004;
  request = λ a. scalar a;
  reply = λ a. pure tt;
}

unfoldable pub handle_xr_destroy_anchor_bd : Handler (Word 8) Unit
handle_xr_destroy_anchor_bd = record {
  key = 390004;
  params = deserialize_word 8;
  results = λ a memory. ok [];
}

-- xrDestroySenseDataProviderBD
unfoldable pub xr_destroy_sense_data_provider_bd : Call (Word 8) Unit
xr_destroy_sense_data_provider_bd = record {
  function_id = 390005;
  request = λ a. scalar a;
  reply = λ a. pure tt;
}

unfoldable pub handle_xr_destroy_sense_data_provider_bd : Handler (Word 8) Unit
handle_xr_destroy_sense_data_provider_bd = record {
  key = 390005;
  params = deserialize_word 8;
  results = λ a memory. ok [];
}

-- xrDestroySenseDataSnapshotBD
unfoldable pub xr_destroy_sense_data_snapshot_bd : Call (Word 8) Unit
xr_destroy_sense_data_snapshot_bd = record {
  function_id = 390006;
  request = λ a. scalar a;
  reply = λ a. pure tt;
}

unfoldable pub handle_xr_destroy_sense_data_snapshot_bd : Handler (Word 8) Unit
handle_xr_destroy_sense_data_snapshot_bd = record {
  key = 390006;
  params = deserialize_word 8;
  results = λ a memory. ok [];
}

-- xrGetSenseDataProviderStateBD
unfoldable pub xr_get_sense_data_provider_state_bd :
    Call (Word 8 × Pointer (Word 4)) (Pointer (Word 4))
xr_get_sense_data_provider_state_bd = record {
  function_id = 390010;
  request = λ a. let (provider, state) = a in scalar provider ⊕ pointer (word 4) state 1;
  reply = λ a. let (provider, state) = a in pointer_in_place (word 4) state;
}

unfoldable pub handle_xr_get_sense_data_provider_state_bd :
    Handler (Word 8 × Pointer (Word 4)) (Pointer (Word 4))
handle_xr_get_sense_data_provider_state_bd = record {
  key = 390010;
  params = (do provider ← deserialize_word 8; state ← new_pointer (word 4); pure (provider, state));
  results = λ a memory. pointer (word 4) memory 1;
}

-- xrStopSenseDataProviderBD
unfoldable pub xr_stop_sense_data_provider_bd : Call (Word 8) Unit
xr_stop_sense_data_provider_bd = record {
  function_id = 390017;
  request = λ a. scalar a;
  reply = λ a. pure tt;
}

unfoldable pub handle_xr_stop_sense_data_provider_bd : Handler (Word 8) Unit
handle_xr_stop_sense_data_provider_bd = record {
  key = 390017;
  params = deserialize_word 8;
  results = λ a memory. ok [];
}
