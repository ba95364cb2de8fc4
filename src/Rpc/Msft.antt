-- ===== src/Rpc/Msft.antt =====
-- Extensions of MSFT: the functions of src/client/rpc.cpp and their handlers of
-- src/server/function_dispatch.cpp.
use xrtransport.Common.{[]}
use xrtransport.Serialization.Stream.{ok, pure, ◌>>=◌}
use xrtransport.Serialization.Pointer.{Pointer}
use xrtransport.Serialization.Word.{Word, deserialize_word}
use xrtransport.Serialization.Wire.{◌⊕◌, scalar, word, pointer, new_pointer, pointer_in_place}
use xrtransport.Rpc.Call.{Call, Handler}

-- xrDestroySceneMSFT
unfoldable pub xr_destroy_scene_msft : Call (Word 8) Unit
xr_destroy_scene_msft = record {
  function_id = 98004;
  request = λ a. scalar a;
  reply = λ a. pure tt;
}

unfoldable pub handle_xr_destroy_scene_msft : Handler (Word 8) Unit
handle_xr_destroy_scene_msft = record {
  key = 98004;
  params = deserialize_word 8;
  results = λ a memory. ok [];
}

-- xrDestroySceneObserverMSFT
unfoldable pub xr_destroy_scene_observer_msft : Call (Word 8) Unit
xr_destroy_scene_observer_msft = record {
  function_id = 98005;
  request = λ a. scalar a;
  reply = λ a. pure tt;
}

unfoldable pub handle_xr_destroy_scene_observer_msft : Handler (Word 8) Unit
handle_xr_destroy_scene_observer_msft = record {
  key = 98005;
  params = deserialize_word 8;
  results = λ a memory. ok [];
}

-- xrGetSceneComputeStateMSFT
unfoldable pub xr_get_scene_compute_state_msft : Call (Word 8 × Pointer (Word 4)) (Pointer (Word 4))
xr_get_scene_compute_state_msft = record {
  function_id = 98008;
  request =
      λ a. let (scene_observer, state) = a in scalar scene_observer ⊕ pointer (word 4) state 1;
  reply = λ a. let (scene_observer, state) = a in pointer_in_place (word 4) state;
}

unfoldable pub handle_xr_get_scene_compute_state_msft :
    Handler (Word 8 × Pointer (Word 4)) (Pointer (Word 4))
handle_xr_get_scene_compute_state_msft = record {
  key = 98008;
  params = (do
    scene_observer ← deserialize_word 8
    state ← new_pointer (word 4)
    pure (scene_observer, state));
  results = λ a memory. pointer (word 4) memory 1;
}

-- xrDestroySpatialAnchorMSFT
unfoldable pub xr_destroy_spatial_anchor_msft : Call (Word 8) Unit
xr_destroy_spatial_anchor_msft = record {
  function_id = 40003;
  request = λ a. scalar a;
  reply = λ a. pure tt;
}

unfoldable pub handle_xr_destroy_spatial_anchor_msft : Handler (Word 8) Unit
handle_xr_destroy_spatial_anchor_msft = record {
  key = 40003;
  params = deserialize_word 8;
  results = λ a memory. ok [];
}

-- xrClearSpatialAnchorStoreMSFT
unfoldable pub xr_clear_spatial_anchor_store_msft : Call (Word 8) Unit
xr_clear_spatial_anchor_store_msft = record {
  function_id = 143001;
  request = λ a. scalar a;
  reply = λ a. pure tt;
}

unfoldable pub handle_xr_clear_spatial_anchor_store_msft : Handler (Word 8) Unit
handle_xr_clear_spatial_anchor_store_msft = record {
  key = 143001;
  params = deserialize_word 8;
  results = λ a memory. ok [];
}

-- xrDestroySpatialAnchorStoreConnectionMSFT
unfoldable pub xr_destroy_spatial_anchor_store_connection_msft : Call (Word 8) Unit
xr_destroy_spatial_anchor_store_connection_msft = record {
  function_id = 143004;
  request = λ a. scalar a;
  reply = λ a. pure tt;
}

unfoldable pub handle_xr_destroy_spatial_anchor_store_connection_msft : Handler (Word 8) Unit
handle_xr_destroy_spatial_anchor_store_connection_msft = record {
  key = 143004;
  params = deserialize_word 8;
  results = λ a memory. ok [];
}

-- xrDestroySpatialGraphNodeBindingMSFT
unfoldable pub xr_destroy_spatial_graph_node_binding_msft : Call (Word 8) Unit
xr_destroy_spatial_graph_node_binding_msft = record {
  function_id = 50002;
  request = λ a. scalar a;
  reply = λ a. pure tt;
}

unfoldable pub handle_xr_destroy_spatial_graph_node_binding_msft : Handler (Word 8) Unit
handle_xr_destroy_spatial_graph_node_binding_msft = record {
  key = 50002;
  params = deserialize_word 8;
  results = λ a memory. ok [];
}
