-- ===== src/Rpc/Agree/Msft.antt =====
-- Extensions of MSFT: each function of the client fits its handler on the server.
use xrtransport.Common.{arith}
use xrtransport.Serialization.Pointers.{received, placed}
use xrtransport.Serialization.Wire.{WordsReady}
use xrtransport.Rpc.Transparent.{Agrees}
use xrtransport.Rpc.Shapes.{AgreesPlainly, scalar_call, value_call}
use xrtransport.Rpc.Msft.{
  xr_destroy_scene_msft, handle_xr_destroy_scene_msft, xr_destroy_scene_observer_msft,
  handle_xr_destroy_scene_observer_msft, xr_get_scene_compute_state_msft,
  handle_xr_get_scene_compute_state_msft, xr_destroy_spatial_anchor_msft,
  handle_xr_destroy_spatial_anchor_msft, xr_clear_spatial_anchor_store_msft,
  handle_xr_clear_spatial_anchor_store_msft, xr_destroy_spatial_anchor_store_connection_msft,
  handle_xr_destroy_spatial_anchor_store_connection_msft,
  xr_destroy_spatial_graph_node_binding_msft, handle_xr_destroy_spatial_graph_node_binding_msft,
}

pub xr_destroy_scene_msft-Agrees : AgreesPlainly xr_destroy_scene_msft handle_xr_destroy_scene_msft
unfolding xr_destroy_scene_msft handle_xr_destroy_scene_msft
xr_destroy_scene_msft-Agrees = scalar_call 98004 (omega arith)

pub xr_destroy_scene_observer_msft-Agrees :
    AgreesPlainly xr_destroy_scene_observer_msft handle_xr_destroy_scene_observer_msft
unfolding xr_destroy_scene_observer_msft handle_xr_destroy_scene_observer_msft
xr_destroy_scene_observer_msft-Agrees = scalar_call 98005 (omega arith)

pub xr_get_scene_compute_state_msft-Agrees :
    Agrees xr_get_scene_compute_state_msft handle_xr_get_scene_compute_state_msft
      (λ a. Unit)
      (λ a o. WordsReady a.1 o 1)
      (λ a. (a.0, received a.1 1))
      (λ a o. placed a.1 o 1)
unfolding xr_get_scene_compute_state_msft handle_xr_get_scene_compute_state_msft
xr_get_scene_compute_state_msft-Agrees = value_call 98008 (omega arith)

pub xr_destroy_spatial_anchor_msft-Agrees :
    AgreesPlainly xr_destroy_spatial_anchor_msft handle_xr_destroy_spatial_anchor_msft
unfolding xr_destroy_spatial_anchor_msft handle_xr_destroy_spatial_anchor_msft
xr_destroy_spatial_anchor_msft-Agrees = scalar_call 40003 (omega arith)

pub xr_clear_spatial_anchor_store_msft-Agrees :
    AgreesPlainly xr_clear_spatial_anchor_store_msft handle_xr_clear_spatial_anchor_store_msft
unfolding xr_clear_spatial_anchor_store_msft handle_xr_clear_spatial_anchor_store_msft
xr_clear_spatial_anchor_store_msft-Agrees = scalar_call 143001 (omega arith)

pub xr_destroy_spatial_anchor_store_connection_msft-Agrees :
    AgreesPlainly xr_destroy_spatial_anchor_store_connection_msft
      handle_xr_destroy_spatial_anchor_store_connection_msft
unfolding xr_destroy_spatial_anchor_store_connection_msft
    handle_xr_destroy_spatial_anchor_store_connection_msft
xr_destroy_spatial_anchor_store_connection_msft-Agrees = scalar_call 143004 (omega arith)

pub xr_destroy_spatial_graph_node_binding_msft-Agrees :
    AgreesPlainly xr_destroy_spatial_graph_node_binding_msft
      handle_xr_destroy_spatial_graph_node_binding_msft
unfolding xr_destroy_spatial_graph_node_binding_msft
    handle_xr_destroy_spatial_graph_node_binding_msft
xr_destroy_spatial_graph_node_binding_msft-Agrees = scalar_call 50002 (omega arith)
