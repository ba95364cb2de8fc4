-- ===== src/Rpc/Agree/Bd.antt =====
-- Extensions of BD: each function of the client fits its handler on the server.
use xrtransport.Common.{arith}
use xrtransport.Serialization.Pointers.{received, placed}
use xrtransport.Serialization.Wire.{WordsReady}
use xrtransport.Rpc.Transparent.{Agrees}
use xrtransport.Rpc.Shapes.{AgreesPlainly, scalar_call, value_call}
use xrtransport.Rpc.Bd.{
  xr_destroy_body_tracker_bd, handle_xr_destroy_body_tracker_bd, xr_destroy_anchor_bd,
  handle_xr_destroy_anchor_bd, xr_destroy_sense_data_provider_bd,
  handle_xr_destroy_sense_data_provider_bd, xr_destroy_sense_data_snapshot_bd,
  handle_xr_destroy_sense_data_snapshot_bd, xr_get_sense_data_provider_state_bd,
  handle_xr_get_sense_data_provider_state_bd, xr_stop_sense_data_provider_bd,
  handle_xr_stop_sense_data_provider_bd,
}

pub xr_destroy_body_tracker_bd-Agrees :
    AgreesPlainly xr_destroy_body_tracker_bd handle_xr_destroy_body_tracker_bd
unfolding xr_destroy_body_tracker_bd handle_xr_destroy_body_tracker_bd
xr_destroy_body_tracker_bd-Agrees = scalar_call 386002 (omega arith)

pub xr_destroy_anchor_bd-Agrees : AgreesPlainly xr_destroy_anchor_bd handle_xr_destroy_anchor_bd
unfolding xr_destroy_anchor_bd handle_xr_destroy_anchor_bd
xr_destroy_anchor_bd-Agrees = scalar_call 390004 (omega arith)

pub xr_destroy_sense_data_provider_bd-Agrees :
    AgreesPlainly xr_destroy_sense_data_provider_bd handle_xr_destroy_sense_data_provider_bd
unfolding xr_destroy_sense_data_provider_bd handle_xr_destroy_sense_data_provider_bd
xr_destroy_sense_data_provider_bd-Agrees = scalar_call 390005 (omega arith)

pub xr_destroy_sense_data_snapshot_bd-Agrees :
    AgreesPlainly xr_destroy_sense_data_snapshot_bd handle_xr_destroy_sense_data_snapshot_bd
unfolding xr_destroy_sense_data_snapshot_bd handle_xr_destroy_sense_data_snapshot_bd
xr_destroy_sense_data_snapshot_bd-Agrees = scalar_call 390006 (omega arith)

pub xr_get_sense_data_provider_state_bd-Agrees :
    Agrees xr_get_sense_data_provider_state_bd handle_xr_get_sense_data_provider_state_bd
      (λ a. Unit)
      (λ a o. WordsReady a.1 o 1)
      (λ a. (a.0, received a.1 1))
      (λ a o. placed a.1 o 1)
unfolding xr_get_sense_data_provider_state_bd handle_xr_get_sense_data_provider_state_bd
xr_get_sense_data_provider_state_bd-Agrees = value_call 390010 (omega arith)

pub xr_stop_sense_data_provider_bd-Agrees :
    AgreesPlainly xr_stop_sense_data_provider_bd handle_xr_stop_sense_data_provider_bd
unfolding xr_stop_sense_data_provider_bd handle_xr_stop_sense_data_provider_bd
xr_stop_sense_data_provider_bd-Agrees = scalar_call 390017 (omega arith)
