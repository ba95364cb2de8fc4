-- ===== src/Rpc/Agree/Meta.antt =====
-- Extensions of META: each function of the client fits its handler on the server.
use xrtransport.Common.{arith}
use xrtransport.Serialization.Pointers.{received, placed}
use xrtransport.Serialization.Wire.{WordsReady}
use xrtransport.Rpc.Transparent.{Agrees}
use xrtransport.Rpc.Shapes.{AgreesPlainly, scalar_call, value_call}
use xrtransport.Rpc.Meta.{
  xr_destroy_environment_depth_provider_meta, handle_xr_destroy_environment_depth_provider_meta,
  xr_destroy_environment_depth_swapchain_meta, handle_xr_destroy_environment_depth_swapchain_meta,
  xr_start_environment_depth_provider_meta, handle_xr_start_environment_depth_provider_meta,
  xr_stop_environment_depth_provider_meta, handle_xr_stop_environment_depth_provider_meta,
  xr_destroy_passthrough_color_lut_meta, handle_xr_destroy_passthrough_color_lut_meta,
  xr_destroy_virtual_keyboard_meta, handle_xr_destroy_virtual_keyboard_meta,
  xr_get_virtual_keyboard_scale_meta, handle_xr_get_virtual_keyboard_scale_meta,
}

pub xr_destroy_environment_depth_provider_meta-Agrees :
    AgreesPlainly xr_destroy_environment_depth_provider_meta
      handle_xr_destroy_environment_depth_provider_meta
unfolding xr_destroy_environment_depth_provider_meta
    handle_xr_destroy_environment_depth_provider_meta
xr_destroy_environment_depth_provider_meta-Agrees = scalar_call 292004 (omega arith)

pub xr_destroy_environment_depth_swapchain_meta-Agrees :
    AgreesPlainly xr_destroy_environment_depth_swapchain_meta
      handle_xr_destroy_environment_depth_swapchain_meta
unfolding xr_destroy_environment_depth_swapchain_meta
    handle_xr_destroy_environment_depth_swapchain_meta
xr_destroy_environment_depth_swapchain_meta-Agrees = scalar_call 292005 (omega arith)

pub xr_start_environment_depth_provider_meta-Agrees :
    AgreesPlainly xr_start_environment_depth_provider_meta
      handle_xr_start_environment_depth_provider_meta
unfolding xr_start_environment_depth_provider_meta handle_xr_start_environment_depth_provider_meta
xr_start_environment_depth_provider_meta-Agrees = scalar_call 292009 (omega arith)

pub xr_stop_environment_depth_provider_meta-Agrees :
    AgreesPlainly xr_stop_environment_depth_provider_meta
      handle_xr_stop_environment_depth_provider_meta
unfolding xr_stop_environment_depth_provider_meta handle_xr_stop_environment_depth_provider_meta
xr_stop_environment_depth_provider_meta-Agrees = scalar_call 292010 (omega arith)

pub xr_destroy_passthrough_color_lut_meta-Agrees :
    AgreesPlainly xr_destroy_passthrough_color_lut_meta handle_xr_destroy_passthrough_color_lut_meta
unfolding xr_destroy_passthrough_color_lut_meta handle_xr_destroy_passthrough_color_lut_meta
xr_destroy_passthrough_color_lut_meta-Agrees = scalar_call 267002 (omega arith)

pub xr_destroy_virtual_keyboard_meta-Agrees :
    AgreesPlainly xr_destroy_virtual_keyboard_meta handle_xr_destroy_virtual_keyboard_meta
unfolding xr_destroy_virtual_keyboard_meta handle_xr_destroy_virtual_keyboard_meta
xr_destroy_virtual_keyboard_meta-Agrees = scalar_call 220004 (omega arith)

pub xr_get_virtual_keyboard_scale_meta-Agrees :
    Agrees xr_get_virtual_keyboard_scale_meta handle_xr_get_virtual_keyboard_scale_meta
      (λ a. Unit)
      (λ a o. WordsReady a.1 o 1)
      (λ a. (a.0, received a.1 1))
      (λ a o. placed a.1 o 1)
unfolding xr_get_virtual_keyboard_scale_meta handle_xr_get_virtual_keyboard_scale_meta
xr_get_virtual_keyboard_scale_meta-Agrees = value_call 220007 (omega arith)
