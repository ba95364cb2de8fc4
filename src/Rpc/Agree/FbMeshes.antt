-- ===== src/Rpc/Agree/FbMeshes.antt =====
-- Triangle meshes of FB: each function of the client fits its handler on the server.
use xrtransport.Common.{arith}
use xrtransport.Rpc.Shapes.{AgreesPlainly, scalar_call, three_scalars_call}
use xrtransport.Rpc.FbMeshes.{
  xr_destroy_geometry_instance_fb, handle_xr_destroy_geometry_instance_fb,
  xr_destroy_triangle_mesh_fb, handle_xr_destroy_triangle_mesh_fb, xr_triangle_mesh_begin_update_fb,
  handle_xr_triangle_mesh_begin_update_fb, xr_triangle_mesh_end_update_fb,
  handle_xr_triangle_mesh_end_update_fb, xr_triangle_mesh_end_vertex_buffer_update_fb,
  handle_xr_triangle_mesh_end_vertex_buffer_update_fb,
}

pub xr_destroy_geometry_instance_fb-Agrees :
    AgreesPlainly xr_destroy_geometry_instance_fb handle_xr_destroy_geometry_instance_fb
unfolding xr_destroy_geometry_instance_fb handle_xr_destroy_geometry_instance_fb
xr_destroy_geometry_instance_fb-Agrees = scalar_call 119004 (omega arith)

pub xr_destroy_triangle_mesh_fb-Agrees :
    AgreesPlainly xr_destroy_triangle_mesh_fb handle_xr_destroy_triangle_mesh_fb
unfolding xr_destroy_triangle_mesh_fb handle_xr_destroy_triangle_mesh_fb
xr_destroy_triangle_mesh_fb-Agrees = scalar_call 118002 (omega arith)

pub xr_triangle_mesh_begin_update_fb-Agrees :
    AgreesPlainly xr_triangle_mesh_begin_update_fb handle_xr_triangle_mesh_begin_update_fb
unfolding xr_triangle_mesh_begin_update_fb handle_xr_triangle_mesh_begin_update_fb
xr_triangle_mesh_begin_update_fb-Agrees = scalar_call 118003 (omega arith)

pub xr_triangle_mesh_end_update_fb-Agrees :
    AgreesPlainly xr_triangle_mesh_end_update_fb handle_xr_triangle_mesh_end_update_fb
unfolding xr_triangle_mesh_end_update_fb handle_xr_triangle_mesh_end_update_fb
xr_triangle_mesh_end_update_fb-Agrees = three_scalars_call 118005 (omega arith)

pub xr_triangle_mesh_end_vertex_buffer_update_fb-Agrees :
    AgreesPlainly xr_triangle_mesh_end_vertex_buffer_update_fb
      handle_xr_triangle_mesh_end_vertex_buffer_update_fb
unfolding xr_triangle_mesh_end_vertex_buffer_update_fb
    handle_xr_triangle_mesh_end_vertex_buffer_update_fb
xr_triangle_mesh_end_vertex_buffer_update_fb-Agrees = scalar_call 118006 (omega arith)
