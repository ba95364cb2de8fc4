-- ===== src/Rpc/FbMeshes.antt =====
-- Triangle meshes of FB: the functions of src/client/rpc.cpp and their handlers of
-- src/server/function_dispatch.cpp.
use xrtransport.Common.{[]}
use xrtransport.Serialization.Stream.{ok, pure, ◌>>=◌}
use xrtransport.Serialization.Word.{Word, deserialize_word}
use xrtransport.Serialization.Wire.{◌⊕◌, scalar}
use xrtransport.Rpc.Call.{Call, Handler}

-- xrDestroyGeometryInstanceFB
unfoldable pub xr_destroy_geometry_instance_fb : Call (Word 8) Unit
xr_destroy_geometry_instance_fb = record {
  function_id = 119004;
  request = λ a. scalar a;
  reply = λ a. pure tt;
}

unfoldable pub handle_xr_destroy_geometry_instance_fb : Handler (Word 8) Unit
handle_xr_destroy_geometry_instance_fb = record {
  key = 119004;
  params = deserialize_word 8;
  results = λ a memory. ok [];
}

-- xrDestroyTriangleMeshFB
unfoldable pub xr_destroy_triangle_mesh_fb : Call (Word 8) Unit
xr_destroy_triangle_mesh_fb = record {
  function_id = 118002;
  request = λ a. scalar a;
  reply = λ a. pure tt;
}

unfoldable pub handle_xr_destroy_triangle_mesh_fb : Handler (Word 8) Unit
handle_xr_destroy_triangle_mesh_fb = record {
  key = 118002;
  params = deserialize_word 8;
  results = λ a memory. ok [];
}

-- xrTriangleMeshBeginUpdateFB
unfoldable pub xr_triangle_mesh_begin_update_fb : Call (Word 8) Unit
xr_triangle_mesh_begin_update_fb = record {
  function_id = 118003;
  request = λ a. scalar a;
  reply = λ a. pure tt;
}

unfoldable pub handle_xr_triangle_mesh_begin_update_fb : Handler (Word 8) Unit
handle_xr_triangle_mesh_begin_update_fb = record {
  key = 118003;
  params = deserialize_word 8;
  results = λ a memory. ok [];
}

-- xrTriangleMeshEndUpdateFB
unfoldable pub xr_triangle_mesh_end_update_fb : Call (Word 8 × Word 4 × Word 4) Unit
xr_triangle_mesh_end_update_fb = record {
  function_id = 118005;
  request = λ a.
      let (mesh, vertex_count, triangle_count) = a in
      scalar mesh ⊕ scalar vertex_count ⊕ scalar triangle_count;
  reply = λ a. pure tt;
}

unfoldable pub handle_xr_triangle_mesh_end_update_fb : Handler (Word 8 × Word 4 × Word 4) Unit
handle_xr_triangle_mesh_end_update_fb = record {
  key = 118005;
  params = (do
    mesh ← deserialize_word 8
    vertex_count ← deserialize_word 4
    triangle_count ← deserialize_word 4
    pure (mesh, vertex_count, triangle_count));
  results = λ a memory. ok [];
}

-- xrTriangleMeshEndVertexBufferUpdateFB
unfoldable pub xr_triangle_mesh_end_vertex_buffer_update_fb : Call (Word 8) Unit
xr_triangle_mesh_end_vertex_buffer_update_fb = record {
  function_id = 118006;
  request = λ a. scalar a;
  reply = λ a. pure tt;
}

unfoldable pub handle_xr_triangle_mesh_end_vertex_buffer_update_fb : Handler (Word 8) Unit
handle_xr_triangle_mesh_end_vertex_buffer_update_fb = record {
  key = 118006;
  params = deserialize_word 8;
  results = λ a memory. ok [];
}
