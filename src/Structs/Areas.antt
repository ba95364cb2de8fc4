-- ===== src/Structs/Areas.antt =====
-- Areas and volumes: their functions in src/common/serialization/serializer.cpp and deserializer.cpp.
use xrtransport.Common.{ℕ, List}
use xrtransport.Serialization.Stream.{Result, Reader, pure, ◌>>=◌}
use xrtransport.Serialization.Word.{Word, deserialize_word}
use xrtransport.Serialization.Wire.{◌⊕◌, scalar}
use xrtransport.Structs.Vectors.{
  Fovf, serialize_xr_fovf, deserialize_xr_fovf, Posef, serialize_xr_posef, deserialize_xr_posef,
}

-- XrOffset2Df
pub record Offset2Df : Type 0 where
  pub x : Word 4
  pub y : Word 4

unfoldable pub serialize_xr_offset2_df : Offset2Df → Result (List ℕ)
serialize_xr_offset2_df s = scalar s.x ⊕ scalar s.y

unfoldable pub deserialize_xr_offset2_df : Reader Offset2Df
deserialize_xr_offset2_df = do
  x ← deserialize_word 4
  y ← deserialize_word 4
  pure (record { x = x; y = y })

-- XrOffset2Di
pub record Offset2Di : Type 0 where
  pub x : Word 4
  pub y : Word 4

unfoldable pub serialize_xr_offset2_di : Offset2Di → Result (List ℕ)
serialize_xr_offset2_di s = scalar s.x ⊕ scalar s.y

unfoldable pub deserialize_xr_offset2_di : Reader Offset2Di
deserialize_xr_offset2_di = do
  x ← deserialize_word 4
  y ← deserialize_word 4
  pure (record { x = x; y = y })

-- XrExtent2Df
pub record Extent2Df : Type 0 where
  pub width : Word 4
  pub height : Word 4

unfoldable pub serialize_xr_extent2_df : Extent2Df → Result (List ℕ)
serialize_xr_extent2_df s = scalar s.width ⊕ scalar s.height

unfoldable pub deserialize_xr_extent2_df : Reader Extent2Df
deserialize_xr_extent2_df = do
  width ← deserialize_word 4
  height ← deserialize_word 4
  pure (record { width = width; height = height })

-- XrExtent2Di
pub record Extent2Di : Type 0 where
  pub width : Word 4
  pub height : Word 4

unfoldable pub serialize_xr_extent2_di : Extent2Di → Result (List ℕ)
serialize_xr_extent2_di s = scalar s.width ⊕ scalar s.height

unfoldable pub deserialize_xr_extent2_di : Reader Extent2Di
deserialize_xr_extent2_di = do
  width ← deserialize_word 4
  height ← deserialize_word 4
  pure (record { width = width; height = height })

-- XrExtent3Df
pub record Extent3Df : Type 0 where
  pub width : Word 4
  pub height : Word 4
  pub depth : Word 4

unfoldable pub serialize_xr_extent3_df : Extent3Df → Result (List ℕ)
serialize_xr_extent3_df s = scalar s.width ⊕ scalar s.height ⊕ scalar s.depth

unfoldable pub deserialize_xr_extent3_df : Reader Extent3Df
deserialize_xr_extent3_df = do
  width ← deserialize_word 4
  height ← deserialize_word 4
  depth ← deserialize_word 4
  pure (record { width = width; height = height; depth = depth })

-- XrRect2Df
pub record Rect2Df : Type 0 where
  pub offset : Offset2Df
  pub extent : Extent2Df

unfoldable pub serialize_xr_rect2_df : Rect2Df → Result (List ℕ)
serialize_xr_rect2_df s = serialize_xr_offset2_df s.offset ⊕ serialize_xr_extent2_df s.extent

unfoldable pub deserialize_xr_rect2_df : Reader Rect2Df
deserialize_xr_rect2_df = do
  offset ← deserialize_xr_offset2_df
  extent ← deserialize_xr_extent2_df
  pure (record { offset = offset; extent = extent })

-- XrRect2Di
pub record Rect2Di : Type 0 where
  pub offset : Offset2Di
  pub extent : Extent2Di

unfoldable pub serialize_xr_rect2_di : Rect2Di → Result (List ℕ)
serialize_xr_rect2_di s = serialize_xr_offset2_di s.offset ⊕ serialize_xr_extent2_di s.extent

unfoldable pub deserialize_xr_rect2_di : Reader Rect2Di
deserialize_xr_rect2_di = do
  offset ← deserialize_xr_offset2_di
  extent ← deserialize_xr_extent2_di
  pure (record { offset = offset; extent = extent })

-- XrBoxf
pub record Boxf : Type 0 where
  pub center : Posef
  pub extents : Extent3Df

unfoldable pub serialize_xr_boxf : Boxf → Result (List ℕ)
serialize_xr_boxf s = serialize_xr_posef s.center ⊕ serialize_xr_extent3_df s.extents

unfoldable pub deserialize_xr_boxf : Reader Boxf
deserialize_xr_boxf = do
  center ← deserialize_xr_posef
  extents ← deserialize_xr_extent3_df
  pure (record { center = center; extents = extents })

-- XrSpheref
pub record Spheref : Type 0 where
  pub center : Posef
  pub radius : Word 4

unfoldable pub serialize_xr_spheref : Spheref → Result (List ℕ)
serialize_xr_spheref s = serialize_xr_posef s.center ⊕ scalar s.radius

unfoldable pub deserialize_xr_spheref : Reader Spheref
deserialize_xr_spheref = do
  center ← deserialize_xr_posef
  radius ← deserialize_word 4
  pure (record { center = center; radius = radius })

-- XrFrustumf
pub record Frustumf : Type 0 where
  pub pose : Posef
  pub fov : Fovf
  pub near_z : Word 4
  pub far_z : Word 4

unfoldable pub serialize_xr_frustumf : Frustumf → Result (List ℕ)
serialize_xr_frustumf s =
    serialize_xr_posef s.pose ⊕ serialize_xr_fovf s.fov ⊕ scalar s.near_z ⊕ scalar s.far_z

unfoldable pub deserialize_xr_frustumf : Reader Frustumf
deserialize_xr_frustumf = do
  pose ← deserialize_xr_posef
  fov ← deserialize_xr_fovf
  near_z ← deserialize_word 4
  far_z ← deserialize_word 4
  pure (record { pose = pose; fov = fov; near_z = near_z; far_z = far_z })
