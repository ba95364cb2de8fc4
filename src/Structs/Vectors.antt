-- ===== src/Structs/Vectors.antt =====
-- Vectors, poses and fields of view: their functions in src/common/serialization/serializer.cpp and deserializer.cpp.
use xrtransport.Common.{ℕ, List}
use xrtransport.Serialization.Stream.{Result, Reader, pure, ◌>>=◌}
use xrtransport.Serialization.Word.{Word, deserialize_word}
use xrtransport.Serialization.Wire.{◌⊕◌, scalar}

-- XrVector2f
pub record Vector2f : Type 0 where
  pub x : Word 4
  pub y : Word 4

unfoldable pub serialize_xr_vector2f : Vector2f → Result (List ℕ)
serialize_xr_vector2f s = scalar s.x ⊕ scalar s.y

unfoldable pub deserialize_xr_vector2f : Reader Vector2f
deserialize_xr_vector2f = do
  x ← deserialize_word 4
  y ← deserialize_word 4
  pure (record { x = x; y = y })

-- XrVector3f
pub record Vector3f : Type 0 where
  pub x : Word 4
  pub y : Word 4
  pub z : Word 4

unfoldable pub serialize_xr_vector3f : Vector3f → Result (List ℕ)
serialize_xr_vector3f s = scalar s.x ⊕ scalar s.y ⊕ scalar s.z

unfoldable pub deserialize_xr_vector3f : Reader Vector3f
deserialize_xr_vector3f = do
  x ← deserialize_word 4
  y ← deserialize_word 4
  z ← deserialize_word 4
  pure (record { x = x; y = y; z = z })

-- XrVector4f
pub record Vector4f : Type 0 where
  pub x : Word 4
  pub y : Word 4
  pub z : Word 4
  pub w : Word 4

unfoldable pub serialize_xr_vector4f : Vector4f → Result (List ℕ)
serialize_xr_vector4f s = scalar s.x ⊕ scalar s.y ⊕ scalar s.z ⊕ scalar s.w

unfoldable pub deserialize_xr_vector4f : Reader Vector4f
deserialize_xr_vector4f = do
  x ← deserialize_word 4
  y ← deserialize_word 4
  z ← deserialize_word 4
  w ← deserialize_word 4
  pure (record { x = x; y = y; z = z; w = w })

-- XrQuaternionf
pub record Quaternionf : Type 0 where
  pub x : Word 4
  pub y : Word 4
  pub z : Word 4
  pub w : Word 4

unfoldable pub serialize_xr_quaternionf : Quaternionf → Result (List ℕ)
serialize_xr_quaternionf s = scalar s.x ⊕ scalar s.y ⊕ scalar s.z ⊕ scalar s.w

unfoldable pub deserialize_xr_quaternionf : Reader Quaternionf
deserialize_xr_quaternionf = do
  x ← deserialize_word 4
  y ← deserialize_word 4
  z ← deserialize_word 4
  w ← deserialize_word 4
  pure (record { x = x; y = y; z = z; w = w })

-- XrPosef
pub record Posef : Type 0 where
  pub orientation : Quaternionf
  pub position : Vector3f

unfoldable pub serialize_xr_posef : Posef → Result (List ℕ)
serialize_xr_posef s = serialize_xr_quaternionf s.orientation ⊕ serialize_xr_vector3f s.position

unfoldable pub deserialize_xr_posef : Reader Posef
deserialize_xr_posef = do
  orientation ← deserialize_xr_quaternionf
  position ← deserialize_xr_vector3f
  pure (record { orientation = orientation; position = position })

-- XrFovf
pub record Fovf : Type 0 where
  pub angle_left : Word 4
  pub angle_right : Word 4
  pub angle_up : Word 4
  pub angle_down : Word 4

unfoldable pub serialize_xr_fovf : Fovf → Result (List ℕ)
serialize_xr_fovf s =
    scalar s.angle_left ⊕ scalar s.angle_right ⊕ scalar s.angle_up ⊕ scalar s.angle_down

unfoldable pub deserialize_xr_fovf : Reader Fovf
deserialize_xr_fovf = do
  angle_left ← deserialize_word 4
  angle_right ← deserialize_word 4
  angle_up ← deserialize_word 4
  angle_down ← deserialize_word 4
  pure (record {
    angle_left = angle_left;
    angle_right = angle_right;
    angle_up = angle_up;
    angle_down = angle_down;
  })

-- XrColor3f
pub record Color3f : Type 0 where
  pub r : Word 4
  pub g : Word 4
  pub b : Word 4

unfoldable pub serialize_xr_color3f : Color3f → Result (List ℕ)
serialize_xr_color3f s = scalar s.r ⊕ scalar s.g ⊕ scalar s.b

unfoldable pub deserialize_xr_color3f : Reader Color3f
deserialize_xr_color3f = do
  r ← deserialize_word 4
  g ← deserialize_word 4
  b ← deserialize_word 4
  pure (record { r = r; g = g; b = b })

-- XrColor4f
pub record Color4f : Type 0 where
  pub r : Word 4
  pub g : Word 4
  pub b : Word 4
  pub a : Word 4

unfoldable pub serialize_xr_color4f : Color4f → Result (List ℕ)
serialize_xr_color4f s = scalar s.r ⊕ scalar s.g ⊕ scalar s.b ⊕ scalar s.a

unfoldable pub deserialize_xr_color4f : Reader Color4f
deserialize_xr_color4f = do
  r ← deserialize_word 4
  g ← deserialize_word 4
  b ← deserialize_word 4
  a ← deserialize_word 4
  pure (record { r = r; g = g; b = b; a = a })
