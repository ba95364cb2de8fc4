-- ===== src/Structs/Trip/Vectors.antt =====
-- Vectors, poses and fields of view: what is written of each struct is read back.
use xrtransport.Serialization.Stream.{ok}
use xrtransport.Serialization.Word.{deserialize_word}
use xrtransport.Serialization.Wire.{Lands, first-Lands, last-Lands, scalar-Lands, scalar_first}
use xrtransport.Structs.Vectors.{
  Vector2f, serialize_xr_vector2f, deserialize_xr_vector2f, Vector3f, serialize_xr_vector3f,
  deserialize_xr_vector3f, Vector4f, serialize_xr_vector4f, deserialize_xr_vector4f, Quaternionf,
  serialize_xr_quaternionf, deserialize_xr_quaternionf, Posef, serialize_xr_posef,
  deserialize_xr_posef, Fovf, serialize_xr_fovf, deserialize_xr_fovf, Color3f, serialize_xr_color3f,
  deserialize_xr_color3f, Color4f, serialize_xr_color4f, deserialize_xr_color4f,
}

pub serialize_xr_vector2f-Lands :
    (s : Vector2f) → Lands (serialize_xr_vector2f s) deserialize_xr_vector2f (ok s)
unfolding serialize_xr_vector2f deserialize_xr_vector2f
serialize_xr_vector2f-Lands s =
    scalar_first s.x _
      (last-Lands (deserialize_word 4) (ok s.y) (λ x. record s { y = x }) (scalar-Lands s.y))

pub serialize_xr_vector3f-Lands :
    (s : Vector3f) → Lands (serialize_xr_vector3f s) deserialize_xr_vector3f (ok s)
unfolding serialize_xr_vector3f deserialize_xr_vector3f
serialize_xr_vector3f-Lands s = scalar_first s.x _ (
    scalar_first s.y _
      (last-Lands (deserialize_word 4) (ok s.z) (λ x. record s { z = x }) (scalar-Lands s.z)))

pub serialize_xr_vector4f-Lands :
    (s : Vector4f) → Lands (serialize_xr_vector4f s) deserialize_xr_vector4f (ok s)
unfolding serialize_xr_vector4f deserialize_xr_vector4f
serialize_xr_vector4f-Lands s = scalar_first s.x _ (
    scalar_first s.y _ (
      scalar_first s.z _
        (last-Lands (deserialize_word 4) (ok s.w) (λ x. record s { w = x }) (scalar-Lands s.w))))

pub serialize_xr_quaternionf-Lands :
    (s : Quaternionf) → Lands (serialize_xr_quaternionf s) deserialize_xr_quaternionf (ok s)
unfolding serialize_xr_quaternionf deserialize_xr_quaternionf
serialize_xr_quaternionf-Lands s = scalar_first s.x _ (
    scalar_first s.y _ (
      scalar_first s.z _
        (last-Lands (deserialize_word 4) (ok s.w) (λ x. record s { w = x }) (scalar-Lands s.w))))

pub serialize_xr_posef-Lands :
    (s : Posef) → Lands (serialize_xr_posef s) deserialize_xr_posef (ok s)
unfolding serialize_xr_posef deserialize_xr_posef
serialize_xr_posef-Lands s =
    first-Lands deserialize_xr_quaternionf _ s.orientation
      (serialize_xr_quaternionf-Lands s.orientation)
      (last-Lands deserialize_xr_vector3f (ok s.position) (λ x. record s { position = x })
        (serialize_xr_vector3f-Lands s.position))

pub serialize_xr_fovf-Lands : (s : Fovf) → Lands (serialize_xr_fovf s) deserialize_xr_fovf (ok s)
unfolding serialize_xr_fovf deserialize_xr_fovf
serialize_xr_fovf-Lands s = scalar_first s.angle_left _ (
    scalar_first s.angle_right _ (
      scalar_first s.angle_up _ (
        last-Lands (deserialize_word 4) (ok s.angle_down) (λ x. record s { angle_down = x })
          (scalar-Lands s.angle_down))))

pub serialize_xr_color3f-Lands :
    (s : Color3f) → Lands (serialize_xr_color3f s) deserialize_xr_color3f (ok s)
unfolding serialize_xr_color3f deserialize_xr_color3f
serialize_xr_color3f-Lands s = scalar_first s.r _ (
    scalar_first s.g _
      (last-Lands (deserialize_word 4) (ok s.b) (λ x. record s { b = x }) (scalar-Lands s.b)))

pub serialize_xr_color4f-Lands :
    (s : Color4f) → Lands (serialize_xr_color4f s) deserialize_xr_color4f (ok s)
unfolding serialize_xr_color4f deserialize_xr_color4f
serialize_xr_color4f-Lands s = scalar_first s.r _ (
    scalar_first s.g _ (
      scalar_first s.b _
        (last-Lands (deserialize_word 4) (ok s.a) (λ x. record s { a = x }) (scalar-Lands s.a))))
