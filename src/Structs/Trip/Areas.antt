-- ===== src/Structs/Trip/Areas.antt =====
-- Areas and volumes: what is written of each struct is read back.
use xrtransport.Serialization.Stream.{ok}
use xrtransport.Serialization.Word.{deserialize_word}
use xrtransport.Serialization.Wire.{Lands, first-Lands, last-Lands, scalar-Lands, scalar_first}
use xrtransport.Structs.Areas.{
  Offset2Df, serialize_xr_offset2_df, deserialize_xr_offset2_df, Offset2Di, serialize_xr_offset2_di,
  deserialize_xr_offset2_di, Extent2Df, serialize_xr_extent2_df, deserialize_xr_extent2_df,
  Extent2Di, serialize_xr_extent2_di, deserialize_xr_extent2_di, Extent3Df, serialize_xr_extent3_df,
  deserialize_xr_extent3_df, Rect2Df, serialize_xr_rect2_df, deserialize_xr_rect2_df, Rect2Di,
  serialize_xr_rect2_di, deserialize_xr_rect2_di, Boxf, serialize_xr_boxf, deserialize_xr_boxf,
  Spheref, serialize_xr_spheref, deserialize_xr_spheref, Frustumf, serialize_xr_frustumf,
  deserialize_xr_frustumf,
}
use xrtransport.Structs.Vectors.{deserialize_xr_fovf, deserialize_xr_posef}
use xrtransport.Structs.Trip.Vectors.{serialize_xr_fovf-Lands, serialize_xr_posef-Lands}

pub serialize_xr_offset2_df-Lands :
    (s : Offset2Df) → Lands (serialize_xr_offset2_df s) deserialize_xr_offset2_df (ok s)
unfolding serialize_xr_offset2_df deserialize_xr_offset2_df
serialize_xr_offset2_df-Lands s =
    scalar_first s.x _
      (last-Lands (deserialize_word 4) (ok s.y) (λ x. record s { y = x }) (scalar-Lands s.y))

pub serialize_xr_offset2_di-Lands :
    (s : Offset2Di) → Lands (serialize_xr_offset2_di s) deserialize_xr_offset2_di (ok s)
unfolding serialize_xr_offset2_di deserialize_xr_offset2_di
serialize_xr_offset2_di-Lands s =
    scalar_first s.x _
      (last-Lands (deserialize_word 4) (ok s.y) (λ x. record s { y = x }) (scalar-Lands s.y))

pub serialize_xr_extent2_df-Lands :
    (s : Extent2Df) → Lands (serialize_xr_extent2_df s) deserialize_xr_extent2_df (ok s)
unfolding serialize_xr_extent2_df deserialize_xr_extent2_df
serialize_xr_extent2_df-Lands s = scalar_first s.width _ (
    last-Lands (deserialize_word 4) (ok s.height) (λ x. record s { height = x })
      (scalar-Lands s.height))

pub serialize_xr_extent2_di-Lands :
    (s : Extent2Di) → Lands (serialize_xr_extent2_di s) deserialize_xr_extent2_di (ok s)
unfolding serialize_xr_extent2_di deserialize_xr_extent2_di
serialize_xr_extent2_di-Lands s = scalar_first s.width _ (
    last-Lands (deserialize_word 4) (ok s.height) (λ x. record s { height = x })
      (scalar-Lands s.height))

pub serialize_xr_extent3_df-Lands :
    (s : Extent3Df) → Lands (serialize_xr_extent3_df s) deserialize_xr_extent3_df (ok s)
unfolding serialize_xr_extent3_df deserialize_xr_extent3_df
serialize_xr_extent3_df-Lands s = scalar_first s.width _ (
    scalar_first s.height _ (
      last-Lands (deserialize_word 4) (ok s.depth) (λ x. record s { depth = x })
        (scalar-Lands s.depth)))

pub serialize_xr_rect2_df-Lands :
    (s : Rect2Df) → Lands (serialize_xr_rect2_df s) deserialize_xr_rect2_df (ok s)
unfolding serialize_xr_rect2_df deserialize_xr_rect2_df
serialize_xr_rect2_df-Lands s =
    first-Lands deserialize_xr_offset2_df _ s.offset (serialize_xr_offset2_df-Lands s.offset) (
      last-Lands deserialize_xr_extent2_df (ok s.extent) (λ x. record s { extent = x })
        (serialize_xr_extent2_df-Lands s.extent))

pub serialize_xr_rect2_di-Lands :
    (s : Rect2Di) → Lands (serialize_xr_rect2_di s) deserialize_xr_rect2_di (ok s)
unfolding serialize_xr_rect2_di deserialize_xr_rect2_di
serialize_xr_rect2_di-Lands s =
    first-Lands deserialize_xr_offset2_di _ s.offset (serialize_xr_offset2_di-Lands s.offset) (
      last-Lands deserialize_xr_extent2_di (ok s.extent) (λ x. record s { extent = x })
        (serialize_xr_extent2_di-Lands s.extent))

pub serialize_xr_boxf-Lands : (s : Boxf) → Lands (serialize_xr_boxf s) deserialize_xr_boxf (ok s)
unfolding serialize_xr_boxf deserialize_xr_boxf
serialize_xr_boxf-Lands s =
    first-Lands deserialize_xr_posef _ s.center (serialize_xr_posef-Lands s.center) (
      last-Lands deserialize_xr_extent3_df (ok s.extents) (λ x. record s { extents = x })
        (serialize_xr_extent3_df-Lands s.extents))

pub serialize_xr_spheref-Lands :
    (s : Spheref) → Lands (serialize_xr_spheref s) deserialize_xr_spheref (ok s)
unfolding serialize_xr_spheref deserialize_xr_spheref
serialize_xr_spheref-Lands s =
    first-Lands deserialize_xr_posef _ s.center (serialize_xr_posef-Lands s.center) (
      last-Lands (deserialize_word 4) (ok s.radius) (λ x. record s { radius = x })
        (scalar-Lands s.radius))

pub serialize_xr_frustumf-Lands :
    (s : Frustumf) → Lands (serialize_xr_frustumf s) deserialize_xr_frustumf (ok s)
unfolding serialize_xr_frustumf deserialize_xr_frustumf
serialize_xr_frustumf-Lands s =
    first-Lands deserialize_xr_posef _ s.pose (serialize_xr_posef-Lands s.pose) (
      first-Lands deserialize_xr_fovf _ s.fov (serialize_xr_fovf-Lands s.fov) (
        scalar_first s.near_z _ (
          last-Lands (deserialize_word 4) (ok s.far_z) (λ x. record s { far_z = x })
            (scalar-Lands s.far_z))))
