-- ===== src/Structs/Trip/Layers.antt =====
-- Composition layers: what is written of each struct is read back.
use xrtransport.Common.{ℕ, Bool}
use xrtransport.Serialization.Stream.{ok}
use xrtransport.Serialization.Chain.{Table}
use xrtransport.Serialization.Chains.{IsTable, Prepared}
use xrtransport.Serialization.Wire.{Lands, first-Lands, last-Lands, scalar_first}
use xrtransport.Structs.Rows.{next_first}
use xrtransport.Structs.Layers.{
  CompositionLayerProjectionView, serialize_xr_composition_layer_projection_view,
  deserialize_xr_composition_layer_projection_view, CompositionLayerQuad,
  serialize_xr_composition_layer_quad, deserialize_xr_composition_layer_quad,
}
use xrtransport.Structs.Vectors.{deserialize_xr_fovf, deserialize_xr_posef}
use xrtransport.Structs.Parts.{deserialize_xr_swapchain_sub_image}
use xrtransport.Structs.Areas.{deserialize_xr_extent2_df}
use xrtransport.Structs.Trip.Vectors.{serialize_xr_fovf-Lands, serialize_xr_posef-Lands}
use xrtransport.Structs.Trip.Parts.{serialize_xr_swapchain_sub_image-Lands}
use xrtransport.Structs.Trip.Areas.{serialize_xr_extent2_df-Lands}

module _ {P : Type 0} (Ready : ℕ → P → P → Type 0) (table : Table P) (t : IsTable Ready table) where
  pub serialize_xr_composition_layer_projection_view-Lands :
      (in_place : Bool) (old s : CompositionLayerProjectionView P)
      → Prepared Ready table in_place old.next s.next
      → Lands
          (serialize_xr_composition_layer_projection_view table s)
          (deserialize_xr_composition_layer_projection_view table in_place old)
          (ok s)
  unfolding serialize_xr_composition_layer_projection_view
      deserialize_xr_composition_layer_projection_view
  serialize_xr_composition_layer_projection_view-Lands in_place old s p = scalar_first s.type _ (
      next_first Ready table t in_place old.next s.next _ p (
        first-Lands deserialize_xr_posef _ s.pose (serialize_xr_posef-Lands s.pose) (
          first-Lands deserialize_xr_fovf _ s.fov (serialize_xr_fovf-Lands s.fov) (
            last-Lands deserialize_xr_swapchain_sub_image (ok s.sub_image)
              (λ x. record s { sub_image = x })
              (serialize_xr_swapchain_sub_image-Lands s.sub_image)))))

  -- A quad layer is read back as it was written, with the chain behind it and the structs in it, if both
  -- sides use the same table, which reads what it writes, and the memory that is read into is ready for
  -- the chain.
  pub serialize_xr_composition_layer_quad-Lands :
      (in_place : Bool) (old s : CompositionLayerQuad P)
      → Prepared Ready table in_place old.next s.next
      → Lands
          (serialize_xr_composition_layer_quad table s)
          (deserialize_xr_composition_layer_quad table in_place old)
          (ok s)
  unfolding serialize_xr_composition_layer_quad deserialize_xr_composition_layer_quad
  serialize_xr_composition_layer_quad-Lands in_place old s p = scalar_first s.type _ (
      next_first Ready table t in_place old.next s.next _ p (
        scalar_first s.layer_flags _ (
          scalar_first s.space _ (
            scalar_first s.eye_visibility _ (
              first-Lands deserialize_xr_swapchain_sub_image _ s.sub_image
                (serialize_xr_swapchain_sub_image-Lands s.sub_image)
                (first-Lands deserialize_xr_posef _ s.pose (serialize_xr_posef-Lands s.pose) (
                  last-Lands deserialize_xr_extent2_df (ok s.size) (λ x. record s { size = x })
                    (serialize_xr_extent2_df-Lands s.size))))))))
