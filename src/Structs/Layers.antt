-- ===== src/Structs/Layers.antt =====
-- Composition layers: their functions in src/common/serialization/serializer.cpp and deserializer.cpp.
use xrtransport.Common.{ℕ, Bool, false, List}
use xrtransport.Serialization.Stream.{Result, Reader, pure, ◌>>=◌}
use xrtransport.Serialization.Chain.{Chain, Table, serialize_xr, deserialize_xr}
use xrtransport.Serialization.Word.{Word, deserialize_word}
use xrtransport.Serialization.Wire.{◌⊕◌, scalar}
use xrtransport.Structs.Vectors.{
  Fovf, serialize_xr_fovf, deserialize_xr_fovf, Posef, serialize_xr_posef, deserialize_xr_posef,
}
use xrtransport.Structs.Parts.{
  SwapchainSubImage, serialize_xr_swapchain_sub_image, deserialize_xr_swapchain_sub_image,
}
use xrtransport.Structs.Areas.{Extent2Df, serialize_xr_extent2_df, deserialize_xr_extent2_df}

-- XrCompositionLayerProjectionView
pub record CompositionLayerProjectionView (P : Type 0) : Type 0 where
  pub type : Word 4
  pub next : Chain P
  pub pose : Posef
  pub fov : Fovf
  pub sub_image : SwapchainSubImage

-- XrCompositionLayerQuad
pub record CompositionLayerQuad (P : Type 0) : Type 0 where
  pub type : Word 4
  pub next : Chain P
  pub layer_flags : Word 8
  pub space : Word 8
  pub eye_visibility : Word 4
  pub sub_image : SwapchainSubImage
  pub pose : Posef
  pub size : Extent2Df

module _ {P : Type 0} (table : Table P) where
  unfoldable pub serialize_xr_composition_layer_projection_view :
      CompositionLayerProjectionView P → Result (List ℕ)
  serialize_xr_composition_layer_projection_view s =
      scalar s.type
      ⊕ serialize_xr table false s.next
      ⊕ serialize_xr_posef s.pose
      ⊕ serialize_xr_fovf s.fov
      ⊕ serialize_xr_swapchain_sub_image s.sub_image

  unfoldable pub deserialize_xr_composition_layer_projection_view :
      Bool → CompositionLayerProjectionView P → Reader (CompositionLayerProjectionView P)
  deserialize_xr_composition_layer_projection_view in_place old = do
    type ← deserialize_word 4
    next ← deserialize_xr table in_place old.next
    pose ← deserialize_xr_posef
    fov ← deserialize_xr_fovf
    sub_image ← deserialize_xr_swapchain_sub_image
    pure (record { type = type; next = next; pose = pose; fov = fov; sub_image = sub_image })

  unfoldable pub serialize_xr_composition_layer_quad : CompositionLayerQuad P → Result (List ℕ)
  serialize_xr_composition_layer_quad s =
      scalar s.type
      ⊕ serialize_xr table false s.next
      ⊕ scalar s.layer_flags
      ⊕ scalar s.space
      ⊕ scalar s.eye_visibility
      ⊕ serialize_xr_swapchain_sub_image s.sub_image
      ⊕ serialize_xr_posef s.pose
      ⊕ serialize_xr_extent2_df s.size

  unfoldable pub deserialize_xr_composition_layer_quad :
      Bool → CompositionLayerQuad P → Reader (CompositionLayerQuad P)
  deserialize_xr_composition_layer_quad in_place old = do
    type ← deserialize_word 4
    next ← deserialize_xr table in_place old.next
    layer_flags ← deserialize_word 8
    space ← deserialize_word 8
    eye_visibility ← deserialize_word 4
    sub_image ← deserialize_xr_swapchain_sub_image
    pose ← deserialize_xr_posef
    size ← deserialize_xr_extent2_df
    pure (record {
      type = type;
      next = next;
      layer_flags = layer_flags;
      space = space;
      eye_visibility = eye_visibility;
      sub_image = sub_image;
      pose = pose;
      size = size;
    })
