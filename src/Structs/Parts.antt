-- ===== src/Structs/Parts.antt =====
-- Structs that stand in arrays and in other structs: their functions in src/common/serialization/serializer.cpp and deserializer.cpp.
use xrtransport.Common.{ℕ, List}
use xrtransport.Serialization.Stream.{Result, Reader, pure, ◌>>=◌}
use xrtransport.Serialization.Word.{Word, deserialize_word}
use xrtransport.Serialization.Wire.{◌⊕◌, scalar}
use xrtransport.Structs.Vectors.{
  Posef, serialize_xr_posef, deserialize_xr_posef, Vector3f, serialize_xr_vector3f,
  deserialize_xr_vector3f,
}
use xrtransport.Structs.Areas.{Rect2Di, serialize_xr_rect2_di, deserialize_xr_rect2_di}

-- XrActionSuggestedBinding
pub record ActionSuggestedBinding : Type 0 where
  pub action : Word 8
  pub binding : Word 8

unfoldable pub serialize_xr_action_suggested_binding : ActionSuggestedBinding → Result (List ℕ)
serialize_xr_action_suggested_binding s = scalar s.action ⊕ scalar s.binding

unfoldable pub deserialize_xr_action_suggested_binding : Reader ActionSuggestedBinding
deserialize_xr_action_suggested_binding = do
  action ← deserialize_word 8
  binding ← deserialize_word 8
  pure (record { action = action; binding = binding })

-- XrActiveActionSet
pub record ActiveActionSet : Type 0 where
  pub action_set : Word 8
  pub subaction_path : Word 8

unfoldable pub serialize_xr_active_action_set : ActiveActionSet → Result (List ℕ)
serialize_xr_active_action_set s = scalar s.action_set ⊕ scalar s.subaction_path

unfoldable pub deserialize_xr_active_action_set : Reader ActiveActionSet
deserialize_xr_active_action_set = do
  action_set ← deserialize_word 8
  subaction_path ← deserialize_word 8
  pure (record { action_set = action_set; subaction_path = subaction_path })

-- XrSpaceLocationData
pub record SpaceLocationData : Type 0 where
  pub location_flags : Word 8
  pub pose : Posef

unfoldable pub serialize_xr_space_location_data : SpaceLocationData → Result (List ℕ)
serialize_xr_space_location_data s = scalar s.location_flags ⊕ serialize_xr_posef s.pose

unfoldable pub deserialize_xr_space_location_data : Reader SpaceLocationData
deserialize_xr_space_location_data = do
  location_flags ← deserialize_word 8
  pose ← deserialize_xr_posef
  pure (record { location_flags = location_flags; pose = pose })

-- XrSpaceVelocityData
pub record SpaceVelocityData : Type 0 where
  pub velocity_flags : Word 8
  pub linear_velocity : Vector3f
  pub angular_velocity : Vector3f

unfoldable pub serialize_xr_space_velocity_data : SpaceVelocityData → Result (List ℕ)
serialize_xr_space_velocity_data s =
    scalar s.velocity_flags
    ⊕ serialize_xr_vector3f s.linear_velocity
    ⊕ serialize_xr_vector3f s.angular_velocity

unfoldable pub deserialize_xr_space_velocity_data : Reader SpaceVelocityData
deserialize_xr_space_velocity_data = do
  velocity_flags ← deserialize_word 8
  linear_velocity ← deserialize_xr_vector3f
  angular_velocity ← deserialize_xr_vector3f
  pure (record {
    velocity_flags = velocity_flags;
    linear_velocity = linear_velocity;
    angular_velocity = angular_velocity;
  })

-- XrSwapchainSubImage
pub record SwapchainSubImage : Type 0 where
  pub swapchain : Word 8
  pub image_rect : Rect2Di
  pub image_array_index : Word 4

unfoldable pub serialize_xr_swapchain_sub_image : SwapchainSubImage → Result (List ℕ)
serialize_xr_swapchain_sub_image s =
    scalar s.swapchain ⊕ serialize_xr_rect2_di s.image_rect ⊕ scalar s.image_array_index

unfoldable pub deserialize_xr_swapchain_sub_image : Reader SwapchainSubImage
deserialize_xr_swapchain_sub_image = do
  swapchain ← deserialize_word 8
  image_rect ← deserialize_xr_rect2_di
  image_array_index ← deserialize_word 4
  pure (record {
    swapchain = swapchain;
    image_rect = image_rect;
    image_array_index = image_array_index;
  })

-- XrSystemGraphicsProperties
pub record SystemGraphicsProperties : Type 0 where
  pub max_swapchain_image_height : Word 4
  pub max_swapchain_image_width : Word 4
  pub max_layer_count : Word 4

unfoldable pub serialize_xr_system_graphics_properties : SystemGraphicsProperties → Result (List ℕ)
serialize_xr_system_graphics_properties s =
    scalar s.max_swapchain_image_height
    ⊕ scalar s.max_swapchain_image_width
    ⊕ scalar s.max_layer_count

unfoldable pub deserialize_xr_system_graphics_properties : Reader SystemGraphicsProperties
deserialize_xr_system_graphics_properties = do
  max_swapchain_image_height ← deserialize_word 4
  max_swapchain_image_width ← deserialize_word 4
  max_layer_count ← deserialize_word 4
  pure (record {
    max_swapchain_image_height = max_swapchain_image_height;
    max_swapchain_image_width = max_swapchain_image_width;
    max_layer_count = max_layer_count;
  })

-- XrSystemTrackingProperties
pub record SystemTrackingProperties : Type 0 where
  pub orientation_tracking : Word 4
  pub position_tracking : Word 4

unfoldable pub serialize_xr_system_tracking_properties : SystemTrackingProperties → Result (List ℕ)
serialize_xr_system_tracking_properties s =
    scalar s.orientation_tracking ⊕ scalar s.position_tracking

unfoldable pub deserialize_xr_system_tracking_properties : Reader SystemTrackingProperties
deserialize_xr_system_tracking_properties = do
  orientation_tracking ← deserialize_word 4
  position_tracking ← deserialize_word 4
  pure (record {
    orientation_tracking = orientation_tracking;
    position_tracking = position_tracking;
  })
