-- ===== src/Structs/Trip/Parts.antt =====
-- Structs that stand in arrays and in other structs: what is written of each struct is read back.
use xrtransport.Serialization.Stream.{ok}
use xrtransport.Serialization.Word.{deserialize_word}
use xrtransport.Serialization.Wire.{Lands, first-Lands, last-Lands, scalar-Lands, scalar_first}
use xrtransport.Structs.Parts.{
  ActionSuggestedBinding, serialize_xr_action_suggested_binding,
  deserialize_xr_action_suggested_binding, ActiveActionSet, serialize_xr_active_action_set,
  deserialize_xr_active_action_set, SpaceLocationData, serialize_xr_space_location_data,
  deserialize_xr_space_location_data, SpaceVelocityData, serialize_xr_space_velocity_data,
  deserialize_xr_space_velocity_data, SwapchainSubImage, serialize_xr_swapchain_sub_image,
  deserialize_xr_swapchain_sub_image, SystemGraphicsProperties,
  serialize_xr_system_graphics_properties, deserialize_xr_system_graphics_properties,
  SystemTrackingProperties, serialize_xr_system_tracking_properties,
  deserialize_xr_system_tracking_properties,
}
use xrtransport.Structs.Vectors.{deserialize_xr_posef, deserialize_xr_vector3f}
use xrtransport.Structs.Areas.{deserialize_xr_rect2_di}
use xrtransport.Structs.Trip.Vectors.{serialize_xr_posef-Lands, serialize_xr_vector3f-Lands}
use xrtransport.Structs.Trip.Areas.{serialize_xr_rect2_di-Lands}

pub serialize_xr_action_suggested_binding-Lands :
    (s : ActionSuggestedBinding)
    → Lands (serialize_xr_action_suggested_binding s) deserialize_xr_action_suggested_binding (ok s)
unfolding serialize_xr_action_suggested_binding deserialize_xr_action_suggested_binding
serialize_xr_action_suggested_binding-Lands s = scalar_first s.action _ (
    last-Lands (deserialize_word 8) (ok s.binding) (λ x. record s { binding = x })
      (scalar-Lands s.binding))

pub serialize_xr_active_action_set-Lands :
    (s : ActiveActionSet)
    → Lands (serialize_xr_active_action_set s) deserialize_xr_active_action_set (ok s)
unfolding serialize_xr_active_action_set deserialize_xr_active_action_set
serialize_xr_active_action_set-Lands s = scalar_first s.action_set _ (
    last-Lands (deserialize_word 8) (ok s.subaction_path) (λ x. record s { subaction_path = x })
      (scalar-Lands s.subaction_path))

pub serialize_xr_space_location_data-Lands :
    (s : SpaceLocationData)
    → Lands (serialize_xr_space_location_data s) deserialize_xr_space_location_data (ok s)
unfolding serialize_xr_space_location_data deserialize_xr_space_location_data
serialize_xr_space_location_data-Lands s = scalar_first s.location_flags _ (
    last-Lands deserialize_xr_posef (ok s.pose) (λ x. record s { pose = x })
      (serialize_xr_posef-Lands s.pose))

pub serialize_xr_space_velocity_data-Lands :
    (s : SpaceVelocityData)
    → Lands (serialize_xr_space_velocity_data s) deserialize_xr_space_velocity_data (ok s)
unfolding serialize_xr_space_velocity_data deserialize_xr_space_velocity_data
serialize_xr_space_velocity_data-Lands s = scalar_first s.velocity_flags _ (
    first-Lands deserialize_xr_vector3f _ s.linear_velocity
      (serialize_xr_vector3f-Lands s.linear_velocity)
      (last-Lands deserialize_xr_vector3f (ok s.angular_velocity)
        (λ x. record s { angular_velocity = x }) (serialize_xr_vector3f-Lands s.angular_velocity)))

pub serialize_xr_swapchain_sub_image-Lands :
    (s : SwapchainSubImage)
    → Lands (serialize_xr_swapchain_sub_image s) deserialize_xr_swapchain_sub_image (ok s)
unfolding serialize_xr_swapchain_sub_image deserialize_xr_swapchain_sub_image
serialize_xr_swapchain_sub_image-Lands s = scalar_first s.swapchain _ (
    first-Lands deserialize_xr_rect2_di _ s.image_rect (serialize_xr_rect2_di-Lands s.image_rect) (
      last-Lands (deserialize_word 4) (ok s.image_array_index)
        (λ x. record s { image_array_index = x }) (scalar-Lands s.image_array_index)))

pub serialize_xr_system_graphics_properties-Lands :
    (s : SystemGraphicsProperties)
    → Lands
        (serialize_xr_system_graphics_properties s)
        deserialize_xr_system_graphics_properties
        (ok s)
unfolding serialize_xr_system_graphics_properties deserialize_xr_system_graphics_properties
serialize_xr_system_graphics_properties-Lands s = scalar_first s.max_swapchain_image_height _ (
    scalar_first s.max_swapchain_image_width _ (
      last-Lands (deserialize_word 4) (ok s.max_layer_count) (λ x. record s { max_layer_count = x })
        (scalar-Lands s.max_layer_count)))

pub serialize_xr_system_tracking_properties-Lands :
    (s : SystemTrackingProperties)
    → Lands
        (serialize_xr_system_tracking_properties s)
        deserialize_xr_system_tracking_properties
        (ok s)
unfolding serialize_xr_system_tracking_properties deserialize_xr_system_tracking_properties
serialize_xr_system_tracking_properties-Lands s = scalar_first s.orientation_tracking _ (
    last-Lands (deserialize_word 4) (ok s.position_tracking)
      (λ x. record s { position_tracking = x }) (scalar-Lands s.position_tracking))
