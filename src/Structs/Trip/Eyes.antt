-- ===== src/Structs/Trip/Eyes.antt =====
-- Views: what is written of each struct is read back.
use xrtransport.Common.{ℕ, ◌^◌, ◌<◌, Bool}
use xrtransport.Serialization.Stream.{ok}
use xrtransport.Serialization.Chain.{Table}
use xrtransport.Serialization.Chains.{IsTable, Prepared}
use xrtransport.Serialization.Word.{deserialize_word}
use xrtransport.Serialization.Wire.{Lands, first-Lands, last-Lands, scalar-Lands, scalar_first}
use xrtransport.Structs.Rows.{next_first, same_time_first}
use xrtransport.Structs.Eyes.{
  View, serialize_xr_view, deserialize_xr_view, ViewConfigurationProperties,
  serialize_xr_view_configuration_properties, deserialize_xr_view_configuration_properties,
  ViewConfigurationView, serialize_xr_view_configuration_view,
  deserialize_xr_view_configuration_view, ViewLocateInfo, serialize_xr_view_locate_info,
  deserialize_xr_view_locate_info, ViewState, serialize_xr_view_state, deserialize_xr_view_state,
}
use xrtransport.Structs.Vectors.{deserialize_xr_fovf, deserialize_xr_posef}
use xrtransport.Structs.Trip.Vectors.{serialize_xr_fovf-Lands, serialize_xr_posef-Lands}

module _ {P : Type 0} (Ready : ℕ → P → P → Type 0) (table : Table P) (t : IsTable Ready table) where
  pub serialize_xr_view-Lands :
      (in_place : Bool) (old s : View P)
      → Prepared Ready table in_place old.next s.next
      → Lands (serialize_xr_view table s) (deserialize_xr_view table in_place old) (ok s)
  unfolding serialize_xr_view deserialize_xr_view
  serialize_xr_view-Lands in_place old s p = scalar_first s.type _ (
      next_first Ready table t in_place old.next s.next _ p (
        first-Lands deserialize_xr_posef _ s.pose (serialize_xr_posef-Lands s.pose) (
          last-Lands deserialize_xr_fovf (ok s.fov) (λ x. record s { fov = x })
            (serialize_xr_fovf-Lands s.fov))))

  pub serialize_xr_view_configuration_properties-Lands :
      (in_place : Bool) (old s : ViewConfigurationProperties P)
      → Prepared Ready table in_place old.next s.next
      → Lands
          (serialize_xr_view_configuration_properties table s)
          (deserialize_xr_view_configuration_properties table in_place old)
          (ok s)
  unfolding serialize_xr_view_configuration_properties deserialize_xr_view_configuration_properties
  serialize_xr_view_configuration_properties-Lands in_place old s p = scalar_first s.type _ (
      next_first Ready table t in_place old.next s.next _ p (
        scalar_first s.view_configuration_type _ (
          last-Lands (deserialize_word 4) (ok s.fov_mutable) (λ x. record s { fov_mutable = x })
            (scalar-Lands s.fov_mutable))))

  pub serialize_xr_view_configuration_view-Lands :
      (in_place : Bool) (old s : ViewConfigurationView P)
      → Prepared Ready table in_place old.next s.next
      → Lands
          (serialize_xr_view_configuration_view table s)
          (deserialize_xr_view_configuration_view table in_place old)
          (ok s)
  unfolding serialize_xr_view_configuration_view deserialize_xr_view_configuration_view
  serialize_xr_view_configuration_view-Lands in_place old s p = scalar_first s.type _ (
      next_first Ready table t in_place old.next s.next _ p (
        scalar_first s.recommended_image_rect_width _ (
          scalar_first s.max_image_rect_width _ (
            scalar_first s.recommended_image_rect_height _ (
              scalar_first s.max_image_rect_height _ (
                scalar_first s.recommended_swapchain_sample_count _ (
                  last-Lands (deserialize_word 4) (ok s.max_swapchain_sample_count)
                    (λ x. record s { max_swapchain_sample_count = x })
                    (scalar-Lands s.max_swapchain_sample_count))))))))

  pub serialize_xr_view_locate_info-Lands :
      (time_offset : ℕ)
      → time_offset < 2 ^ 64
      → (in_place : Bool) (old s : ViewLocateInfo P) → Prepared Ready table in_place old.next s.next
      → Lands
          (serialize_xr_view_locate_info table time_offset s)
          (deserialize_xr_view_locate_info table time_offset in_place old)
          (ok s)
  unfolding serialize_xr_view_locate_info deserialize_xr_view_locate_info
  serialize_xr_view_locate_info-Lands time_offset o in_place old s p = scalar_first s.type _ (
      next_first Ready table t in_place old.next s.next _ p (
        scalar_first s.view_configuration_type _ (
          same_time_first time_offset s.display_time _ o (
            last-Lands (deserialize_word 8) (ok s.space) (λ x. record s { space = x })
              (scalar-Lands s.space)))))

  pub serialize_xr_view_state-Lands :
      (in_place : Bool) (old s : ViewState P)
      → Prepared Ready table in_place old.next s.next
      → Lands
          (serialize_xr_view_state table s)
          (deserialize_xr_view_state table in_place old)
          (ok s)
  unfolding serialize_xr_view_state deserialize_xr_view_state
  serialize_xr_view_state-Lands in_place old s p = scalar_first s.type _ (
      next_first Ready table t in_place old.next s.next _ p (
        last-Lands (deserialize_word 8) (ok s.view_state_flags)
          (λ x. record s { view_state_flags = x }) (scalar-Lands s.view_state_flags)))
