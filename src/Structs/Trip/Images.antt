-- ===== src/Structs/Trip/Images.antt =====
-- Swapchain images: what is written of each struct is read back.
use xrtransport.Common.{ℕ, Bool}
use xrtransport.Serialization.Stream.{ok}
use xrtransport.Serialization.Chain.{Table, deserialize_xr}
use xrtransport.Serialization.Chains.{IsTable, Prepared}
use xrtransport.Serialization.Word.{deserialize_word}
use xrtransport.Serialization.Wire.{Lands, last-Lands, scalar-Lands, scalar_first}
use xrtransport.Structs.Rows.{next-Lands, next_first}
use xrtransport.Structs.Images.{
  SwapchainCreateInfo, serialize_xr_swapchain_create_info, deserialize_xr_swapchain_create_info,
  SwapchainImageAcquireInfo, serialize_xr_swapchain_image_acquire_info,
  deserialize_xr_swapchain_image_acquire_info, SwapchainImageReleaseInfo,
  serialize_xr_swapchain_image_release_info, deserialize_xr_swapchain_image_release_info,
  SwapchainImageWaitInfo, serialize_xr_swapchain_image_wait_info,
  deserialize_xr_swapchain_image_wait_info,
}

module _ {P : Type 0} (Ready : ℕ → P → P → Type 0) (table : Table P) (t : IsTable Ready table) where
  pub serialize_xr_swapchain_create_info-Lands :
      (in_place : Bool) (old s : SwapchainCreateInfo P)
      → Prepared Ready table in_place old.next s.next
      → Lands
          (serialize_xr_swapchain_create_info table s)
          (deserialize_xr_swapchain_create_info table in_place old)
          (ok s)
  unfolding serialize_xr_swapchain_create_info deserialize_xr_swapchain_create_info
  serialize_xr_swapchain_create_info-Lands in_place old s p = scalar_first s.type _ (
      next_first Ready table t in_place old.next s.next _ p (
        scalar_first s.create_flags _ (
          scalar_first s.usage_flags _ (
            scalar_first s.format _ (
              scalar_first s.sample_count _ (
                scalar_first s.width _ (
                  scalar_first s.height _ (
                    scalar_first s.face_count _ (
                      scalar_first s.array_size _ (
                        last-Lands (deserialize_word 4) (ok s.mip_count)
                          (λ x. record s { mip_count = x }) (scalar-Lands s.mip_count)))))))))))

  pub serialize_xr_swapchain_image_acquire_info-Lands :
      (in_place : Bool) (old s : SwapchainImageAcquireInfo P)
      → Prepared Ready table in_place old.next s.next
      → Lands
          (serialize_xr_swapchain_image_acquire_info table s)
          (deserialize_xr_swapchain_image_acquire_info table in_place old)
          (ok s)
  unfolding serialize_xr_swapchain_image_acquire_info deserialize_xr_swapchain_image_acquire_info
  serialize_xr_swapchain_image_acquire_info-Lands in_place old s p = scalar_first s.type _ (
      last-Lands (deserialize_xr table in_place old.next) (ok s.next) (λ x. record s { next = x })
        (next-Lands Ready table t in_place old.next s.next p))

  pub serialize_xr_swapchain_image_release_info-Lands :
      (in_place : Bool) (old s : SwapchainImageReleaseInfo P)
      → Prepared Ready table in_place old.next s.next
      → Lands
          (serialize_xr_swapchain_image_release_info table s)
          (deserialize_xr_swapchain_image_release_info table in_place old)
          (ok s)
  unfolding serialize_xr_swapchain_image_release_info deserialize_xr_swapchain_image_release_info
  serialize_xr_swapchain_image_release_info-Lands in_place old s p = scalar_first s.type _ (
      last-Lands (deserialize_xr table in_place old.next) (ok s.next) (λ x. record s { next = x })
        (next-Lands Ready table t in_place old.next s.next p))

  pub serialize_xr_swapchain_image_wait_info-Lands :
      (in_place : Bool) (old s : SwapchainImageWaitInfo P)
      → Prepared Ready table in_place old.next s.next
      → Lands
          (serialize_xr_swapchain_image_wait_info table s)
          (deserialize_xr_swapchain_image_wait_info table in_place old)
          (ok s)
  unfolding serialize_xr_swapchain_image_wait_info deserialize_xr_swapchain_image_wait_info
  serialize_xr_swapchain_image_wait_info-Lands in_place old s p = scalar_first s.type _ (
      next_first Ready table t in_place old.next s.next _ p (
        last-Lands (deserialize_word 8) (ok s.timeout) (λ x. record s { timeout = x })
          (scalar-Lands s.timeout)))
