-- ===== src/Structs/Images.antt =====
-- Swapchain images: their functions in src/common/serialization/serializer.cpp and deserializer.cpp.
use xrtransport.Common.{ℕ, Bool, false, List}
use xrtransport.Serialization.Stream.{Result, Reader, pure, ◌>>=◌}
use xrtransport.Serialization.Chain.{Chain, Table, serialize_xr, deserialize_xr}
use xrtransport.Serialization.Word.{Word, deserialize_word}
use xrtransport.Serialization.Wire.{◌⊕◌, scalar}

-- XrSwapchainCreateInfo
pub record SwapchainCreateInfo (P : Type 0) : Type 0 where
  pub type : Word 4
  pub next : Chain P
  pub create_flags : Word 8
  pub usage_flags : Word 8
  pub format : Word 8
  pub sample_count : Word 4
  pub width : Word 4
  pub height : Word 4
  pub face_count : Word 4
  pub array_size : Word 4
  pub mip_count : Word 4

-- XrSwapchainImageAcquireInfo
pub record SwapchainImageAcquireInfo (P : Type 0) : Type 0 where
  pub type : Word 4
  pub next : Chain P

-- XrSwapchainImageReleaseInfo
pub record SwapchainImageReleaseInfo (P : Type 0) : Type 0 where
  pub type : Word 4
  pub next : Chain P

-- XrSwapchainImageWaitInfo
pub record SwapchainImageWaitInfo (P : Type 0) : Type 0 where
  pub type : Word 4
  pub next : Chain P
  pub timeout : Word 8

module _ {P : Type 0} (table : Table P) where
  unfoldable pub serialize_xr_swapchain_create_info : SwapchainCreateInfo P → Result (List ℕ)
  serialize_xr_swapchain_create_info s =
      scalar s.type
      ⊕ serialize_xr table false s.next
      ⊕ scalar s.create_flags
      ⊕ scalar s.usage_flags
      ⊕ scalar s.format
      ⊕ scalar s.sample_count
      ⊕ scalar s.width
      ⊕ scalar s.height
      ⊕ scalar s.face_count
      ⊕ scalar s.array_size
      ⊕ scalar s.mip_count

  unfoldable pub deserialize_xr_swapchain_create_info :
      Bool → SwapchainCreateInfo P → Reader (SwapchainCreateInfo P)
  deserialize_xr_swapchain_create_info in_place old = do
    type ← deserialize_word 4
    next ← deserialize_xr table in_place old.next
    create_flags ← deserialize_word 8
    usage_flags ← deserialize_word 8
    format ← deserialize_word 8
    sample_count ← deserialize_word 4
    width ← deserialize_word 4
    height ← deserialize_word 4
    face_count ← deserialize_word 4
    array_size ← deserialize_word 4
    mip_count ← deserialize_word 4
    pure (record {
      type = type;
      next = next;
      create_flags = create_flags;
      usage_flags = usage_flags;
      format = format;
      sample_count = sample_count;
      width = width;
      height = height;
      face_count = face_count;
      array_size = array_size;
      mip_count = mip_count;
    })

  unfoldable pub serialize_xr_swapchain_image_acquire_info :
      SwapchainImageAcquireInfo P → Result (List ℕ)
  serialize_xr_swapchain_image_acquire_info s = scalar s.type ⊕ serialize_xr table false s.next

  unfoldable pub deserialize_xr_swapchain_image_acquire_info :
      Bool → SwapchainImageAcquireInfo P → Reader (SwapchainImageAcquireInfo P)
  deserialize_xr_swapchain_image_acquire_info in_place old = do
    type ← deserialize_word 4
    next ← deserialize_xr table in_place old.next
    pure (record { type = type; next = next })

  unfoldable pub serialize_xr_swapchain_image_release_info :
      SwapchainImageReleaseInfo P → Result (List ℕ)
  serialize_xr_swapchain_image_release_info s = scalar s.type ⊕ serialize_xr table false s.next

  unfoldable pub deserialize_xr_swapchain_image_release_info :
      Bool → SwapchainImageReleaseInfo P → Reader (SwapchainImageReleaseInfo P)
  deserialize_xr_swapchain_image_release_info in_place old = do
    type ← deserialize_word 4
    next ← deserialize_xr table in_place old.next
    pure (record { type = type; next = next })

  unfoldable pub serialize_xr_swapchain_image_wait_info : SwapchainImageWaitInfo P → Result (List ℕ)
  serialize_xr_swapchain_image_wait_info s =
      scalar s.type ⊕ serialize_xr table false s.next ⊕ scalar s.timeout

  unfoldable pub deserialize_xr_swapchain_image_wait_info :
      Bool → SwapchainImageWaitInfo P → Reader (SwapchainImageWaitInfo P)
  deserialize_xr_swapchain_image_wait_info in_place old = do
    type ← deserialize_word 4
    next ← deserialize_xr table in_place old.next
    timeout ← deserialize_word 8
    pure (record { type = type; next = next; timeout = timeout })
