-- ===== src/Rpc/Agree/Swapchains.antt =====
-- Swapchains: each function of the client fits its handler on the server.
use xrtransport.Common.{refl, arith}
use xrtransport.Serialization.Stream.{ok, bind}
use xrtransport.Serialization.Pointers.{received, placed}
use xrtransport.Serialization.Wire.{
  word, new_pointer, last-Lands, new_words-Lands, WordsReady, words_in_place-Lands, scalar_first,
}
use xrtransport.Rpc.Pieces.{below_2^32, SharedStruct, received_structs, both-Lands, words_first}
use xrtransport.Rpc.Transparent.{Agrees}
use xrtransport.Rpc.Shapes.{AgreesPlainly, scalar_call, struct_call, create_call}
use xrtransport.Rpc.Swapchains.{
  xr_enumerate_swapchain_formats, handle_xr_enumerate_swapchain_formats, xr_create_swapchain,
  handle_xr_create_swapchain, xr_acquire_swapchain_image, handle_xr_acquire_swapchain_image,
  xr_wait_swapchain_image, handle_xr_wait_swapchain_image, xr_release_swapchain_image,
  handle_xr_release_swapchain_image, xr_destroy_swapchain, handle_xr_destroy_swapchain,
}

pub xr_enumerate_swapchain_formats-Agrees :
    Agrees xr_enumerate_swapchain_formats handle_xr_enumerate_swapchain_formats
      (λ a. Unit)
      (λ a o. WordsReady a.2 o.0 1 × WordsReady a.3 o.1 a.1.value)
      (λ a. (a.0, a.1, received a.2 1, received a.3 a.1.value))
      (λ a o. bind (placed a.2 o.0 1) (λ x. bind (placed a.3 o.1 a.1.value) (λ y. ok (x, y))))
unfolding xr_enumerate_swapchain_formats handle_xr_enumerate_swapchain_formats
xr_enumerate_swapchain_formats-Agrees = record {
  same_function = refl;
  id_fits = omega arith;
  sends = λ a s. scalar_first a.0 _ (
      scalar_first a.1 _ (
        words_first a.2 1 _ (omega arith) (
          last-Lands (new_pointer (word 8)) (ok (received a.3 a.1.value))
            (λ x. (a.0, a.1, received a.2 1, x))
            (new_words-Lands a.3 a.1.value (below_2^32 a.1)))));
  answers = λ a o s r.
      both-Lands (words_in_place-Lands a.2 o.0 1 (omega arith) r.0)
        (words_in_place-Lands a.3 o.1 a.1.value (below_2^32 a.1) r.1);
}

pub xr_create_swapchain-Agrees :
    {SwapchainCreateInfo : Type 0} (swapchain_create_info : SharedStruct SwapchainCreateInfo)
    → Agrees
        (xr_create_swapchain swapchain_create_info.client)
        (handle_xr_create_swapchain swapchain_create_info.server)
        (λ a. Unit)
        (λ a o. WordsReady a.2 o 1)
        (λ a. (a.0, received_structs swapchain_create_info a.1 1, received a.2 1))
        (λ a o. placed a.2 o 1)
unfolding xr_create_swapchain handle_xr_create_swapchain
xr_create_swapchain-Agrees swapchain_create_info =
    create_call 12 (omega arith) swapchain_create_info

pub xr_acquire_swapchain_image-Agrees :
    {SwapchainImageAcquireInfo : Type 0}
    (swapchain_image_acquire_info : SharedStruct SwapchainImageAcquireInfo)
    → Agrees
        (xr_acquire_swapchain_image swapchain_image_acquire_info.client)
        (handle_xr_acquire_swapchain_image swapchain_image_acquire_info.server)
        (λ a. Unit)
        (λ a o. WordsReady a.2 o 1)
        (λ a. (a.0, received_structs swapchain_image_acquire_info a.1 1, received a.2 1))
        (λ a o. placed a.2 o 1)
unfolding xr_acquire_swapchain_image handle_xr_acquire_swapchain_image
xr_acquire_swapchain_image-Agrees swapchain_image_acquire_info =
    create_call 1 (omega arith) swapchain_image_acquire_info

pub xr_wait_swapchain_image-Agrees :
    {SwapchainImageWaitInfo : Type 0}
    (swapchain_image_wait_info : SharedStruct SwapchainImageWaitInfo)
    → Agrees
        (xr_wait_swapchain_image swapchain_image_wait_info.client)
        (handle_xr_wait_swapchain_image swapchain_image_wait_info.server)
        (λ a. Unit)
        (λ a o. Unit)
        (λ a. (a.0, received_structs swapchain_image_wait_info a.1 1))
        (λ a o. ok tt)
unfolding xr_wait_swapchain_image handle_xr_wait_swapchain_image
xr_wait_swapchain_image-Agrees swapchain_image_wait_info =
    struct_call 55 (omega arith) swapchain_image_wait_info

pub xr_release_swapchain_image-Agrees :
    {SwapchainImageReleaseInfo : Type 0}
    (swapchain_image_release_info : SharedStruct SwapchainImageReleaseInfo)
    → Agrees
        (xr_release_swapchain_image swapchain_image_release_info.client)
        (handle_xr_release_swapchain_image swapchain_image_release_info.server)
        (λ a. Unit)
        (λ a o. Unit)
        (λ a. (a.0, received_structs swapchain_image_release_info a.1 1))
        (λ a o. ok tt)
unfolding xr_release_swapchain_image handle_xr_release_swapchain_image
xr_release_swapchain_image-Agrees swapchain_image_release_info =
    struct_call 46 (omega arith) swapchain_image_release_info

pub xr_destroy_swapchain-Agrees : AgreesPlainly xr_destroy_swapchain handle_xr_destroy_swapchain
unfolding xr_destroy_swapchain handle_xr_destroy_swapchain
xr_destroy_swapchain-Agrees = scalar_call 18 (omega arith)
