-- ===== src/Swapchain/Single.antt =====
-- A swapchain of one image, as every static swapchain has. The wait head cannot be one ahead of the
-- release head in a ring of one, so the order of wait and release is not kept.
use xrtransport.Common.{ℕ, ◌<◌, ◌≡◌, ◌≢◌, true, false, [], ◌∷◌, none, some, arith}
use xrtransport.Xr.{success, error_call_order_invalid, error_runtime_failure}
use xrtransport.Swapchain.State.{
  Vulkan, release_info, acquire_info, vk_success, SwapchainImage, SwapchainState,
}
use xrtransport.Swapchain.Defs.{
  acquired_state, acquire_reply, acquire_image, acquire, wait_reply, wait_image, wait,
  release_reply, release_submit, release_image, release,
}
use xrtransport.Swapchain.Order.{IsValid, Returns}
use xrtransport.Swapchain.Refine.{IsReliable}

module _ {D : Type 0} (vk : Vulkan D) (ok : IsReliable vk) (s : SwapchainState) (v : IsValid s)
    (i : SwapchainImage) (single : s.images ≡ i ∷ []) (held : 0 < s.num_acquired) where
  -- With one image, which is acquired, `release` succeeds whether or not the image was waited for,
  -- and after a successful `wait` another `wait` succeeds too.
  pub release_unwaited :
      (t : ℕ) (d : D)
      → Returns (λ o. o.result ≡ success) (release vk s d)
        × Returns
            (λ o.
              (o.result ≡ success) × Returns (λ p. p.result ≡ success) (wait vk o.state t o.driver))
            (wait vk s t d)
  unfolding release release_image release_submit release_reply wait wait_image wait_reply
  release_unwaited t d = (
    ground (
      arith,
      single,
      ok.resets i.copying_done_fence d,
      ok.submits (release_info i) none (vk.reset_fences i.copying_done_fence d).1,
    ),
    ground (
      arith,
      single,
      ok.waits_for i.copying_done_fence t d,
      ok.waits_for i.copying_done_fence t (vk.wait_for_fences i.copying_done_fence t d).1,
    ),
  )

module _ {D : Type 0} (vk : Vulkan D) (s : SwapchainState) (i : SwapchainImage)
    (single : s.images ≡ i ∷ []) (at_zero : s.acquire_head ≡ 0) (free : s.num_acquired ≡ 0)
    (static : s.is_static ≡ true) (fresh : i.has_been_acquired ≡ false) where
  -- In a static swapchain whose one image was never acquired, an `acquire` whose submission fails marks
  -- the image as acquired all the same: it hands out no index, and the `acquire` behind it is refused,
  -- whatever the driver's state is then.
  pub acquire_lost :
      (d : D)
      → (vk.queue_submit (acquire_info i) (some i.copying_done_fence) d).0 ≢ vk_success
      → Returns
          (λ o.
            (o.result ≡ error_runtime_failure)
            × (o.index_out ≡ none)
            × (o.state.num_acquired ≡ 0)
            × ((d' : D)
                → Returns
                    (λ p. (p.result ≡ error_call_order_invalid) × (p.index_out ≡ none))
                    (acquire vk o.state d')))
          (acquire vk s d)
  unfolding acquire acquire_image acquire_reply acquired_state
  acquire_lost d bad = ground (arith, single, at_zero)
