-- ===== src/Swapchain/Defs.antt =====
-- src/modules/vulkan/client/session_state.cpp: the client's view of a swapchain, whose images are
-- acquired, waited for and released in a ring.
use xrtransport.Common.{
  ℕ, ◌+◌, ◌-◌, ◌%◌, ◌^◌, true, ◌&&◌, not, List, [], ◌∷◌, Option, none, some, length, get_elem?, set,
  leb, ◌==◌, if◌then◌else◌,
}
use mathlib.Core.Option
use xrtransport.Xr.{
  XrResult, success, timeout_expired, error_call_order_invalid, error_runtime_failure,
}
use xrtransport.Swapchain.State.{
  VkResult, vk_success, vk_timeout, vk_error, Vulkan, SwapchainImage, SwapchainState, Outcome,
  next_head, acquire_info, release_info,
}

module _ {D : Type 0} (vk : Vulkan D) where
  -- `has_been_acquired` is set before the submission, whose failure leaves it set.
  unfoldable pub acquired_state : SwapchainState → SwapchainImage → SwapchainState
  acquired_state s i = record s {
    images = set s.images s.acquire_head (record i { has_been_acquired = true });
  }

  unfoldable pub acquire_reply : SwapchainState → VkResult × D → Outcome D
  acquire_reply s (vk_success, d) = record {
    result = success;
    index_out = some s.acquire_head;
    state = record s {
      acquire_head = next_head s.acquire_head (length s.images);
      num_acquired = (s.num_acquired + 1) % 2 ^ 32;
    };
    driver = d;
  }
  acquire_reply s (vk_timeout, d) = record {
    result = error_runtime_failure;
    index_out = none;
    state = s;
    driver = d;
  }
  acquire_reply s (vk_error c, d) = record {
    result = error_runtime_failure;
    index_out = none;
    state = s;
    driver = d;
  }

  abbrev pub refused : SwapchainState → D → Outcome D
  refused s d = record {
    result = error_call_order_invalid;
    index_out = none;
    state = s;
    driver = d;
  }

  unfoldable pub acquire_image : SwapchainState → Option SwapchainImage → D → Option (Outcome D)
  unfolding acquired_state acquire_reply
  acquire_image s none d = none
  acquire_image s (some i) d =
      if s.is_static && i.has_been_acquired
      then some (refused s d)
      else some (
          acquire_reply (acquired_state s i)
            (vk.queue_submit (acquire_info i) (some i.copying_done_fence) d))

  -- `none` stands for undefined behaviour: an image read outside the vector.
  unfoldable pub acquire : SwapchainState → D → Option (Outcome D)
  unfolding acquire_image
  acquire s d =
      if leb (length s.images) s.num_acquired
      then some (refused s d)
      else acquire_image s (get_elem? s.images s.acquire_head) d

  unfoldable pub wait_reply : SwapchainState → VkResult × D → Outcome D
  wait_reply s (vk_success, d) = record {
    result = success;
    index_out = none;
    state = record s { wait_head = next_head s.wait_head (length s.images) };
    driver = d;
  }
  wait_reply s (vk_timeout, d) = record {
    result = timeout_expired;
    index_out = none;
    state = s;
    driver = d;
  }
  wait_reply s (vk_error c, d) = record {
    result = error_runtime_failure;
    index_out = none;
    state = s;
    driver = d;
  }

  unfoldable pub wait_image : SwapchainState → ℕ → Option SwapchainImage → D → Option (Outcome D)
  unfolding wait_reply
  wait_image s timeout none d = none
  wait_image s timeout (some i) d =
      some (wait_reply s (vk.wait_for_fences i.copying_done_fence timeout d))

  unfoldable pub wait : SwapchainState → ℕ → D → Option (Outcome D)
  unfolding wait_image
  wait s timeout d =
      if s.num_acquired == 0
      then some (refused s d)
      else if not (s.wait_head == s.release_head)
      then some (refused s d)
      else wait_image s timeout (get_elem? s.images s.wait_head) d

  unfoldable pub release_reply : SwapchainState → VkResult × D → Outcome D
  release_reply s (vk_success, d) = record {
    result = success;
    index_out = some s.release_head;
    state = record s {
      release_head = next_head s.release_head (length s.images);
      num_acquired = s.num_acquired - 1;
    };
    driver = d;
  }
  release_reply s (vk_timeout, d) = record {
    result = error_runtime_failure;
    index_out = none;
    state = s;
    driver = d;
  }
  release_reply s (vk_error c, d) = record {
    result = error_runtime_failure;
    index_out = none;
    state = s;
    driver = d;
  }

  unfoldable pub release_submit : SwapchainState → SwapchainImage → VkResult × D → Outcome D
  unfolding release_reply
  release_submit s i (vk_success, d) = release_reply s (vk.queue_submit (release_info i) none d)
  release_submit s i (vk_timeout, d) = record {
    result = error_runtime_failure;
    index_out = none;
    state = s;
    driver = d;
  }
  release_submit s i (vk_error c, d) = record {
    result = error_runtime_failure;
    index_out = none;
    state = s;
    driver = d;
  }

  unfoldable pub release_image : SwapchainState → Option SwapchainImage → D → Option (Outcome D)
  unfolding release_submit
  release_image s none d = none
  release_image s (some i) d = some (release_submit s i (vk.reset_fences i.copying_done_fence d))

  -- `num_acquired -= 1` runs only where it is not 0.
  unfoldable pub release : SwapchainState → D → Option (Outcome D)
  unfolding release_image
  release s d =
      if s.num_acquired == 0
      then some (refused s d)
      else if not (s.wait_head == next_head s.release_head (length s.images))
      then some (refused s d)
      else release_image s (get_elem? s.images s.release_head) d

-- A client's calls on one swapchain, in order.
pub data Call : Type 0 where
  acquires releases : Call
  waits : ℕ → Call

module _ {D : Type 0} (vk : Vulkan D) where
  unfoldable pub step : SwapchainState → Call → D → Option (Outcome D)
  step s acquires d = acquire vk s d
  step s (waits timeout) d = wait vk s timeout d
  step s releases d = release vk s d

  -- What a client sees of a sequence of calls; `none` is undefined behaviour.
  unfoldable pub run : SwapchainState → List Call → D → Option (List (XrResult × Option ℕ))
  run s [] d = some []
  run s (c ∷ cs) d = elim (step s c d) [
    | none ↦ none
    | some o ↦ Option.map (λ rs. (o.result, o.index_out) ∷ rs) (run o.state cs o.driver)
  ]
