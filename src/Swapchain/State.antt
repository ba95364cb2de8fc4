-- ===== src/Swapchain/State.antt =====
-- src/modules/vulkan/client/session_state.h with the constructor and the submissions of
-- src/modules/vulkan/client/session_state.cpp. Vulkan calls are the parameter `Vulkan`.
use xrtransport.Common.{ℕ, ◌+◌, ◌%◌, ◌^◌, Bool, List, Option, none, some, if◌then◌else◌}
use xrtransport.Xr.{XrResult}

-- `VkResult`: VK_SUCCESS, VK_TIMEOUT, and any other code.
pub data VkResult : Type 0 where
  vk_success vk_timeout : VkResult
  vk_error : ℕ → VkResult

-- `VkSubmitInfo`, with the command buffer and the semaphores that the code sets.
pub record SubmitInfo : Type 0 where
  pub command_buffer : ℕ
  pub wait_semaphore : Option ℕ
  pub signal_semaphore : Option ℕ

-- The Vulkan functions that `SwapchainState` calls through `vk`. The driver's own state is `D`; a
-- fence of `none` is VK_NULL_HANDLE.
pub record Vulkan (D : Type 0) : Type 0 where
  pub queue_submit : SubmitInfo → Option ℕ → D → VkResult × D
  pub wait_for_fences : ℕ → ℕ → D → VkResult × D
  pub reset_fences : ℕ → D → VkResult × D

pub record SwapchainImage : Type 0 where
  pub image : ℕ
  pub memory : ℕ
  pub rendering_done : ℕ
  pub copying_done : ℕ
  pub copying_done_fence : ℕ
  pub acquire_command_buffer : ℕ
  pub release_command_buffer : ℕ
  pub has_been_acquired : Bool

pub record SwapchainState : Type 0 where
  pub images : List SwapchainImage
  pub num_acquired : ℕ
  pub acquire_head : ℕ
  pub wait_head : ℕ
  pub release_head : ℕ
  pub is_static : Bool

-- The constructor: the three heads and the count start at 0.
unfoldable pub init : List SwapchainImage → Bool → SwapchainState
init images is_static = record {
  images = images;
  num_acquired = 0;
  acquire_head = 0;
  wait_head = 0;
  release_head = 0;
  is_static = is_static;
}

-- What a call returns, what it stores through `index_out`, and the states after it.
pub record Outcome (D : Type 0) : Type 0 where
  pub result : XrResult
  pub index_out : Option ℕ
  pub state : SwapchainState
  pub driver : D

-- `(head + 1) % images.size()`: the sum is taken in `uint32_t`.
abbrev pub next_head : ℕ → ℕ → ℕ
next_head head n = (head + 1) % 2 ^ 32 % n

-- The submission of `acquire`: it waits for the copy of the image's last frame, if there was one.
abbrev pub acquire_info : SwapchainImage → SubmitInfo
acquire_info i = record {
  command_buffer = i.acquire_command_buffer;
  wait_semaphore = if i.has_been_acquired then some i.copying_done else none;
  signal_semaphore = none;
}

-- The submission of `release`.
abbrev pub release_info : SwapchainImage → SubmitInfo
release_info i = record {
  command_buffer = i.release_command_buffer;
  wait_semaphore = none;
  signal_semaphore = some i.rendering_done;
}
