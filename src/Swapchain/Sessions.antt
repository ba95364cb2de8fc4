-- ===== src/Swapchain/Sessions.antt =====
-- src/modules/vulkan/client/vulkan_core.cpp: how the sessions and swapchains of the client are
-- created and destroyed, and the calls on a swapchain by its handle.
use xrtransport.Common.{
  ℕ, Bool, true, false, ◌&&◌, ◌||◌, not, List, [], ◌∷◌, Option, none, some, ◌==◌, if◌then◌else◌,
}
use mathlib.Core.Option
use xrtransport.Xr.{
  XrResult, success, error_handle_invalid, error_runtime_failure, error_validation_failure,
  other_error,
}
use xrtransport.Swapchain.State.{Vulkan, SwapchainImage, Outcome}
use xrtransport.Swapchain.Defs.{acquire, wait, release}
use xrtransport.Swapchain.Store.{
  insert, Swapchain, Session, Store, get_swapchain_state, get_session_state, store_swapchain_state,
  store_session_state, without_swapchain, set_swapchains, set_ring,
}

-- The Vulkan functions that return nothing.
pub data VulkanCall : Type 0 where
  queue_wait_idle : ℕ → VulkanCall
  free_command_buffers : ℕ → ℕ → ℕ → VulkanCall
  destroy_image free_memory destroy_semaphore destroy_fence : ℕ → ℕ → VulkanCall
  destroy_command_pool : ℕ → ℕ → VulkanCall

-- What the server is told, and answers that it is done.
pub data Request : Type 0 where
  destroys_swapchain destroys_session : ℕ → Request
  releases_image : ℕ → ℕ → Request

-- What the server answers when it is to create a swapchain: a result that is not XR_SUCCESS, or a
-- handle.
pub data Created : Type 0 where
  refuses : XrResult → Created
  creates : ℕ → Created

-- Vulkan, the transport and the handle exchange, over a state `W` of theirs. `none`, and `false` of
-- `exchange`, stand for an exception. `imports` is import_images with create_image for each image.
pub record World (W : Type 0) : Type 0 where
  pub calls : VulkanCall → W → W
  pub exchange : Request → W → Bool × W
  pub asks_swapchain : ℕ → W → Option Created × W
  pub imports : ℕ → W → Option (List SwapchainImage) × W
  pub asks_session : W → Option ℕ × W
  pub creates_command_pool : ℕ → W → Option ℕ × W

-- The function of the next layer, with its arguments, or null.
abbrev pub Next : Type 0 → Type 0
Next W = Option (W → XrResult × W)

-- What a function returns, the handle or index that it stores, and the states after it.
pub record Reply (W : Type 0) : Type 0 where
  pub result : XrResult
  pub stored : Option ℕ
  pub store : Store
  pub world : W

-- The flags of `XrSwapchainCreateInfo` that the code tests.
pub record SwapchainCreateInfo : Type 0 where
  pub color : Bool
  pub depth_stencil : Bool
  pub is_static : Bool

-- XR_ERROR_GRAPHICS_DEVICE_INVALID and XR_ERROR_GRAPHICS_REQUIREMENTS_CALL_MISSING
abbrev error_graphics_device_invalid : XrResult
error_graphics_device_invalid = other_error 38

abbrev error_graphics_requirements_call_missing : XrResult
error_graphics_requirements_call_missing = other_error 50

module _ {W : Type 0} where
  abbrev pub ends : XrResult → Store → W → Reply W
  ends result st w = record { result = result; stored = none; store = st; world = w }

  -- The next layer's answer for a handle that is not there.
  unfoldable pub forward : Next W → XrResult → Store → W → Reply W
  forward none otherwise st w = ends otherwise st w
  forward (some next) otherwise st w = let (result, w') = next w in ends result st w'

  unfoldable pub finished : Store → Bool × W → Reply W
  finished st (true, w) = ends success st w
  finished st (false, w) = ends error_runtime_failure st w

  -- The pool exists or not.
  unfoldable pub session_pooled : ℕ → ℕ → ℕ → Store → Option ℕ × W → Reply W
  session_pooled handle device queue st (none, w) = ends error_runtime_failure st w
  session_pooled handle device queue st (some command_pool, w) = record {
    result = success;
    stored = some handle;
    store = store_session_state handle device queue command_pool st;
    world = w;
  }

  -- What a call on the ring gives.
  unfoldable pub called : ℕ → Swapchain → Store → Outcome W → Reply W
  unfolding set_ring
  called swapchain c st o = record {
    result = o.result;
    stored = o.index_out;
    store = set_ring swapchain c o.state st;
    world = o.driver;
  }

module _ {W : Type 0} (world : World W) where
  -- The images are there: the swapchain is stored, and listed in its session.
  unfoldable pub swapchain_imported :
      ℕ → Session → SwapchainCreateInfo → ℕ → Store → Option (List SwapchainImage) × W → Reply W
  swapchain_imported session s info handle st (none, w) = ends error_runtime_failure st w
  swapchain_imported session s info handle st (some images, w) =
      elim (store_swapchain_state handle session images info.is_static st) [
        | none ↦ ends error_runtime_failure st w
        | some st' ↦ record {
          result = success;
          stored = some handle;
          store = set_swapchains session s (insert handle s.swapchains) st';
          world = w;
        }
      ]

  -- The usage is tested once the server has created the swapchain.
  unfoldable pub swapchain_answered :
      ℕ → Session → SwapchainCreateInfo → Store → Option Created × W → Reply W
  unfolding swapchain_imported
  swapchain_answered session s info st (none, w) = ends error_runtime_failure st w
  swapchain_answered session s info st (some (refuses result), w) = ends result st w
  swapchain_answered session s info st (some (creates handle), w) =
      if info.color && info.depth_stencil
      then ends error_validation_failure st w
      else if info.color || info.depth_stencil
      then swapchain_imported session s info handle st (world.imports handle w)
      else ends error_validation_failure st w

  unfoldable pub create_swapchain : Next W → ℕ → SwapchainCreateInfo → Store → W → Reply W
  unfolding swapchain_answered
  create_swapchain next session info st w = elim (get_session_state session st) [
    | none ↦ forward next error_handle_invalid st w
    | some s ↦ swapchain_answered session s info st (world.asks_swapchain session w)
  ]

  unfoldable pub destroy_images : Session → List SwapchainImage → W → W
  destroy_images s [] w = w
  destroy_images s (i ∷ is) w =
      let w1 =
        world.calls (free_command_buffers s.device s.command_pool i.acquire_command_buffer) w in
      let w2 =
        world.calls (free_command_buffers s.device s.command_pool i.release_command_buffer) w1 in
      let w3 = world.calls (destroy_image s.device i.image) w2 in
      let w4 = world.calls (free_memory s.device i.memory) w3 in
      let w5 = world.calls (destroy_semaphore s.device i.rendering_done) w4 in
      let w6 = world.calls (destroy_semaphore s.device i.copying_done) w5 in
      destroy_images s is (world.calls (destroy_fence s.device i.copying_done_fence) w6)

  unfoldable pub destroy_swapchain : Next W → ℕ → Store → W → Reply W
  unfolding destroy_images
  destroy_swapchain next swapchain st w = elim (get_swapchain_state swapchain st) [
    | none ↦ forward next error_handle_invalid st w
    | some c ↦ elim (get_session_state c.parent_handle st) [
      | none ↦ ends error_runtime_failure st w
      | some s ↦
          let w' = destroy_images s c.ring.images (world.calls (queue_wait_idle s.queue) w) in
          finished (without_swapchain swapchain c.parent_handle s st)
            (world.exchange (destroys_swapchain swapchain) w')
    ]
  ]

  unfoldable pub session_answered : ℕ → ℕ → Store → Option ℕ × W → Reply W
  unfolding session_pooled
  session_answered device queue st (none, w) = ends error_runtime_failure st w
  session_answered device queue st (some handle, w) =
      session_pooled handle device queue st (world.creates_command_pool device w)

  -- The binding is the device and the queue that `find_graphics_binding` leads to, if any.
  unfoldable pub create_session : Next W → ℕ → Bool → ℕ → Option (ℕ × ℕ) → Store → W → Reply W
  unfolding session_answered
  create_session next saved_xr_instance graphics_requirements_called instance_ none st w =
      forward next error_graphics_device_invalid st w
  create_session next saved_xr_instance graphics_requirements_called instance_ (some b) st w =
      if not (instance_ == saved_xr_instance)
      then ends error_handle_invalid st w
      else if not graphics_requirements_called
      then ends error_graphics_requirements_call_missing st w
      else session_answered b.0 b.1 st (world.asks_session w)

  -- What the calls return does not matter.
  unfoldable pub destroy_swapchains : Next W → List ℕ → Store → W → Store × W
  destroy_swapchains next [] st w = (st, w)
  destroy_swapchains next (swapchain ∷ swapchains) st w =
      let r = destroy_swapchain next swapchain st w in
      destroy_swapchains next swapchains r.store r.world

  -- The handles are copied first. The session's state stays in the map.
  unfoldable pub destroy_session : Next W → Next W → ℕ → Store → W → Reply W
  unfolding destroy_swapchains
  destroy_session next next_swapchain session st w = elim (get_session_state session st) [
    | none ↦ forward next error_handle_invalid st w
    | some s ↦
        let (st', w') = destroy_swapchains next_swapchain s.swapchains st w in
        finished st' (
          world.exchange (destroys_session session)
            (world.calls (destroy_command_pool s.device s.command_pool) w'))
  ]

  -- The server is told which image is released. The index goes to it only.
  unfoldable pub released : ℕ → XrResult → Option ℕ → Store → W → Reply W
  released swapchain success none st w = finished st (world.exchange (releases_image swapchain 0) w)
  released swapchain success (some index) st w =
      finished st (world.exchange (releases_image swapchain index) w)
  released swapchain result index st w = ends result st w

module _ {W : Type 0} (world : World W) (vk : Vulkan W) where
  -- `none` is undefined behaviour of the ring.
  unfoldable pub acquire_swapchain_image : Next W → ℕ → Store → W → Option (Reply W)
  unfolding called
  acquire_swapchain_image next swapchain st w = elim (get_swapchain_state swapchain st) [
    | none ↦ some (forward next error_handle_invalid st w)
    | some c ↦ Option.map (called swapchain c st) (acquire vk c.ring w)
  ]

  unfoldable pub wait_swapchain_image : Next W → ℕ → ℕ → Store → W → Option (Reply W)
  unfolding called
  wait_swapchain_image next swapchain timeout st w = elim (get_swapchain_state swapchain st) [
    | none ↦ some (forward next error_handle_invalid st w)
    | some c ↦ Option.map (called swapchain c st) (wait vk c.ring timeout w)
  ]

  unfoldable pub release_swapchain_image : Next W → ℕ → Store → W → Option (Reply W)
  unfolding released set_ring
  release_swapchain_image next swapchain st w = elim (get_swapchain_state swapchain st) [
    | none ↦ some (forward next error_handle_invalid st w)
    | some c ↦ elim (get_session_state c.parent_handle st) [
      | none ↦ some (ends error_runtime_failure st w)
      | some s ↦
          Option.map
            (λ o.
              released world swapchain o.result o.index_out (set_ring swapchain c o.state st)
                o.driver)
            (release vk c.ring w)
    ]
  ]
