-- ===== src/Swapchain/StoreTests.antt =====
-- Two sessions with a swapchain each.
use xrtransport.Common.{ℕ, ◌+◌, ◌≡◌, refl, true, false, ◌==◌, [], ◌∷◌, none, some}
use xrtransport.Common.Dict.{find, erase, assign, emplace}
use xrtransport.Swapchain.State.{vk_success, Vulkan, SwapchainImage, init}
use xrtransport.Swapchain.Store.{
  has, insert, remove, Swapchain, Session, Store, store_swapchain_state, store_session_state,
  destroy_swapchain_state, set_swapchains, without_swapchain,
}
use xrtransport.Swapchain.Sessions.{
  World, creates, SwapchainCreateInfo, swapchain_imported, swapchain_answered, create_swapchain,
  destroy_swapchain, destroy_images, session_pooled, session_answered, create_session,
  destroy_swapchains, destroy_session, finished,
}
use xrtransport.Swapchain.Reached.{
  Reached, starts, creates_swapchain, creates_session, Reached-IsLinked,
  create_session-destroy_session, find-destroy_session,
}

abbrev driver : Vulkan ℕ
driver = record {
  queue_submit = λ i f d. (vk_success, d + 1);
  wait_for_fences = λ f t d. (vk_success, d + 1);
  reset_fences = λ f d. (vk_success, d + 1);
}

abbrev image : ℕ → SwapchainImage
image k = record {
  image = k;
  memory = k;
  rendering_done = k;
  copying_done = k;
  copying_done_fence = k;
  acquire_command_buffer = k;
  release_command_buffer = k;
  has_been_acquired = false;
}

-- The state of the world chooses the handles, and stays.
abbrev world : World ℕ
world = record {
  calls = λ c w. w;
  exchange = λ r w. (true, w);
  asks_swapchain = λ s w. (some (creates (w + 100)), w);
  imports = λ h w. (some (image h ∷ []), w);
  asks_session = λ w. (some (w + 7), w);
  creates_command_pool = λ d w. (some (w + 40), w);
}

abbrev color_info : SwapchainCreateInfo
color_info = record { color = true; depth_stencil = false; is_static = false }

abbrev empty : Store
empty = record { swapchains = []; sessions = [] }

-- Sessions 7 and 8, with the swapchains 110 and 111.
abbrev one_session : Store
one_session = (create_session world none 1 true 1 (some (3, 4)) empty 0).store

abbrev two_sessions : Store
two_sessions = (create_session world none 1 true 1 (some (3, 4)) one_session 1).store

abbrev one_swapchain : Store
one_swapchain = (create_swapchain world none 7 color_info two_sessions 10).store

abbrev two_swapchains : Store
two_swapchains = (create_swapchain world none 8 color_info one_swapchain 11).store

two_swapchains-Reached : Reached world driver two_swapchains
two_swapchains-Reached = creates_swapchain one_swapchain none 8 color_info 11 (
    creates_swapchain two_sessions none 7 color_info 10 (
      creates_session one_session none 1 true 1 (some (3, 4)) 1
        (creates_session empty none 1 true 1 (some (3, 4)) 0 starts)))

abbrev swapchain : ℕ → ℕ → Swapchain
swapchain parent handle = record { parent_handle = parent; ring = init (image handle ∷ []) false }

abbrev session_7 : Session
session_7 = record { device = 3; queue = 4; command_pool = 40; swapchains = 110 ∷ [] }

stored_111 : find 111 two_swapchains.swapchains ≡ some (swapchain 8 111)
unfolding create_session create_swapchain session_answered session_pooled store_session_state
    swapchain_answered swapchain_imported store_swapchain_state set_swapchains find erase assign
    emplace insert has
stored_111 = refl

session_7_stored : find 7 two_swapchains.sessions ≡ some session_7
unfolding create_session create_swapchain session_answered session_pooled store_session_state
    swapchain_answered swapchain_imported store_swapchain_state set_swapchains find erase assign
    emplace insert has
session_7_stored = refl

kept_111 :
    find 111 (destroy_session world none none 7 two_swapchains 0).store.swapchains
    ≡ some (swapchain 8 111)
unfolding create_session create_swapchain session_answered session_pooled store_session_state
    swapchain_answered swapchain_imported store_swapchain_state set_swapchains find erase assign
    emplace insert has remove destroy_session destroy_swapchains destroy_swapchain destroy_images
    destroy_swapchain_state without_swapchain finished
kept_111 = refl

Reached-IsLinked_example :
    (s : Session) × (find 8 two_swapchains.sessions ≡ some s) × (has 111 s.swapchains ≡ true)
Reached-IsLinked_example =
    Reached-IsLinked world driver two_swapchains two_swapchains-Reached 111 (swapchain 8 111)
      stored_111

-- The second session 7 is asked for on the device 5.
create_session-destroy_session_example :
    let d = destroy_session world none none 7 two_swapchains 0 in
    let r = create_session world none 1 true 1 (some (5, 6)) d.store d.world in
    (s : Session) × (find 7 r.store.sessions ≡ some s)
    × (s.device ≡ 3)
    × (s.queue ≡ 4)
    × (s.command_pool ≡ 40)
create_session-destroy_session_example =
    create_session-destroy_session world none none none 7 1 true 1 (some (5, 6)) session_7
      two_swapchains 0 session_7_stored

find-destroy_session_example :
    (find 111 two_swapchains.swapchains ≡ some (swapchain 8 111)) × ((8 == 7) ≡ false)
find-destroy_session_example =
    find-destroy_session world driver none none 7 111 session_7 (swapchain 8 111) two_swapchains 0
      two_swapchains-Reached session_7_stored kept_111
