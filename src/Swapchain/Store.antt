-- ===== src/Swapchain/Store.antt =====
-- The maps of src/modules/vulkan/client/session_state.cpp, in which the sessions and swapchains
-- of src/modules/vulkan/client/vulkan_core.cpp stand under the handles that the server gave.
use xrtransport.Common.{
  ℕ, Bool, true, false, List, [], ◌∷◌, Option, none, some, ◌==◌, if◌then◌else◌,
}
use xrtransport.Common.Dict.{Dict, find, erase, assign, emplace}
use xrtransport.Swapchain.State.{SwapchainImage, SwapchainState, init}

-- `std::unordered_set`, whose order does not matter.
unfoldable pub has : ℕ → List ℕ → Bool
has k [] = false
has k (j ∷ ks) = if j == k then true else has k ks

unfoldable pub insert : ℕ → List ℕ → List ℕ
unfolding has
insert k ks = if has k ks then ks else k ∷ ks

unfoldable pub remove : ℕ → List ℕ → List ℕ
remove k [] = []
remove k (j ∷ ks) = let rest = remove k ks in if j == k then rest else j ∷ rest

-- A `SwapchainState` with its parent, and the ring of its images.
pub record Swapchain : Type 0 where
  pub parent_handle : ℕ
  pub ring : SwapchainState

-- `SessionState`, with the device of its graphics binding.
pub record Session : Type 0 where
  pub device : ℕ
  pub queue : ℕ
  pub command_pool : ℕ
  pub swapchains : List ℕ

pub record Store : Type 0 where
  pub swapchains : Dict Swapchain
  pub sessions : Dict Session

abbrev pub get_swapchain_state : ℕ → Store → Option Swapchain
get_swapchain_state handle st = find handle st.swapchains

abbrev pub get_session_state : ℕ → Store → Option Session
get_session_state handle st = find handle st.sessions

-- A handle that is there keeps its state. `none` is the exception of the constructor, for a parent
-- that is not there.
unfoldable pub store_swapchain_state : ℕ → ℕ → List SwapchainImage → Bool → Store → Option Store
store_swapchain_state handle parent_handle images is_static st =
    elim (get_session_state parent_handle st) [
      | none ↦ none
      | some s ↦ some (record st {
        swapchains =
            emplace handle (record { parent_handle = parent_handle; ring = init images is_static })
              st.swapchains;
      })
    ]

unfoldable pub store_session_state : ℕ → ℕ → ℕ → ℕ → Store → Store
store_session_state handle device queue command_pool st = record st {
  sessions =
      emplace handle
        (record { device = device; queue = queue; command_pool = command_pool; swapchains = [] })
        st.sessions;
}

unfoldable pub destroy_swapchain_state : ℕ → Store → Store
destroy_swapchain_state handle st = record st { swapchains = erase handle st.swapchains }

-- `session_state.swapchains` changed, where `s` is the state of the session.
unfoldable pub set_swapchains : ℕ → Session → List ℕ → Store → Store
set_swapchains handle s swapchains st = record st {
  sessions = assign handle (record s { swapchains = swapchains }) st.sessions;
}

-- The ring of the swapchain with the state `c` changed.
unfoldable pub set_ring : ℕ → Swapchain → SwapchainState → Store → Store
set_ring handle c ring st = record st {
  swapchains = assign handle (record c { ring = ring }) st.swapchains;
}

-- A swapchain taken from its session and from the map.
unfoldable pub without_swapchain : ℕ → ℕ → Session → Store → Store
unfolding destroy_swapchain_state set_swapchains
without_swapchain swapchain parent_handle s st =
    destroy_swapchain_state swapchain
      (set_swapchains parent_handle s (remove swapchain s.swapchains) st)
