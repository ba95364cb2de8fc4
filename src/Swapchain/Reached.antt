-- ===== src/Swapchain/Reached.antt =====
-- The calls of the application on sessions and swapchains, in any order.
use xrtransport.Common.{
  ℕ, ◌≡◌, refl, sym, ap, ◌∙◌, Bool, Bool-cases, Option-cases, ==_iff, true, false, ◌==◌,
  if◌then◌else◌, List, [], ◌∷◌, Option, none, some, inl, inr, arith,
}
use mathlib.Core.Option.{some-injective}
use xrtransport.Common.Dict.{find, find-erase}
use xrtransport.Xr.{XrResult, error_handle_invalid}
use xrtransport.Swapchain.State.{Vulkan}
use xrtransport.Swapchain.Store.{
  has, Swapchain, Session, Store, without_swapchain, destroy_swapchain_state, set_swapchains,
}
use xrtransport.Swapchain.Sessions.{
  World, Next, Reply, SwapchainCreateInfo, forward, create_swapchain, destroy_swapchain,
  create_session, destroy_swapchains, destroy_session, acquire_swapchain_image,
  wait_swapchain_image, release_swapchain_image,
}
use xrtransport.Swapchain.Linked.{IsLinked, follows, Changes-IsLinked, Changes-Keeps}
use xrtransport.Swapchain.Calls.{
  finished-store, create_swapchain-Changes, destroy_swapchain-Changes, create_session-Changes,
  destroy_session-Changes, acquire_swapchain_image-Changes, wait_swapchain_image-Changes,
  release_swapchain_image-Changes,
}

-- The stores that the calls of an application lead to, with any answers of the world.
pub data Reached {W : Type 0} (world : World W) (vk : Vulkan W) : Store → Type 0 where
  starts : Reached world vk (record { swapchains = []; sessions = [] })
  creates_swapchain :
      (st : Store) (next : Next W) (session : ℕ) (info : SwapchainCreateInfo) (w : W)
      → Reached world vk st
      → Reached world vk (create_swapchain world next session info st w).store
  destroys_swapchain :
      (st : Store) (next : Next W) (swapchain : ℕ) (w : W)
      → Reached world vk st
      → Reached world vk (destroy_swapchain world next swapchain st w).store
  creates_session :
      (st : Store) (next : Next W) (saved_xr_instance : ℕ) (graphics_requirements_called : Bool)
      (instance_ : ℕ) (binding : Option (ℕ × ℕ)) (w : W)
      → Reached world vk st
      → Reached world vk
          (create_session world next saved_xr_instance graphics_requirements_called instance_
            binding st w).store
  destroys_session :
      (st : Store) (next next_swapchain : Next W) (session : ℕ) (w : W)
      → Reached world vk st
      → Reached world vk (destroy_session world next next_swapchain session st w).store
  acquires_image :
      (st : Store) (next : Next W) (swapchain : ℕ) (w : W) (r : Reply W)
      → acquire_swapchain_image world vk next swapchain st w ≡ some r
      → Reached world vk st
      → Reached world vk r.store
  waits_image :
      (st : Store) (next : Next W) (swapchain timeout : ℕ) (w : W) (r : Reply W)
      → wait_swapchain_image world vk next swapchain timeout st w ≡ some r
      → Reached world vk st
      → Reached world vk r.store
  releases_image :
      (st : Store) (next : Next W) (swapchain : ℕ) (w : W) (r : Reply W)
      → release_swapchain_image world vk next swapchain st w ≡ some r
      → Reached world vk st
      → Reached world vk r.store

empty-IsLinked : IsLinked (record { swapchains = []; sessions = [] })
unfolding find
empty-IsLinked h c e = cc

-- Whatever the application calls and the server, Vulkan and the next layer answer, each swapchain
-- that the client stores belongs to a session that it stores, and that session lists it.
pub Reached-IsLinked :
    {W : Type 0} (world : World W) (vk : Vulkan W) (st : Store)
    → Reached world vk st
    → (h : ℕ) (c : Swapchain) → find h st.swapchains ≡ some c
    → (s : Session) × (find c.parent_handle st.sessions ≡ some s) × (has h s.swapchains ≡ true)
Reached-IsLinked world vk _ starts = empty-IsLinked
Reached-IsLinked world vk _ (creates_swapchain st next session info w r) =
    Changes-IsLinked (create_swapchain-Changes world next session info st w)
      (Reached-IsLinked world vk st r)
Reached-IsLinked world vk _ (destroys_swapchain st next swapchain w r) =
    Changes-IsLinked (destroy_swapchain-Changes world next swapchain st w)
      (Reached-IsLinked world vk st r)
Reached-IsLinked world vk _ (creates_session st next saved called instance_ binding w r) =
    Changes-IsLinked (create_session-Changes world next saved called instance_ binding st w)
      (Reached-IsLinked world vk st r)
Reached-IsLinked world vk _ (destroys_session st next next_swapchain session w r) =
    Changes-IsLinked (destroy_session-Changes world next next_swapchain session st w)
      (Reached-IsLinked world vk st r)
Reached-IsLinked world vk _ (acquires_image st next swapchain w r e k) =
    Changes-IsLinked (acquire_swapchain_image-Changes world vk next swapchain st w r e)
      (Reached-IsLinked world vk st k)
Reached-IsLinked world vk _ (waits_image st next swapchain timeout w r e k) =
    Changes-IsLinked (wait_swapchain_image-Changes world vk next swapchain timeout st w r e)
      (Reached-IsLinked world vk st k)
Reached-IsLinked world vk _ (releases_image st next swapchain w r e k) =
    Changes-IsLinked (release_swapchain_image-Changes world vk next swapchain st w r e)
      (Reached-IsLinked world vk st k)

-- A session that the application has destroyed stays in the client's map, and a session that is then
-- created with its handle has the device, the queue and the destroyed command pool of the first one.
pub create_session-destroy_session :
    {W : Type 0} (world : World W) (next next_swapchain next_session : Next W) (session : ℕ)
    (saved_xr_instance : ℕ) (graphics_requirements_called : Bool) (instance_ : ℕ)
    (binding : Option (ℕ × ℕ)) (s : Session) (st : Store) (w : W)
    → find session st.sessions ≡ some s
    → let d = destroy_session world next next_swapchain session st w in
      let r =
        create_session world next_session saved_xr_instance graphics_requirements_called instance_
          binding d.store d.world in
      (s' : Session) × (find session r.store.sessions ≡ some s')
      × (s'.device ≡ s.device)
      × (s'.queue ≡ s.queue)
      × (s'.command_pool ≡ s.command_pool)
create_session-destroy_session world next next_swapchain next_session session saved called instance_
      binding s st w =
    let d = destroy_session world next next_swapchain session st w in
    Changes-Keeps
      (follows (destroy_session-Changes world next next_swapchain session st w)
        (create_session-Changes world next_session saved called instance_ binding d.store d.world))
      session s

module _ {W : Type 0} where
  forward-store :
      (next : Next W) (otherwise : XrResult) (st : Store) (w : W)
      → (forward next otherwise st w).store ≡ st
  unfolding forward
  forward-store none otherwise st w = refl
  forward-store (some next) otherwise st w = refl

module _ {W : Type 0} (world : World W) where
  find-without_swapchain :
      (h swapchain parent : ℕ) (s : Session) (st : Store)
      → find h (without_swapchain swapchain parent s st).swapchains
        ≡ (if h == swapchain then none else find h st.swapchains)
  unfolding without_swapchain destroy_swapchain_state set_swapchains
  find-without_swapchain h swapchain parent s st = find-erase h swapchain st.swapchains

  find-destroy_swapchain :
      (next : Next W) (h swapchain : ℕ) (st : Store) (w : W)
      → IsLinked st
      → find h (destroy_swapchain world next swapchain st w).store.swapchains
        ≡ (if h == swapchain then none else find h st.swapchains)
  unfolding destroy_swapchain
  find-destroy_swapchain next h swapchain st w l =
      elim (Option-cases (find swapchain st.swapchains)) [
        | inl n ↦
            rw (destroy_swapchain, n, forward-store next error_handle_invalid st w)
              (elim (Bool-cases (h == swapchain)) [
                | inl y ↦ rw y (ap (λ x. find x st.swapchains) ((==_iff h swapchain).0 y) ∙ n)
                | inr z ↦ rw z refl
              ])
        | inr (c, e) ↦
            let (s, f, m) = l swapchain c e in
            rw (destroy_swapchain, e, f, finished-store)
              (find-without_swapchain h swapchain c.parent_handle s st)
      ]

  find-destroy_swapchains :
      (next : Next W) (h : ℕ) (swapchains : List ℕ) (st : Store) (w : W)
      → IsLinked st
      → find h (destroy_swapchains world next swapchains st w).0.swapchains
        ≡ (if has h swapchains then none else find h st.swapchains)
  unfolding destroy_swapchains has
  find-destroy_swapchains next h [] st w l = refl
  find-destroy_swapchains next h (j ∷ js) st w l =
      let r = destroy_swapchain world next j st w in
      let first = find-destroy_swapchain next h j st w l in
      let others =
        find-destroy_swapchains next h js r.store r.world
          (Changes-IsLinked (destroy_swapchain-Changes world next j st w) l) in
      others ∙ rw first (ground arith)

-- A swapchain that the client still stores when the application has destroyed a session was there
-- before, and does not belong to the session, whatever the application called before.
pub find-destroy_session :
    {W : Type 0} (world : World W) (vk : Vulkan W) (next next_swapchain : Next W) (session h : ℕ)
    (s : Session) (c : Swapchain) (st : Store) (w : W)
    → Reached world vk st
    → find session st.sessions ≡ some s
    → find h (destroy_session world next next_swapchain session st w).store.swapchains ≡ some c
    → (find h st.swapchains ≡ some c) × ((c.parent_handle == session) ≡ false)
unfolding destroy_session
find-destroy_session world vk next next_swapchain session h s c st w r f e =
    let l = Reached-IsLinked world vk st r in
    let e' : (if has h s.swapchains then none else find h st.swapchains) ≡ some c =
      sym (find-destroy_swapchains world next_swapchain h s.swapchains st w l)
      ∙ (rw (destroy_session, f, finished-store) at e) in
    elim (Bool-cases (has h s.swapchains)) [
      | inl y ↦ let x = rw y at e' in cc
      | inr n ↦
          let k : find h st.swapchains ≡ some c = rw n at e' in
          let (s', f', m) = l h c k in
          (
            k,
            elim (Bool-cases (c.parent_handle == session)) [
              | inl y ↦
                  let q : s' ≡ s = some-injective _ _ (
                    sym f'
                    ∙ (ap (λ x. find x st.sessions) ((==_iff c.parent_handle session).0 y) ∙ f)) in
                  let z = sym n ∙ (ap (λ x. has h x.swapchains) (sym q) ∙ m) in cc
              | inr z ↦ z
            ],
          )
    ]
