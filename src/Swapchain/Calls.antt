-- ===== src/Swapchain/Calls.antt =====
-- What each call of src/modules/vulkan/client/vulkan_core.cpp changes in the store.
use xrtransport.Common.{
  ℕ, ◌≡◌, refl, sym, subst, Bool, Bool-cases, Option-cases, true, false, ◌&&◌, ◌||◌, ◌==◌, List, [],
  ◌∷◌, Option, none, some, inl, inr,
}
use mathlib.Core.Option.{some-injective}
use xrtransport.Common.Dict.{find}
use xrtransport.Xr.{XrResult, success}
use xrtransport.Swapchain.State.{SwapchainImage, Vulkan}
use xrtransport.Swapchain.Defs.{acquire, wait, release}
use xrtransport.Swapchain.Store.{Session, Store, store_swapchain_state}
use xrtransport.Swapchain.Sessions.{
  World, Next, Reply, Created, SwapchainCreateInfo, refuses, creates, forward, finished,
  swapchain_imported, swapchain_answered, create_swapchain, destroy_swapchain, session_pooled,
  session_answered, create_session, destroy_swapchains, destroy_session, called, released,
  acquire_swapchain_image, wait_swapchain_image, release_swapchain_image,
}
use xrtransport.Swapchain.Linked.{Changes, stays, follows, lists, drops, opens, turns}

by : {st a b : Store} → b ≡ a → Changes st a → Changes st b
by {st} e = subst (Changes st) (sym e)

module _ {W : Type 0} where
  -- These leave the store.
  pub forward-Changes :
      (next : Next W) (otherwise : XrResult) (st : Store) (w : W)
      → Changes st (forward next otherwise st w).store
  unfolding forward
  forward-Changes none otherwise st w = stays
  forward-Changes (some next) otherwise st w = stays

  pub finished-store : (st : Store) (x : Bool × W) → (finished st x).store ≡ st
  unfolding finished
  finished-store st (true, w) = refl
  finished-store st (false, w) = refl

module _ {W : Type 0} (world : World W) where
  swapchain_imported-Changes :
      (session : ℕ) (s : Session) (info : SwapchainCreateInfo) (handle : ℕ) (st : Store)
      (x : Option (List SwapchainImage) × W)
      → find session st.sessions ≡ some s
      → Changes st (swapchain_imported world session s info handle st x).store
  unfolding swapchain_imported
  swapchain_imported-Changes session s info handle st (none, w) f = stays
  swapchain_imported-Changes session s info handle st (some images, w) f =
      elim (Option-cases (store_swapchain_state handle session images info.is_static st)) [
        | inl n ↦ rw (swapchain_imported, n) stays
        | inr (st', e) ↦
            rw (swapchain_imported, e) (lists session handle s images info.is_static st st' f e)
      ]

  swapchain_answered-Changes :
      (session : ℕ) (s : Session) (info : SwapchainCreateInfo) (st : Store) (x : Option Created × W)
      → find session st.sessions ≡ some s
      → Changes st (swapchain_answered world session s info st x).store
  unfolding swapchain_answered
  swapchain_answered-Changes session s info st (none, w) f = stays
  swapchain_answered-Changes session s info st (some (refuses result), w) f = stays
  swapchain_answered-Changes session s info st (some (creates handle), w) f =
      elim (Bool-cases (info.color && info.depth_stencil)) [
        | inl y ↦ rw (swapchain_answered, y) stays
        | inr n ↦ elim (Bool-cases (info.color || info.depth_stencil)) [
          | inl z ↦
              rw (swapchain_answered, n, z)
                (swapchain_imported-Changes session s info handle st (world.imports handle w) f)
          | inr m ↦ rw (swapchain_answered, n, m) stays
        ]
      ]

  pub create_swapchain-Changes :
      (next : Next W) (session : ℕ) (info : SwapchainCreateInfo) (st : Store) (w : W)
      → Changes st (create_swapchain world next session info st w).store
  unfolding create_swapchain
  create_swapchain-Changes next session info st w = elim (Option-cases (find session st.sessions)) [
    | inl n ↦ rw (create_swapchain, n) (forward-Changes next _ st w)
    | inr (s, f) ↦
        rw (create_swapchain, f)
          (swapchain_answered-Changes session s info st (world.asks_swapchain session w) f)
  ]

  pub destroy_swapchain-Changes :
      (next : Next W) (swapchain : ℕ) (st : Store) (w : W)
      → Changes st (destroy_swapchain world next swapchain st w).store
  unfolding destroy_swapchain
  destroy_swapchain-Changes next swapchain st w =
      elim (Option-cases (find swapchain st.swapchains)) [
        | inl n ↦ rw (destroy_swapchain, n) (forward-Changes next _ st w)
        | inr (c, e) ↦ elim (Option-cases (find c.parent_handle st.sessions)) [
          | inl n ↦ rw (destroy_swapchain, e, n) stays
          | inr (s, f) ↦
              rw (destroy_swapchain, e, f) (by (finished-store _ _) (drops swapchain c s st e f))
        ]
      ]

  session_pooled-Changes :
      (handle device queue : ℕ) (st : Store) (x : Option ℕ × W)
      → Changes st (session_pooled handle device queue st x).store
  unfolding session_pooled
  session_pooled-Changes handle device queue st (none, w) = stays
  session_pooled-Changes handle device queue st (some command_pool, w) =
      opens handle device queue command_pool st

  session_answered-Changes :
      (device queue : ℕ) (st : Store) (x : Option ℕ × W)
      → Changes st (session_answered world device queue st x).store
  unfolding session_answered
  session_answered-Changes device queue st (none, w) = stays
  session_answered-Changes device queue st (some handle, w) =
      session_pooled-Changes handle device queue st (world.creates_command_pool device w)

  pub create_session-Changes :
      (next : Next W) (saved_xr_instance : ℕ) (called : Bool) (instance_ : ℕ)
      (binding : Option (ℕ × ℕ)) (st : Store) (w : W)
      → Changes st (create_session world next saved_xr_instance called instance_ binding st w).store
  unfolding create_session
  create_session-Changes next saved_xr_instance called instance_ none st w =
      forward-Changes next _ st w
  create_session-Changes next saved_xr_instance true instance_ (some b) st w =
      elim (Bool-cases (instance_ == saved_xr_instance)) [
        | inl y ↦
            rw (create_session, y) (session_answered-Changes b.0 b.1 st (world.asks_session w))
        | inr n ↦ rw (create_session, n) stays
      ]
  create_session-Changes next saved_xr_instance false instance_ (some b) st w =
      elim (Bool-cases (instance_ == saved_xr_instance)) [
        | inl y ↦ rw (create_session, y) stays
        | inr n ↦ rw (create_session, n) stays
      ]

  pub destroy_swapchains-Changes :
      (next : Next W) (swapchains : List ℕ) (st : Store) (w : W)
      → Changes st (destroy_swapchains world next swapchains st w).0
  unfolding destroy_swapchains
  destroy_swapchains-Changes next [] st w = stays
  destroy_swapchains-Changes next (swapchain ∷ swapchains) st w =
      follows (destroy_swapchain-Changes next swapchain st w)
        (destroy_swapchains-Changes next swapchains _ _)

  pub destroy_session-Changes :
      (next next_swapchain : Next W) (session : ℕ) (st : Store) (w : W)
      → Changes st (destroy_session world next next_swapchain session st w).store
  unfolding destroy_session
  destroy_session-Changes next next_swapchain session st w =
      elim (Option-cases (find session st.sessions)) [
        | inl n ↦ rw (destroy_session, n) (forward-Changes next _ st w)
        | inr (s, f) ↦
            rw (destroy_session, f)
              (by (finished-store _ _)
                (destroy_swapchains-Changes next_swapchain s.swapchains st w))
      ]

  released-store :
      (swapchain : ℕ) (result : XrResult) (index : Option ℕ) (st : Store) (w : W)
      → (released world swapchain result index st w).store ≡ st
  unfolding released
  released-store swapchain success none st w = finished-store st _
  released-store swapchain success (some index) st w = finished-store st _
  released-store swapchain _ index st w = refl

module _ {W : Type 0} (world : World W) (vk : Vulkan W) where
  pub acquire_swapchain_image-Changes :
      (next : Next W) (swapchain : ℕ) (st : Store) (w : W) (r : Reply W)
      → acquire_swapchain_image world vk next swapchain st w ≡ some r
      → Changes st r.store
  unfolding acquire_swapchain_image called
  acquire_swapchain_image-Changes next swapchain st w r g =
      elim (Option-cases (find swapchain st.swapchains)) [
        | inl n ↦
            subst (λ x. Changes st x.store)
              (some-injective _ _ (rw (acquire_swapchain_image, n) at g))
              (forward-Changes next _ st w)
        | inr (c, e) ↦ elim (Option-cases (acquire vk c.ring w)) [
          | inl n ↦ let x = rw (acquire_swapchain_image, e, n) at g in cc
          | inr (o, f) ↦
              subst (λ x. Changes st x.store)
                (some-injective _ _ (rw (acquire_swapchain_image, e, f) at g))
                (turns swapchain c o.state st e)
        ]
      ]

  pub wait_swapchain_image-Changes :
      (next : Next W) (swapchain timeout : ℕ) (st : Store) (w : W) (r : Reply W)
      → wait_swapchain_image world vk next swapchain timeout st w ≡ some r
      → Changes st r.store
  unfolding wait_swapchain_image called
  wait_swapchain_image-Changes next swapchain timeout st w r g =
      elim (Option-cases (find swapchain st.swapchains)) [
        | inl n ↦
            subst (λ x. Changes st x.store) (some-injective _ _ (rw (wait_swapchain_image, n) at g))
              (forward-Changes next _ st w)
        | inr (c, e) ↦ elim (Option-cases (wait vk c.ring timeout w)) [
          | inl n ↦ let x = rw (wait_swapchain_image, e, n) at g in cc
          | inr (o, f) ↦
              subst (λ x. Changes st x.store)
                (some-injective _ _ (rw (wait_swapchain_image, e, f) at g))
                (turns swapchain c o.state st e)
        ]
      ]

  pub release_swapchain_image-Changes :
      (next : Next W) (swapchain : ℕ) (st : Store) (w : W) (r : Reply W)
      → release_swapchain_image world vk next swapchain st w ≡ some r
      → Changes st r.store
  unfolding release_swapchain_image
  release_swapchain_image-Changes next swapchain st w r g =
      elim (Option-cases (find swapchain st.swapchains)) [
        | inl n ↦
            subst (λ x. Changes st x.store)
              (some-injective _ _ (rw (release_swapchain_image, n) at g))
              (forward-Changes next _ st w)
        | inr (c, e) ↦ elim (Option-cases (find c.parent_handle st.sessions)) [
          | inl n ↦
              subst (λ x. Changes st x.store)
                (some-injective _ _ (rw (release_swapchain_image, e, n) at g)) stays
          | inr (s, f) ↦ elim (Option-cases (release vk c.ring w)) [
            | inl n ↦ let x = rw (release_swapchain_image, e, f, n) at g in cc
            | inr (o, k) ↦
                subst (λ x. Changes st x.store)
                  (some-injective _ _ (rw (release_swapchain_image, e, f, k) at g))
                  (by (released-store world swapchain o.result o.index_out _ o.driver)
                    (turns swapchain c o.state st e))
          ]
        ]
      ]
