-- ===== src/Swapchain/Refine.antt =====
-- With two images or more, a swapchain behaves as its specification.
use xrtransport.Common.{
  ℕ, zero, suc, ◌+◌, ◌-◌, ◌^◌, ◌≤◌, ◌<◌, ◌≡◌, refl, ap, subst, ◌∙◌, ◌⊎◌, true, false, not, List, [],
  ◌∷◌, ◌++◌, Option, none, some, arith, length, length-set, get_elem?-total, ◌==◌,
}
use xrtransport.Swapchain.State.{
  vk_success, Vulkan, SubmitInfo, SwapchainState, Outcome, next_head, acquire_info, release_info,
}
use xrtransport.Swapchain.Defs.{
  acquired_state, acquire_reply, acquire_image, acquire, wait_reply, wait_image, wait,
  release_reply, release_submit, release_image, release, Call, acquires, waits, releases, step, run,
}
use xrtransport.Swapchain.Order.{
  IsValid, Returns, Returns-inv, next_head_cases, wait_in, step-IsValid,
}
use xrtransport.Swapchain.Spec.{View, Reply, wrap}
use xrtransport.Swapchain.Spec

-- The driver accepts every request.
pub record IsReliable {D : Type 0} (vk : Vulkan D) : Type 0 where
  pub submits : (i : SubmitInfo) (f : Option ℕ) (d : D) → (vk.queue_submit i f d).0 ≡ vk_success
  pub waits_for : (f t : ℕ) (d : D) → (vk.wait_for_fences f t d).0 ≡ vk_success
  pub resets : (f : ℕ) (d : D) → (vk.reset_fences f d).0 ≡ vk_success

-- `k` indices of a ring of `n`, from `h` on.
abbrev pub window : ℕ → ℕ → ℕ → List ℕ
window n h zero = []
window n h (suc k) = h ∷ window n (wrap n h) k

abbrev pub view : SwapchainState → View
view s = record {
  held = window (length s.images) s.release_head s.num_acquired;
  waited = not (s.wait_head == s.release_head);
  next = s.acquire_head;
}

pub length-window : (n h k : ℕ) → length (window n h k) ≡ k
length-window n h zero = refl
length-window n h (suc k) = ap suc (length-window n (wrap n h) k)

-- The window grows at the acquire head.
window-snoc :
    (n h k a : ℕ)
    → h < n
    → a < n
    → (a ≡ h + k) ⊎ (a + n ≡ h + k)
    → k < n
    → window n h (suc k) ≡ window n h k ++ a ∷ []
window-snoc n h zero a p q e l = ground arith
window-snoc n h (suc k) a p q e l =
    ap (◌∷◌ h) (window-snoc n (wrap n h) k a (ground arith) q (ground arith) (omega arith))

window-uncons : (n h k : ℕ) → 0 < k → window n h k ≡ h ∷ window n (wrap n h) (k - 1)
window-uncons n h zero p = absurd (omega arith)
window-uncons n h (suc k) p = ap (λ j. h ∷ window n (wrap n h) j) (omega arith)

next_head-wrap : (h n : ℕ) → h < n → n < 2 ^ 32 → next_head h n ≡ wrap n h
next_head-wrap h n p q = ground (arith, next_head_cases h n p q)

-- What a call returns, and the view after it, are what the specification says.
abbrev Agrees : {D : Type 0} → SwapchainState → Call → Outcome D → Type 0
Agrees s c o =
    (((o.result, o.index_out), view o.state) ≡ Spec.step (length s.images) (view s) c)
    × (length o.state.images ≡ length s.images)
    × (o.state.is_static ≡ s.is_static)

module _ {D : Type 0} (vk : Vulkan D) (ok : IsReliable vk) (s : SwapchainState) (v : IsValid s)
    (many : 2 ≤ length s.images) (dynamic : s.is_static ≡ false) where
  acquire-Agrees : (d : D) → Returns (Agrees s acquires) (acquire vk s d)
  unfolding acquire acquire_image acquire_reply acquired_state Spec.step
  acquire-Agrees d =
      let (i, e) = get_elem?-total s.images s.acquire_head v.acquire_in in
      ground (
        arith,
        e,
        length-set s.images s.acquire_head (record i { has_been_acquired = true }),
        ok.submits (acquire_info i) (some i.copying_done_fence) d,
        length-window (length s.images) s.release_head s.num_acquired,
        window-snoc (length s.images) s.release_head s.num_acquired s.acquire_head,
        next_head-wrap s.acquire_head (length s.images),
      )

  wait-Agrees : (t : ℕ) (d : D) → Returns (Agrees s (waits t)) (wait vk s t d)
  unfolding wait wait_image wait_reply Spec.step
  wait-Agrees t d =
      let (i, e) = get_elem?-total s.images s.wait_head (wait_in v) in
      ground (
        arith,
        e,
        ok.waits_for i.copying_done_fence t d,
        window-uncons (length s.images) s.release_head s.num_acquired,
        next_head-wrap s.wait_head (length s.images),
      )

  release-Agrees : (d : D) → Returns (Agrees s releases) (release vk s d)
  unfolding release release_image release_submit release_reply Spec.step
  release-Agrees d =
      let (i, e) = get_elem?-total s.images s.release_head v.release_in in
      ground (
        arith,
        e,
        ok.resets i.copying_done_fence d,
        ok.submits (release_info i) none (vk.reset_fences i.copying_done_fence d).1,
        window-uncons (length s.images) s.release_head s.num_acquired,
        next_head-wrap s.release_head (length s.images),
      )

  step-Agrees : (c : Call) (d : D) → Returns (Agrees s c) (step vk s c d)
  unfolding step
  step-Agrees acquires d = acquire-Agrees d
  step-Agrees (waits t) d = wait-Agrees t d
  step-Agrees releases d = release-Agrees d

module _ {D : Type 0} (vk : Vulkan D) (ok : IsReliable vk) where
  -- With a driver that accepts every request, a swapchain of two or more images that is not static
  -- and whose heads are in order answers every sequence of calls as its specification does, and none
  -- is undefined behaviour.
  pub run_refines :
      (cs : List Call) (s : SwapchainState) (d : D)
      → IsValid s
      → 2 ≤ length s.images
      → s.is_static ≡ false
      → run vk s cs d ≡ some (Spec.run (length s.images) (view s) cs)
  unfolding run Spec.run
  run_refines [] s d v many dynamic = refl
  run_refines (c ∷ cs) s d v many dynamic =
      let (o, e, a, w) =
        Returns-inv (Agrees s c) (λ o. IsValid o.state) (step vk s c d)
          (step-Agrees vk ok s v many dynamic c d) (step-IsValid vk s v c d) in
      let ih =
        subst (λ n. run vk o.state cs o.driver ≡ some (Spec.run n (view o.state) cs)) a.1
          (run_refines cs o.state o.driver w (omega (arith, a.1)) (a.2 ∙ dynamic)) in
      rw (e, run) (rw ih (ap (λ r. some (r.0 ∷ Spec.run (length s.images) r.1 cs)) a.0))
