-- ===== src/Swapchain/Order.antt =====
-- The order of the ring's heads, which every call keeps, whatever the driver answers.
use xrtransport.Common.{
  ℕ, ◌+◌, ◌%◌, ◌^◌, ◌≤◌, ◌<◌, ◌≡◌, refl, ◌⊎◌, inl, inr, Bool, true, List, dec_lt, get_elem?-total,
  Option, none, some, arith, length, length-set,
}
use xrtransport.Xr.{success}
use native.Mathlib.Nat.{mod-eq_of_lt}
use xrtransport.Swapchain.State.{Vulkan, SwapchainImage, SwapchainState, init, Outcome, next_head}
use xrtransport.Swapchain.Defs.{
  acquired_state, acquire_reply, acquire_image, acquire, wait_reply, wait_image, wait,
  release_reply, release_submit, release_image, release, Call, acquires, waits, releases, step,
}

-- `n` images; `acquired` of them, counted from `release`, are with the application, and the wait
-- head is at most one ahead of the release head.
pub record IsOrdered (n acquired acquire wait release : ℕ) : Type 0 where
  pub nonempty : 0 < n
  pub small : n < 2 ^ 32
  pub acquired_le : acquired ≤ n
  pub acquire_in : acquire < n
  pub release_in : release < n
  pub acquire_at : (acquire ≡ release + acquired) ⊎ (acquire + n ≡ release + acquired)
  pub wait_at :
      (wait ≡ release)
      ⊎ (0 < acquired) × ((wait ≡ release + 1) × (wait < n) ⊎ (wait ≡ 0) × (release + 1 ≡ n))

abbrev pub IsValid : SwapchainState → Type 0
IsValid s = IsOrdered (length s.images) s.num_acquired s.acquire_head s.wait_head s.release_head

-- The call returns, without undefined behaviour, and what it returns has the property.
abbrev pub Returns : {D : Type 0} → (Outcome D → Type 0) → Option (Outcome D) → Type 0
Returns P none = ⊥
Returns P (some o) = P o

pub Returns-inv :
    {D : Type 0} (P Q : Outcome D → Type 0) (r : Option (Outcome D))
    → Returns P r
    → Returns Q r
    → (o : Outcome D) × (r ≡ some o) × P o × Q o
Returns-inv P Q none p q = absurd p
Returns-inv P Q (some o) p q = (o, refl, p, q)

pub next_head_cases :
    (h n : ℕ)
    → h < n
    → n < 2 ^ 32
    → (next_head h n ≡ h + 1) × (h + 1 < n) ⊎ (next_head h n ≡ 0) × (h + 1 ≡ n)
next_head_cases h n p q = elim (dec_lt (h + 1) n) [
  | yes lt ↦ inl (rw small (mod-eq_of_lt lt), lt)
  | no ge ↦ inr (rw small (grind arith), omega arith)
]
  where
    small : (h + 1) % 2 ^ 32 ≡ h + 1
    small = omega arith

pub wait_in :
    {n acquired acquire wait release : ℕ} → IsOrdered n acquired acquire wait release → wait < n
wait_in v = ground arith

module _ {D : Type 0} (vk : Vulkan D) (s : SwapchainState) (v : IsValid s) where
  acquire-IsValid : (d : D) → Returns (λ o. IsValid o.state) (acquire vk s d)
  unfolding acquire acquire_image acquire_reply acquired_state
  acquire-IsValid d =
      let (i, e) = get_elem?-total s.images s.acquire_head v.acquire_in in
      ground (
        arith,
        e,
        length-set s.images s.acquire_head (record i { has_been_acquired = true }),
        next_head_cases s.acquire_head (length s.images),
      )

  wait-IsValid : (t : ℕ) (d : D) → Returns (λ o. IsValid o.state) (wait vk s t d)
  unfolding wait wait_image wait_reply
  wait-IsValid t d =
      let (i, e) = get_elem?-total s.images s.wait_head (wait_in v) in
      ground (arith, e, next_head_cases s.wait_head (length s.images))

  release-IsValid : (d : D) → Returns (λ o. IsValid o.state) (release vk s d)
  unfolding release release_image release_submit release_reply
  release-IsValid d =
      let (i, e) = get_elem?-total s.images s.release_head v.release_in in
      ground (arith, e, next_head_cases s.release_head (length s.images))

  -- On a swapchain whose heads are in order every call returns, whatever the driver answers, and
  -- leaves them in order.
  pub step-IsValid : (c : Call) (d : D) → Returns (λ o. IsValid o.state) (step vk s c d)
  unfolding step
  step-IsValid acquires d = acquire-IsValid d
  step-IsValid (waits t) d = wait-IsValid t d
  step-IsValid releases d = release-IsValid d

-- The heads and the count are as they were.
abbrev pub SameHeads : SwapchainState → SwapchainState → Type 0
SameHeads s t =
    (t.num_acquired ≡ s.num_acquired)
    × (t.acquire_head ≡ s.acquire_head)
    × (t.wait_head ≡ s.wait_head)
    × (t.release_head ≡ s.release_head)

abbrev pub Unchanged : {D : Type 0} → SwapchainState → Outcome D → Type 0
Unchanged s o = (o.result ≡ success) ⊎ (o.index_out ≡ none) × SameHeads s o.state

module _ {D : Type 0} (vk : Vulkan D) (s : SwapchainState) (v : IsValid s) where
  -- On a swapchain whose heads are in order, a call that does not succeed stores no index, and moves
  -- no head and no count.
  pub step_failed : (c : Call) (d : D) → Returns (Unchanged s) (step vk s c d)
  unfolding step acquire acquire_image acquire_reply acquired_state wait wait_image wait_reply
      release release_image release_submit release_reply
  step_failed acquires d =
      let (i, e) = get_elem?-total s.images s.acquire_head v.acquire_in in ground (arith, e)
  step_failed (waits t) d =
      let (i, e) = get_elem?-total s.images s.wait_head (wait_in v) in ground (arith, e)
  step_failed releases d =
      let (i, e) = get_elem?-total s.images s.release_head v.release_in in ground (arith, e)

-- A new swapchain is in order.
pub init-IsValid :
    (images : List SwapchainImage) (is_static : Bool)
    → 0 < length images
    → length images < 2 ^ 32
    → IsValid (init images is_static)
unfolding init
init-IsValid images is_static p q = omega arith
