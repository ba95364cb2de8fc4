-- ===== src/Swapchain/Tests.antt =====
-- Swapchains of one and two images on drivers that accept and refuse.
use xrtransport.Common.{ℕ, ◌+◌, ◌≡◌, refl, Bool, true, false, List, [], ◌∷◌, none, some, arith}
use xrtransport.Xr.{success, error_call_order_invalid, error_runtime_failure}
use xrtransport.Swapchain.State.{vk_success, vk_error, Vulkan, SwapchainImage, SwapchainState, init}
use xrtransport.Swapchain.Defs.{
  acquire, wait, release, Call, acquires, waits, releases, step, run, acquire_image, acquire_reply,
  acquired_state, wait_image, wait_reply, release_image, release_submit, release_reply,
}
use xrtransport.Swapchain.Order.{
  IsValid, Returns, Unchanged, step-IsValid, step_failed, init-IsValid,
}
use xrtransport.Swapchain.Spec
use xrtransport.Swapchain.Refine.{IsReliable, view, run_refines}
use xrtransport.Swapchain.Single.{release_unwaited, acquire_lost}

-- The driver's state counts its calls.
abbrev obliging : Vulkan ℕ
obliging = record {
  queue_submit = λ i f d. (vk_success, d + 1);
  wait_for_fences = λ f t d. (vk_success, d + 1);
  reset_fences = λ f d. (vk_success, d + 1);
}

abbrev refusing : Vulkan ℕ
refusing = record {
  queue_submit = λ i f d. (vk_error 4, d + 1);
  wait_for_fences = λ f t d. (vk_error 4, d + 1);
  reset_fences = λ f d. (vk_error 4, d + 1);
}

abbrev image : ℕ → Bool → SwapchainImage
image k used = record {
  image = k;
  memory = k;
  rendering_done = k;
  copying_done = k;
  copying_done_fence = k;
  acquire_command_buffer = k;
  release_command_buffer = k;
  has_been_acquired = used;
}

abbrev pair : SwapchainState
pair = init (image 10 false ∷ image 20 false ∷ []) false

abbrev lone : SwapchainState
lone = init (image 10 false ∷ []) true

-- The one image is with the application.
abbrev lent : SwapchainState
lent = record {
  images = image 10 true ∷ [];
  num_acquired = 1;
  acquire_head = 0;
  wait_head = 0;
  release_head = 0;
  is_static = true;
}

abbrev frame : List Call
frame = acquires ∷ waits 5 ∷ releases ∷ []

obliging-IsReliable : IsReliable obliging
obliging-IsReliable = record {
  submits = λ i f d. refl;
  waits_for = λ f t d. refl;
  resets = λ f d. refl;
}

pair-IsValid : IsValid pair
unfolding init
pair-IsValid = init-IsValid (image 10 false ∷ image 20 false ∷ []) false (omega arith) (omega arith)

lent-IsValid : IsValid lent
lent-IsValid = omega arith

-- A third image is refused, and so is a release before its wait.
run-pair :
    run obliging pair (acquires ∷ acquires ∷ acquires ∷ releases ∷ waits 5 ∷ releases ∷ []) 0
    ≡ some (
        (success, some 0)
        ∷ (success, some 1)
        ∷ (error_call_order_invalid, none)
        ∷ (error_call_order_invalid, none)
        ∷ (success, none)
        ∷ (success, some 0)
        ∷ [])
unfolding run step init acquire wait release acquire_image acquire_reply acquired_state wait_image
    wait_reply release_image release_submit release_reply
run-pair = refl

run_refines_example : run obliging pair frame 0 ≡ some (Spec.run 2 (view pair) frame)
unfolding init
run_refines_example =
    run_refines obliging obliging-IsReliable frame pair 0 pair-IsValid (omega arith) refl

step-IsValid_example : Returns (λ o. IsValid o.state) (step obliging pair acquires 0)
step-IsValid_example = step-IsValid obliging pair pair-IsValid acquires 0

step_failed_example : Returns (Unchanged pair) (step refusing pair acquires 0)
step_failed_example = step_failed refusing pair pair-IsValid acquires 0

release_unwaited_example :
    Returns (λ o. o.result ≡ success) (release obliging lent 0)
    × Returns
        (λ o.
          (o.result ≡ success)
          × Returns (λ p. p.result ≡ success) (wait obliging o.state 5 o.driver))
        (wait obliging lent 5 0)
release_unwaited_example =
    release_unwaited obliging obliging-IsReliable lent lent-IsValid (image 10 true) refl
      (omega arith) 5 0

acquire_lost_example :
    Returns
      (λ o.
        (o.result ≡ error_runtime_failure)
        × (o.index_out ≡ none)
        × (o.state.num_acquired ≡ 0)
        × ((d' : ℕ)
            → Returns
                (λ p. (p.result ≡ error_call_order_invalid) × (p.index_out ≡ none))
                (acquire refusing o.state d')))
      (acquire refusing lone 0)
unfolding init
acquire_lost_example =
    acquire_lost refusing lone (image 10 false) refl refl refl refl refl 0 (λ e. cc)
