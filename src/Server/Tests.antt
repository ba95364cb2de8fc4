-- ===== src/Server/Tests.antt =====
-- A server with one module, and a runtime that creates the instance 7.
use Prim.Native.String.{String}
use xrtransport.Common.{ℕ, ◌≡◌, refl, List, [], ◌∷◌, arith}
use xrtransport.Xr.{XrResult, success, error_handle_invalid}
use xrtransport.Server.Handlers.{
  runtime_creates, runtime_destroys, module_on_instance, replies, Server, enabled_extensions,
  created, create_instance_handler, destroy_instance_handler, run_end, Request, creates, destroys,
  handle, run,
}
use xrtransport.Server.Lifecycle.{Balanced, run-Balanced}

abbrev creating : List String → XrResult × ℕ
creating names = (success, 7)

abbrev destroying : ℕ → XrResult
destroying h = success

abbrev idle : Server
idle = record { modules = ("XR_KHR_vulkan_enable2" ∷ []) ∷ []; saved_instance = 0 }

-- The client destroys an instance that it does not have, and leaves its own.
abbrev requests : List Request
requests = creates ("XR_EXT_hand_tracking" ∷ []) ∷ destroys 5 ∷ []

run-requests :
    (run creating destroying requests idle).1
    ≡ runtime_creates
        ("XR_EXT_hand_tracking" ∷ "XR_KHR_vulkan_enable2" ∷ "XR_KHR_convert_timespec_time" ∷ [])
        success
        7
      ∷ module_on_instance 0 7
      ∷ replies success (7 ∷ [])
      ∷ replies error_handle_invalid []
      ∷ runtime_destroys 7
      ∷ []
unfolding run handle create_instance_handler created enabled_extensions destroy_instance_handler
    run_end
run-requests = refl

run-Balanced_example : Balanced 0 (run creating destroying requests idle).1 0
run-Balanced_example =
    run-Balanced creating destroying requests idle (refl, ((λ e. absurd (omega arith)), tt))
