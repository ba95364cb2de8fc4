-- ===== src/Server/Handlers.antt =====
-- The handlers of src/server/server.cpp that create and destroy the instance, and what `Server::run`
-- does when the transport has ended. The runtime and the modules are outside: their calls are acts.
use Prim.Native.String.{String}
use xrtransport.Common.{ℕ, suc, List, [], ◌∷◌, ◌++◌, ◌==◌, if◌then◌else◌}
use xrtransport.Xr.{XrResult, error_handle_invalid, succeeded}

-- What the server does to others, in order. Modules are numbered.
pub data Act : Type 0 where
  -- `CreateInstance` with the enabled extensions: the result and the instance
  runtime_creates : List String → XrResult → ℕ → Act
  runtime_destroys : ℕ → Act
  module_on_instance : ℕ → ℕ → Act
  module_on_instance_destroy : ℕ → Act
  -- XRTP_MSG_FUNCTION_RETURN with a result, and an instance where the reply has one
  replies : XrResult → List ℕ → Act

-- `modules` are the extensions that each module requires. XR_NULL_HANDLE is 0.
pub record Server : Type 0 where
  pub modules : List (List String)
  pub saved_instance : ℕ

-- The extensions that the runtime is asked for: the client's, the modules' and the timer's.
unfoldable pub enabled_extensions : Server → List String → List String
enabled_extensions s names = names ++ (required s.modules ++ "XR_KHR_convert_timespec_time" ∷ [])
  where
    required : List (List String) → List String
    required [] = []
    required (m ∷ ms) = m ++ required ms

-- One act for each module, in the modules' order.
abbrev pub each_module : (ℕ → Act) → ℕ → List (List String) → List Act
each_module act i [] = []
each_module act i (m ∷ ms) = act i ∷ each_module act (suc i) ms

-- `instance` is what the client sent for the instance to return; a failed call leaves it.
unfoldable pub created : Server → List String → XrResult → ℕ → Server × List Act
created s names result handle =
    if succeeded result
    then (
      record s { saved_instance = handle },
      runtime_creates names result handle
          ∷ (each_module (λ i. module_on_instance i handle) 0 s.modules
              ++ replies result (handle ∷ []) ∷ []),
    )
    else (s, runtime_creates names result handle ∷ replies result (handle ∷ []) ∷ [])

unfoldable pub create_instance_handler :
    (List String → XrResult × ℕ) → List String → Server → Server × List Act
unfolding created
create_instance_handler create names s =
    let (result, handle) = create (enabled_extensions s names) in
    created s (enabled_extensions s names) result handle

unfoldable pub destroy_instance_handler : (ℕ → XrResult) → ℕ → Server → Server × List Act
destroy_instance_handler destroy handle s =
    if handle == s.saved_instance
    then (
      record s { saved_instance = 0 },
      each_module module_on_instance_destroy 0 s.modules
          ++ runtime_destroys handle ∷ replies (destroy handle) [] ∷ [],
    )
    else (s, replies error_handle_invalid [] ∷ [])

-- The end of `run`.
unfoldable pub run_end : Server → Server × List Act
run_end s =
    if s.saved_instance == 0
    then (s, [])
    else (record s { saved_instance = 0 }, runtime_destroys s.saved_instance ∷ [])

-- The calls that a client's messages lead to.
pub data Request : Type 0 where
  creates : List String → Request
  destroys : ℕ → Request

module _ (create : List String → XrResult × ℕ) (destroy : ℕ → XrResult) where
  unfoldable pub handle : Request → Server → Server × List Act
  unfolding create_instance_handler destroy_instance_handler
  handle (creates names) s = create_instance_handler create names s
  handle (destroys h) s = destroy_instance_handler destroy h s

  -- Requests one after the other, and the end of `run`.
  unfoldable pub run : List Request → Server → Server × List Act
  unfolding handle run_end
  run [] s = run_end s
  run (r ∷ rs) s =
      let (s', acts) = handle r s in let (s'', acts') = run rs s' in (s'', acts ++ acts')
