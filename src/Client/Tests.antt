-- ===== src/Client/Tests.antt =====
-- The client's parts on small inputs.
use Prim.Native.String.{String}
use xrtransport.Common.{
  ℕ, ◌+◌, ◌<◌, ◌≡◌, ◌↔◌, ◌≢◌, refl, ◌⊎◌, true, false, List, [], ◌∷◌, ◌++◌, map, none, some, arith,
}
use xrtransport.Common.Int.{ℤ, pos, ◌+ℤ◌, ◌-ℤ◌, ◌≤ℤ◌, half}
use xrtransport.Xr.{XrResult, success, error_runtime_failure}
use xrtransport.Serialization.Stream.{Reads, ok}
use xrtransport.Serialization.Bytes.{serialize}
use xrtransport.Serialization.Chain.{lookup, size_lookup, serialize_xr, serialize_struct}
use xrtransport.Serialization.Chains.{known}
use xrtransport.Serialization.Samples.{entry, table, Ready, table-IsTable, struct}
use xrtransport.Client.Names.{contains, find}
use xrtransport.Client.Functions.{FunctionTable, get_function}
use xrtransport.Client.Entry.{
  Client, pre_instance, get_instance_proc_addr, InstanceCreateInfo, all_available, requested,
  create_instance,
}
use xrtransport.Client.Enabled.{OfEnabled}
use xrtransport.Client.Creation.{Given, create_instance_created, create_instance_failed}
use xrtransport.Client.Given.{get_instance_proc_addr-create_instance}
use xrtransport.Client.Extensions.{collect_available_extensions}
use xrtransport.Client.Offered.{find-collect_available_extensions}
use xrtransport.Client.Sync.{
  Sample, Shortest, new_clocks, do_synchronize, measure, update, offset, do_synchronize_error,
}
use xrtransport.Client.Handshake.{Build, refused, handshake}
use xrtransport.Client.Agreement.{Fits, handshake_agreement}
use xrtransport.Client.Poll.{buffer_size, xr_success, Placed, event, pack, poll_handler, poll_event}
use xrtransport.Client.Polling.{LaidOut, frontier, Overruns, pack_layout, poll_event-poll_handler}

abbrev sample : ℕ → ℕ → ℕ → Sample
sample t1 t2 t3 = record { t1 = pos t1; t2 = pos t2; t3 = pos t3 }

abbrev samples : List Sample
samples = sample 200 120 230 ∷ []

-- The server's clock is 100 behind; the first round trip takes 50 and the second 30.
first_offset_test :
    (do_synchronize (sample 100 20 150 ∷ samples) (pos 240) new_clocks).time_offset ≡ pos 95
unfolding do_synchronize new_clocks measure update offset ◌+ℤ◌ ◌-ℤ◌ half
first_offset_test = refl

do_synchronize_error_example :
    (r : ℤ) × Shortest r (sample 100 20 150 ∷ samples)
    × ((do_synchronize (sample 100 20 150 ∷ samples) (pos 240) new_clocks).time_offset
        ≤ℤ pos 100 +ℤ half r)
    × (pos 100
        ≤ℤ (do_synchronize (sample 100 20 150 ∷ samples) (pos 240) new_clocks).time_offset
          +ℤ half (r +ℤ pos 1))
unfolding ◌-ℤ◌ ◌+ℤ◌
do_synchronize_error_example =
    do_synchronize_error (pos 100) (pos 240) (sample 100 20 150) samples new_clocks
      (
        record { sent = omega arith; answered = omega arith },
        (record { sent = omega arith; answered = omega arith }, tt),
      )
      refl

abbrev build : ℕ → Build
build version = record { magic = 1347703384; xr_api_version = 1; protocol_version = version }

build-Fits : (version : ℕ) → version < 1000 → Fits (build version)
build-Fits version h = record {
  magic_fits = omega arith;
  api_fits = omega arith;
  protocol_fits = omega arith;
}

handshake_agreement_example : handshake (build 1) (build 2) ≡ (refused, refused)
handshake_agreement_example =
    handshake_agreement (build 1) (build 2) (build-Fits 1 (omega arith))
      (build-Fits 2 (omega arith))

-- The sample structs take 24 bytes: the second is placed at 32 behind the first, and the third, which
-- would end at 88, is left.
packed :
    pack table 64 0 24 (struct 2 20 ∷ struct 1 30 ∷ [])
    ≡ (record { location = 32; size = 24; node = struct 2 20 } ∷ [], struct 1 30 ∷ [])
unfolding pack size_lookup lookup
packed = refl

pack_layout_example :
    let (ps, left) = pack table 64 0 24 (struct 2 20 ∷ struct 1 30 ∷ []) in
    LaidOut 64 24 ps
    × (map (λ p. p.node) ps ++ left ≡ struct 2 20 ∷ struct 1 30 ∷ [])
    × Overruns table 64 (frontier 24 ps) left
pack_layout_example = pack_layout table 64 0 24 (struct 2 20 ∷ struct 1 30 ∷ [])

abbrev event_bytes : List ℕ
event_bytes =
    1 ∷ 0 ∷ 0 ∷ 0 ∷ 1 ∷ 0 ∷ 0 ∷ 0 ∷ 2 ∷ 0 ∷ 0 ∷ 0 ∷ 2 ∷ 0 ∷ 0 ∷ 0 ∷ 0 ∷ 0 ∷ 0 ∷ 0 ∷ 20 ∷ 10 ∷ []

-- An event of unknown type comes first.
poll_event-poll_handler_example :
    let first : Placed ℕ = record { location = 1000; size = 24; node = struct 1 10 } in
    let (ps, left) = pack table (1000 + buffer_size) 1000 24 (known table (struct 2 20 ∷ [])) in
    (poll_handler table ((struct 9 0, []) ∷ (struct 1 10, struct 2 20 ∷ []) ∷ []) 4
      ≡ (ok (serialize 4 xr_success ++ event_bytes), []))
    × Reads
        (poll_event table 1000)
        (serialize 4 xr_success ++ event_bytes)
        (event (first ∷ ps) left)
unfolding serialize_xr serialize_struct lookup serialize known
poll_event-poll_handler_example =
    poll_event-poll_handler table Ready ((struct 9 0, []) ∷ []) [] (struct 1 10) (struct 2 20 ∷ [])
      entry 4 1000 event_bytes table-IsTable (refl, tt) refl (λ e. absurd (omega arith)) refl
      ((λ e l. tt), ((λ e l. tt), tt))

abbrev functions : FunctionTable
functions = ("xrCreateInstance", 10) ∷ ("xrPollEvent", 11) ∷ []

-- Two extensions are available, and a module provides the second.
abbrev client : ℕ → Client
client handle = record {
  available_extensions =
      (
        "XR_EXT_hand_tracking",
        record { version = 4; function_names = "xrCreateHandTrackerEXT" ∷ [] },
      )
      ∷ ("XR_KHR_vulkan_enable2", record { version = 2; function_names = [] })
      ∷ [];
  available_functions = pre_instance;
  modules = 1 ∷ 2 ∷ [];
  provided = "XR_KHR_vulkan_enable2" ∷ [];
  saved_instance = handle;
  synchronization_enabled = false;
  function_table = functions;
  on_instance_calls = [];
}

abbrev core : List String
core = "xrPollEvent" ∷ []

abbrev create_info : InstanceCreateInfo
create_info = record {
  api_version = 1;
  enabled_extensions = "XR_KHR_vulkan_enable2" ∷ "XR_EXT_hand_tracking" ∷ [];
}

abbrev server_info : InstanceCreateInfo
server_info = record { api_version = 1; enabled_extensions = "XR_EXT_hand_tracking" ∷ [] }

abbrev creates : InstanceCreateInfo → XrResult × ℕ
creates i = (success, 77)

abbrev fails : InstanceCreateInfo → XrResult × ℕ
fails i = (error_runtime_failure, 0)

create_instance_created_example :
    let (result, c') = create_instance core 1 creates (client 0) create_info in
    (result ≡ success)
    × (c'.saved_instance ≡ 77)
    × (c'.synchronization_enabled ≡ true)
    × (c'.on_instance_calls ≡ (1, 77) ∷ (2, 77) ∷ [])
    × ((contains "xrCreateHandTrackerEXT" c'.available_functions ≡ true)
        ↔ Given core 1 creates (client 0) create_info "xrCreateHandTrackerEXT")
    × (contains "XR_KHR_vulkan_enable2" server_info.enabled_extensions ≡ false)
unfolding all_available requested
create_instance_created_example =
    create_instance_created core 1 creates (client 0) create_info "xrCreateHandTrackerEXT" refl refl
      refl refl

create_instance_failed_example :
    let (result, c') = create_instance core 1 fails (client 0) create_info in
    (result ≡ error_runtime_failure)
    × ((get_instance_proc_addr c' 0 (some "xrCreateInstance")).0 ≢ success)
    × ((create_instance core 1 creates c' create_info).0 ≡ success)
unfolding all_available
create_instance_failed_example =
    create_instance_failed core 1 fails (client 0) create_info creates 0 "xrCreateInstance" refl
      refl refl refl refl

get_instance_proc_addr-create_instance_example :
    let (result, c') = create_instance core 1 creates (client 0) create_info in
    (get_instance_proc_addr c' 77 (some "xrPollEvent") ≡ (success, some (some 11)))
    ↔ (get_function "xrPollEvent" functions ≡ some 11)
      × ((contains "xrPollEvent" core ≡ true)
          ⊎ OfEnabled "xrPollEvent" (client 0).available_extensions create_info.enabled_extensions
          ⊎ (contains "xrPollEvent" pre_instance ≡ true))
      × ((◌≢◌ {A = ℕ} 77 0) ⊎ (contains "xrPollEvent" pre_instance ≡ true))
unfolding all_available
get_instance_proc_addr-create_instance_example =
    get_instance_proc_addr-create_instance core 1 creates (client 0) create_info 77 11 "xrPollEvent"
      refl refl refl refl refl refl

-- The client was compiled with version 4 of the extension, and the server has 3.
abbrev compiled : List (String × ℕ)
compiled = ("XR_EXT_hand_tracking", 4) ∷ []

abbrev reported : List (String × ℕ)
reported = ("XR_EXT_hand_tracking", 3) ∷ ("XR_FB_passthrough", 1) ∷ []

abbrev no_functions : String → List String
no_functions name = []

find-collect_available_extensions_example :
    (find "XR_EXT_hand_tracking"
        (collect_available_extensions compiled no_functions (some reported) [])
      ≡ some (record { version = 3; function_names = [] }))
    × (find "XR_EXT_hand_tracking" (collect_available_extensions compiled no_functions none [])
        ≡ none)
find-collect_available_extensions_example =
    find-collect_available_extensions compiled no_functions "XR_EXT_hand_tracking" reported []
