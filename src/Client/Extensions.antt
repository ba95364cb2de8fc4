-- ===== src/Client/Extensions.antt =====
-- src/client/available_extensions.cpp: the extensions that the client offers, on Linux.
use Prim.Native.String.{String}
use xrtransport.Common.{ℕ, List, [], ◌∷◌, Option, none, some, min}
use xrtransport.Client.Names.{find, erase}
use xrtransport.Client.Entry.{ExtensionInfo}

abbrev pub Extensions : Type 0
Extensions = List (String × ExtensionInfo)

-- `emplace`
unfoldable pub add_extension : String → ExtensionInfo → Extensions → Extensions
add_extension name e d = elim (find name d) [ none ↦ (name, e) ∷ d | some f ↦ d ]

-- `result[name] = e`
unfoldable pub override : String → ExtensionInfo → Extensions → Extensions
override name e d = (name, e) ∷ erase name d

abbrev pub timespec_extension : String
timespec_extension = "XR_KHR_convert_timespec_time"

abbrev pub timespec_info : ExtensionInfo
timespec_info = record {
  version = 1;
  function_names = "xrConvertTimespecTimeToTimeKHR" ∷ "xrConvertTimeToTimespecTimeKHR" ∷ [];
}

-- `enabled` are the extensions that the client was compiled with, and `functions` their functions.
module _ (enabled : List (String × ℕ)) (functions : String → List String) where
  unfoldable pub common_info : String → ℕ → ℕ → ExtensionInfo
  common_info name transport_version server_version = record {
    version = min transport_version server_version;
    function_names = functions name;
  }

  unfoldable pub collect : List (String × ℕ) → Extensions → Extensions
  unfolding add_extension common_info
  collect [] d = d
  collect ((name, version) ∷ ps) d = elim (find name enabled) [
    | none ↦ collect ps d
    | some transport_version ↦
        collect ps (add_extension name (common_info name transport_version version) d)
  ]

  -- What the server reports is `none` if one of the two calls failed.
  unfoldable pub collect_rpc_available_extensions : Option (List (String × ℕ)) → Extensions
  unfolding collect add_extension
  collect_rpc_available_extensions none = []
  collect_rpc_available_extensions (some ps) =
      add_extension timespec_extension timespec_info (collect ps [])

  unfoldable pub override_all : Extensions → Extensions → Extensions
  unfolding override
  override_all [] d = d
  override_all ((name, e) ∷ es) d = override_all es (override name e d)

  -- `provided` are the extensions of the modules, one module after the other.
  unfoldable pub collect_available_extensions : Option (List (String × ℕ)) → Extensions → Extensions
  unfolding collect_rpc_available_extensions override_all
  collect_available_extensions reported provided =
      override_all provided (collect_rpc_available_extensions reported)
