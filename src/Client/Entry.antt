-- ===== src/Client/Entry.antt =====
-- src/client/entry.cpp: which functions and extensions an application gets, and the creation of the
-- instance. A build for a platform other than Android.
use Prim.Native.String.{String}
use xrtransport.Common.{
  ℕ, Bool, true, false, ◌&&◌, not, List, [], ◌∷◌, ◌++◌, Option, none, some, ltb, if◌then◌else◌,
  ◌==◌, length, drop, map,
}
use xrtransport.Xr.{
  XrResult, success, error_handle_invalid, error_function_unsupported, error_size_insufficient,
  error_limit_reached, error_api_version_unsupported, error_extension_not_present, succeeded,
}
use xrtransport.Client.Names.{same, contains, emplace_all, find}
use xrtransport.Client.Functions.{FunctionTable, get_function}

pub record ExtensionInfo : Type 0 where
  pub version : ℕ
  pub function_names : List String

-- The static variables; XR_NULL_HANDLE is 0. `modules` are the loaded modules, `provided` the names of
-- the extensions that they provide, and `on_instance_calls` the calls of their `on_instance`, with the
-- instance, in order.
pub record Client : Type 0 where
  pub available_extensions : List (String × ExtensionInfo)
  pub available_functions : List String
  pub modules : List ℕ
  pub provided : List String
  pub saved_instance : ℕ
  pub synchronization_enabled : Bool
  pub function_table : FunctionTable
  pub on_instance_calls : List (ℕ × ℕ)

-- The functions that are there before an instance is.
abbrev pub pre_instance : List String
pre_instance =
    "xrEnumerateInstanceExtensionProperties" ∷ "xrEnumerateApiLayerProperties" ∷ "xrCreateInstance"
    ∷ []

-- The function pointer that `xrtransportGetTransport` stands at.
abbrev get_transport : ℕ
get_transport = 1

unfoldable pub from_function_table : Option ℕ → XrResult × Option (Option ℕ)
from_function_table none = (error_function_unsupported, none)
from_function_table (some function) = (success, some (some function))

-- `xrGetInstanceProcAddrImpl`, whose `function` is not null: the result, and what it stores there.
unfoldable pub get_instance_proc_addr : Client → ℕ → Option String → XrResult × Option (Option ℕ)
unfolding from_function_table
get_instance_proc_addr c handle none = (error_function_unsupported, none)
get_instance_proc_addr c handle (some name) =
    if same name "xrtransportGetTransport"
    then (success, some (some get_transport))
    else (if (handle == 0) && not (contains name pre_instance)
        then (error_handle_invalid, some none)
        else (if contains name c.available_functions
            then from_function_table (get_function name c.function_table)
            else (error_function_unsupported, none)))

-- `XrInstanceCreateInfo`
pub record InstanceCreateInfo : Type 0 where
  pub api_version : ℕ
  pub enabled_extensions : List String

unfoldable pub all_available : List (String × ExtensionInfo) → List String → Bool
all_available available [] = true
all_available available (name ∷ names) = elim (find name available) [
  | none ↦ false
  | some e ↦ all_available available names
]

-- The functions of the enabled extensions, in the order in which they are put into the set.
unfoldable pub extension_functions : List (String × ExtensionInfo) → List String → List String
extension_functions available [] = []
extension_functions available (name ∷ names) = elim (find name available) [
  | none ↦ extension_functions available names
  | some e ↦ e.function_names ++ extension_functions available names
]

-- The extensions that the server is asked for.
unfoldable pub requested : List String → List String → List String
requested provided [] = []
requested provided (name ∷ names) =
    if contains name provided then requested provided names else name ∷ requested provided names

-- `available_functions`, `saved_instance`, the synchronization and the callbacks of the modules behind
-- the call of the server.
unfoldable pub created : Client → XrResult × ℕ → XrResult × Client
created c (result, handle) =
    if succeeded result
    then (
      result,
      record c {
        saved_instance = handle;
        synchronization_enabled = true;
        on_instance_calls = c.on_instance_calls ++ map (λ m. (m, handle)) c.modules;
      },
    )
    else (result, record c { available_functions = [] })

-- `core_functions`, and XR_CURRENT_API_VERSION, of the OpenXR headers that the client is built with.
module _ (core_functions : List String) (current_api_version : ℕ) where
  abbrev pub populated : Client → List String → Client
  populated c names = record c {
    available_functions =
        emplace_all core_functions
          (emplace_all (extension_functions c.available_extensions names) c.available_functions);
  }

  -- `xrCreateInstanceImpl`; `rpc` is the call of the server, with its result and instance.
  unfoldable pub create_instance :
      (InstanceCreateInfo → XrResult × ℕ) → Client → InstanceCreateInfo → XrResult × Client
  unfolding created requested
  create_instance rpc c info =
      if not (c.saved_instance == 0)
      then (error_limit_reached, c)
      else (if ltb current_api_version info.api_version
          then (error_api_version_unsupported, c)
          else (if not (all_available c.available_extensions info.enabled_extensions)
              then (error_extension_not_present, c)
              else created (populated c info.enabled_extensions) (
                  rpc (record info {
                    enabled_extensions = requested c.provided info.enabled_extensions;
                  }))))

-- `XrExtensionProperties`
pub record ExtensionProperties : Type 0 where
  pub extension_name : String
  pub extension_version : ℕ

abbrev pub properties_of : List (String × ExtensionInfo) → List ExtensionProperties
properties_of available =
    map (λ e. record { extension_name = e.0; extension_version = e.1.version }) available

-- What `xrEnumerateInstanceExtensionPropertiesImpl` returns, stores through `propertyCountOutput`, and
-- leaves in the array `properties`.
pub record Enumerated : Type 0 where
  pub result : XrResult
  pub count_output : Option ℕ
  pub properties : List ExtensionProperties

unfoldable pub enumerate_extensions : Client → Bool → ℕ → List ExtensionProperties → Enumerated
enumerate_extensions c layer capacity properties =
    let count = length c.available_extensions in
    if layer
    then record { result = success; count_output = some 0; properties = properties }
    else (if not (capacity == 0) && ltb capacity count
        then record {
          result = error_size_insufficient;
          count_output = some count;
          properties = properties;
        }
        else (if capacity == 0
            then record { result = success; count_output = some count; properties = properties }
            else record {
              result = success;
              count_output = none;
              properties = properties_of c.available_extensions ++ drop count properties;
            }))
