-- ===== src/Client/Given.antt =====
-- Which functions and extensions an application is given.
use Prim.Native.String.{String}
use mathlib.Core.Option.{some-injective}
use xrtransport.Common.{
  ℕ, ◌<◌, ◌≡◌, ◌≢◌, refl, ap, ◌∙◌, ◌⊎◌, inl, inr, Bool, true, false, ◌&&◌, not, List, [], ◌++◌,
  Option, none, some, ltb, ◌==◌, length, drop, ◌↔◌, arith, Bool-cases, sym,
}
use xrtransport.Xr.{XrResult, success, error_handle_invalid, error_function_unsupported, succeeded}
use xrtransport.Client.Names.{same, contains}
use xrtransport.Client.Functions.{get_function}
use xrtransport.Client.Entry.{
  Client, pre_instance, get_instance_proc_addr, from_function_table, InstanceCreateInfo,
  all_available, create_instance, ExtensionProperties, properties_of, enumerate_extensions,
}
use xrtransport.Client.Enabled.{OfEnabled}
use xrtransport.Client.Creation.{asked, with_instance, creates, contains-populated}

from_function_table_success :
    (f : Option ℕ)
    → (from_function_table f).0 ≡ success
    → (function : ℕ) × (from_function_table f ≡ (success, some (some function)))
      × (f ≡ some function)
unfolding from_function_table
from_function_table_success none h = cc
from_function_table_success (some function) h = (function, refl, refl)

-- A function that the application gets stands in the table and is available, and without an instance
-- it is one of the three that come before.
pub get_instance_proc_addr_success :
    (c : Client) (handle : ℕ) (name : String)
    → same name "xrtransportGetTransport" ≡ false
    → (get_instance_proc_addr c handle (some name)).0 ≡ success
    → (function : ℕ) × (get_instance_proc_addr c handle (some name)
        ≡ (success, some (some function)))
      × (get_function name c.function_table ≡ some function)
      × (contains name c.available_functions ≡ true)
      × ((handle ≢ 0) ⊎ (contains name pre_instance ≡ true))
unfolding get_instance_proc_addr
get_instance_proc_addr_success c handle name z h =
    elim (Bool-cases ((handle == 0) && not (contains name pre_instance))) [
      | inl y ↦ let k : error_handle_invalid ≡ success = rw (z, y) at h in absurd (cc)
      | inr n ↦ elim (Bool-cases (contains name c.available_functions)) [
        | inr w ↦ let k : error_function_unsupported ≡ success = rw (z, n, w) at h in absurd (cc)
        | inl w ↦
            let k : (from_function_table (get_function name c.function_table)).0 ≡ success =
              rw (z, n, w) at h in
            let (function, e, f) =
              from_function_table_success (get_function name c.function_table) k in
            (function, rw (z, n, w) e, f, w, early n)
      ]
    ]
  where
    early :
        ((handle == 0) && not (contains name pre_instance)) ≡ false
        → (handle ≢ 0) ⊎ (contains name pre_instance ≡ true)
    early n = elim (Bool-cases (contains name pre_instance)) [
      | inl p ↦ inr p
      | inr q ↦ inl (λ e. ground (arith, n, q))
    ]

get_instance_proc_addr_iff :
    (c : Client) (handle function : ℕ) (name : String)
    → same name "xrtransportGetTransport" ≡ false
    → (get_instance_proc_addr c handle (some name) ≡ (success, some (some function)))
      ↔ (get_function name c.function_table ≡ some function)
        × (contains name c.available_functions ≡ true)
        × ((handle ≢ 0) ⊎ (contains name pre_instance ≡ true))
unfolding get_instance_proc_addr from_function_table
get_instance_proc_addr_iff c handle function name z = (
  λ h.
      let (f, e, g, w, early) = get_instance_proc_addr_success c handle name z (ap (λ r. r.0) h) in
      let q : some (some f) ≡ some (some function) = ap (λ r. r.1) (sym e ∙ h) in
      (g ∙ some-injective _ _ q, w, early),
  λ x.
      let (g, w, early) = x in
      let open_ : ((handle == 0) && not (contains name pre_instance)) ≡ false = guard early in
      rw (get_instance_proc_addr, z, open_, w, g) refl,
)
  where
    and_false : (b : Bool) → b && false ≡ false
    and_false true = refl
    and_false false = refl

    guard :
        (handle ≢ 0) ⊎ (contains name pre_instance ≡ true)
        → ((handle == 0) && not (contains name pre_instance)) ≡ false
    guard (inl n) = ground (arith, n)
    guard (inr y) = rw y (and_false (handle == 0))

-- Once an instance is created, with the client as it was before any, xrGetInstanceProcAddr gives an
-- application the function of this name in the function table, and no other, exactly if it is of the
-- core, of an available extension among the enabled ones, or one of the three that come before; and
-- without an instance, exactly if it is one of those three.
pub get_instance_proc_addr-create_instance :
    (core : List String) (current : ℕ) (rpc : InstanceCreateInfo → XrResult × ℕ) (c : Client)
    (info : InstanceCreateInfo) (handle function : ℕ) (name : String)
    → c.available_functions ≡ pre_instance
    → c.saved_instance ≡ 0
    → ltb current info.api_version ≡ false
    → all_available c.available_extensions info.enabled_extensions ≡ true
    → succeeded (rpc (asked core current rpc c info)).0 ≡ true
    → same name "xrtransportGetTransport" ≡ false
    → let (result, c') = create_instance core current rpc c info in
      (get_instance_proc_addr c' handle (some name) ≡ (success, some (some function)))
      ↔ (get_function name c.function_table ≡ some function)
        × ((contains name core ≡ true)
            ⊎ OfEnabled name c.available_extensions info.enabled_extensions
            ⊎ (contains name pre_instance ≡ true))
        × ((handle ≢ 0) ⊎ (contains name pre_instance ≡ true))
get_instance_proc_addr-create_instance core current rpc c info handle function name p s v a y z =
    rw (creates core current rpc c info s v a y) (
      let c' = with_instance core current rpc c info in
      let iff = get_instance_proc_addr_iff c' handle function name z in
      let given = contains-populated core current rpc c info name in
      let before : contains name c.available_functions ≡ contains name pre_instance =
        ap (contains name) p in
      (
        λ h.
            let (g, w, early) = iff.0 h in
            (
              g,
              elim (given.0 w) [
                | inl k ↦ inl k
                | inr (inl k) ↦ inr (inl k)
                | inr (inr k) ↦ inr (inr (sym before ∙ k))
              ],
              early,
            ),
        λ x.
            let (g, k, early) = x in
            iff.1 (
              g,
              given.1 (elim k [
                | inl k' ↦ inl k'
                | inr (inl k') ↦ inr (inl k')
                | inr (inr k') ↦ inr (inr (before ∙ k'))
              ]),
              early,
            ),
      ))

-- An application that asks for the count and then for as many extensions gets all of them; the first
-- call stores the count, and the second stores none.
pub enumerate_twice :
    (c : Client) (properties : List ExtensionProperties)
    → 0 < length c.available_extensions
    → let first = enumerate_extensions c false 0 [] in
      let second = enumerate_extensions c false (length c.available_extensions) properties in
      (first.result ≡ success)
      × (first.count_output ≡ some (length c.available_extensions))
      × (second.result ≡ success)
      × (second.properties
          ≡ properties_of c.available_extensions ++ drop (length c.available_extensions) properties)
      × (second.count_output ≡ none)
unfolding enumerate_extensions
enumerate_twice c properties h = ground (arith, h)
