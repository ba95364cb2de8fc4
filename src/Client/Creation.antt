-- ===== src/Client/Creation.antt =====
-- What `xrCreateInstance` leaves behind.
use Prim.Native.String.{String}
use xrtransport.Common.{
  ℕ, ◌<◌, ◌≡◌, ◌≢◌, refl, ap, ◌∙◌, ◌⊎◌, inl, inr, Bool, true, false, ◌&&◌, ◌||◌, not, List, [],
  ◌++◌, some, ltb, map, ◌↔◌, arith, Bool-cases, sym,
}
use xrtransport.Xr.{XrResult, success, succeeded}
use xrtransport.Client.Names.{same, contains, contains-emplace_all}
use xrtransport.Client.Entry.{
  Client, get_instance_proc_addr, InstanceCreateInfo, all_available, extension_functions, requested,
  created, populated, create_instance,
}
use xrtransport.Client.Enabled.{
  OfEnabled, contains-requested, extension_functions-OfEnabled, contains-extension_functions,
}

created_result : (c : Client) (reply : XrResult × ℕ) → (created c reply).0 ≡ reply.0
unfolding created
created_result c (result, handle) = elim (Bool-cases (succeeded result)) [
  | inl y ↦ rw y refl
  | inr n ↦ rw n refl
]

module _ (core : List String) (current : ℕ) (rpc : InstanceCreateInfo → XrResult × ℕ) (c : Client)
    (info : InstanceCreateInfo) where
  abbrev Outcome : Type 0
  Outcome = XrResult × Client

  abbrev pub asked : InstanceCreateInfo
  asked = record info { enabled_extensions = requested c.provided info.enabled_extensions }

  -- An instance that exists already, a version that is too new, or an extension that is missing: the
  -- server is not called, the call fails, and nothing changes.
  pub create_instance_refused :
      (c.saved_instance ≢ 0)
        ⊎ (current < info.api_version)
        ⊎ (all_available c.available_extensions info.enabled_extensions ≡ false)
      → let (result, c') = create_instance core current rpc c info in
        (c' ≡ c) × (succeeded result ≡ false)
  unfolding create_instance
  create_instance_refused h = ground (arith, h)

  reaches :
      c.saved_instance ≡ 0
      → ltb current info.api_version ≡ false
      → all_available c.available_extensions info.enabled_extensions ≡ true
      → create_instance core current rpc c info
        ≡ created (populated core current c info.enabled_extensions) (rpc asked)
  unfolding create_instance
  reaches s v a = ground (arith, s, v, a)

  -- A function that an application is given once the instance is created with these extensions.
  abbrev pub Given : String → Type 0
  Given name =
      (contains name core ≡ true)
      ⊎ OfEnabled name c.available_extensions info.enabled_extensions
      ⊎ (contains name c.available_functions ≡ true)

  pub contains-populated :
      (name : String)
      → (contains name (populated core current c info.enabled_extensions).available_functions
          ≡ true)
        ↔ Given name
  contains-populated name =
      let available = c.available_extensions in
      let fs = extension_functions available info.enabled_extensions in
      let e : contains name (populated core current c info.enabled_extensions).available_functions
          ≡ contains name core || (contains name fs || contains name c.available_functions) =
        contains-emplace_all name core _
        ∙ ap (λ b. contains name core || b) (contains-emplace_all name fs c.available_functions) in
      (
        λ h.
            let h' = sym e ∙ h in
            elim (Bool-cases (contains name core)) [
              | inl y ↦ inl y
              | inr n ↦ elim (Bool-cases (contains name fs)) [
                | inl y ↦
                    inr
                      (inl (extension_functions-OfEnabled name available info.enabled_extensions y))
                | inr m ↦ inr (inr (rw (n, m) at h'))
              ]
            ],
        λ g. e ∙ given g,
      )
    where
      or_true : (b : Bool) → b || true ≡ true
      or_true true = refl
      or_true false = refl

      given :
          Given name
          → contains name core
              || (contains name (extension_functions c.available_extensions info.enabled_extensions)
                  || contains name c.available_functions)
            ≡ true
      given (inl y) = rw y refl
      given (inr (inl o)) =
          rw (contains-extension_functions name c.available_extensions info.enabled_extensions o)
            (or_true (contains name core))
      given (inr (inr y)) =
          rw
            (
              y,
              or_true (
                  contains name
                    (extension_functions c.available_extensions info.enabled_extensions)),
            )
            (or_true (contains name core))

  abbrev pub with_instance : Client
  with_instance = record (populated core current c info.enabled_extensions) {
    saved_instance = (rpc asked).1;
    synchronization_enabled = true;
    on_instance_calls = c.on_instance_calls ++ map (λ m. (m, (rpc asked).1)) c.modules;
  }

  pub creates :
      c.saved_instance ≡ 0
      → ltb current info.api_version ≡ false
      → all_available c.available_extensions info.enabled_extensions ≡ true
      → succeeded (rpc asked).0 ≡ true
      → create_instance core current rpc c info ≡ ((rpc asked).0, with_instance)
  unfolding created
  creates s v a y = reaches s v a ∙ rw y refl

  -- If the server creates the instance, for which it is asked with the enabled extensions that no
  -- module provides, the client keeps the handle, synchronizes, and calls each module with the handle,
  -- in order; and its functions are then those of the core, those that the available extensions
  -- among the enabled ones have, and those that it had before.
  pub create_instance_created :
      (name : String)
      → c.saved_instance ≡ 0
      → ltb current info.api_version ≡ false
      → all_available c.available_extensions info.enabled_extensions ≡ true
      → succeeded (rpc asked).0 ≡ true
      → let (result, c') = create_instance core current rpc c info in
        (result ≡ (rpc asked).0)
        × (c'.saved_instance ≡ (rpc asked).1)
        × (c'.synchronization_enabled ≡ true)
        × (c'.on_instance_calls ≡ c.on_instance_calls ++ map (λ m. (m, (rpc asked).1)) c.modules)
        × ((contains name c'.available_functions ≡ true) ↔ Given name)
        × (contains name asked.enabled_extensions
            ≡ contains name info.enabled_extensions && not (contains name c.provided))
  create_instance_created name s v a y = rw (creates s v a y) (
    refl,
    refl,
    refl,
    refl,
    contains-populated name,
    contains-requested name c.provided info.enabled_extensions,
  )

  -- If the server does not create the instance, xrGetInstanceProcAddr then gives no function but
  -- `xrtransportGetTransport`: not even `xrCreateInstance`. An application that still has its pointer
  -- can try again by that: the server is asked again, and its result is returned.
  pub create_instance_failed :
      (retry : InstanceCreateInfo → XrResult × ℕ) (handle : ℕ) (name : String)
      → c.saved_instance ≡ 0
      → ltb current info.api_version ≡ false
      → all_available c.available_extensions info.enabled_extensions ≡ true
      → succeeded (rpc asked).0 ≡ false
      → same name "xrtransportGetTransport" ≡ false
      → let (result, c') = create_instance core current rpc c info in
        (result ≡ (rpc asked).0)
        × ((get_instance_proc_addr c' handle (some name)).0 ≢ success)
        × ((create_instance core current retry c' info).0 ≡ (retry asked).0)
  create_instance_failed retry handle name s v a n z = rw (reaches s v a) (
      let k : created (populated core current c info.enabled_extensions) (rpc asked) ≡ (
        (rpc asked).0,
        record (populated core current c info.enabled_extensions) { available_functions = [] },
      ) =
        unfold created in rw n refl in
      rw k (
        refl,
        unfold get_instance_proc_addr in ground (arith, z),
        unfold create_instance in rw (create_instance, s, v, a) (created_result _ (retry asked)),
      ))
