-- ===== src/Server/Lifecycle.antt =====
-- The instances that the runtime creates and destroys over the life of a server.
use Prim.Native.String.{String}
use xrtransport.Common.{
  ℕ, suc, ◌≡◌, ◌≢◌, refl, sym, subst, List, [], ◌∷◌, ◌++◌, ◌==◌, if◌then◌else◌, Bool-cases, ==_iff,
  inl, inr, arith,
}
use xrtransport.Xr.{XrResult, succeeded}
use xrtransport.Server.Handlers.{
  Act, runtime_creates, runtime_destroys, module_on_instance, module_on_instance_destroy, replies,
  Server, enabled_extensions, each_module, created, create_instance_handler,
  destroy_instance_handler, run_end, Request, creates, destroys, handle, run,
}

-- The runtime has the instance `a`, or none if `a` is 0; after the acts it has `b`. It creates only
-- where it has none, and destroys only the one that it has.
abbrev pub Balanced : ℕ → List Act → ℕ → Type 0
Balanced a [] b = a ≡ b
Balanced a (runtime_creates names result h ∷ t) b =
    (a ≡ 0) × Balanced (if succeeded result then h else 0) t b
Balanced a (runtime_destroys h ∷ t) b = (a ≡ h) × (h ≢ 0) × Balanced 0 t b
Balanced a (module_on_instance i h ∷ t) b = (a ≡ h) × Balanced a t b
Balanced a (module_on_instance_destroy i ∷ t) b = (a ≢ 0) × Balanced a t b
Balanced a (replies result hs ∷ t) b = Balanced a t b

Balanced-append :
    (a b c : ℕ) (xs ys : List Act) → Balanced a xs b → Balanced b ys c → Balanced a (xs ++ ys) c
Balanced-append a b c [] ys p q = subst (λ n. Balanced n ys c) (sym p) q
Balanced-append a b c (runtime_creates n r h ∷ xs) ys p q =
    (p.0, Balanced-append (if succeeded r then h else 0) b c xs ys p.1 q)
Balanced-append a b c (runtime_destroys h ∷ xs) ys p q =
    (p.0, p.1, Balanced-append 0 b c xs ys p.2 q)
Balanced-append a b c (module_on_instance i h ∷ xs) ys p q =
    (p.0, Balanced-append a b c xs ys p.1 q)
Balanced-append a b c (module_on_instance_destroy i ∷ xs) ys p q =
    (p.0, Balanced-append a b c xs ys p.1 q)
Balanced-append a b c (replies r hs ∷ xs) ys p q = Balanced-append a b c xs ys p q

modules_created :
    (h i : ℕ) (ms : List (List String))
    → Balanced h (each_module (λ j. module_on_instance j h) i ms) h
modules_created h i [] = refl
modules_created h i (m ∷ ms) = (refl, modules_created h (suc i) ms)

modules_destroyed :
    (h i : ℕ) (ms : List (List String))
    → h ≢ 0
    → Balanced h (each_module module_on_instance_destroy i ms) h
modules_destroyed h i [] n = refl
modules_destroyed h i (m ∷ ms) n = (n, modules_destroyed h (suc i) ms n)

module _ (create : List String → XrResult × ℕ) (destroy : ℕ → XrResult) where
  -- The client creates an instance only where there is none, and destroys no null handle.
  abbrev pub Permitted : List Request → Server → Type 0
  Permitted [] s = Unit
  Permitted (creates names ∷ rs) s =
      (s.saved_instance ≡ 0) × Permitted rs (handle create destroy (creates names) s).0
  Permitted (destroys h ∷ rs) s = (h ≢ 0) × Permitted rs (handle create destroy (destroys h) s).0

  create-Balanced :
      (names : List String) (s : Server)
      → s.saved_instance ≡ 0
      → let (s', acts) = create_instance_handler create names s in
        Balanced s.saved_instance acts s'.saved_instance
  unfolding create_instance_handler created
  create-Balanced names s z =
      let (result, h) = create (enabled_extensions s names) in
      elim (Bool-cases (succeeded result)) [
        | inl y ↦ rw y (
          z,
          rw y (
              Balanced-append h h h (each_module (λ i. module_on_instance i h) 0 s.modules) _
                (modules_created h 0 s.modules) refl),
        )
        | inr n ↦ rw n (z, rw n (sym z))
      ]

  destroy-Balanced :
      (h : ℕ) (s : Server)
      → h ≢ 0
      → let (s', acts) = destroy_instance_handler destroy h s in
        Balanced s.saved_instance acts s'.saved_instance
  unfolding destroy_instance_handler
  destroy-Balanced h s n = elim (Bool-cases (h == s.saved_instance)) [
    | inr z ↦ rw z refl
    | inl y ↦
        let e : h ≡ s.saved_instance = (==_iff h s.saved_instance).0 y in
        rw (y, ← e)
          (Balanced-append h h 0 (each_module module_on_instance_destroy 0 s.modules) _
            (modules_destroyed h 0 s.modules n) (refl, n, refl))
  ]

  handle-Balanced :
      (r : Request) (rs : List Request) (s : Server)
      → Permitted (r ∷ rs) s
      → let (s', acts) = handle create destroy r s in
        Balanced s.saved_instance acts s'.saved_instance × Permitted rs s'
  unfolding handle
  handle-Balanced (creates names) rs s p = (create-Balanced names s p.0, p.1)
  handle-Balanced (destroys h) rs s p = (destroy-Balanced h s p.0, p.1)

  end-Balanced : (s : Server) → Balanced s.saved_instance (run_end s).1 0
  unfolding run_end
  end-Balanced s = elim (Bool-cases (s.saved_instance == 0)) [
    | inl y ↦ rw y ((==_iff s.saved_instance 0).0 y)
    | inr z ↦ rw z (refl, (λ e. ground (arith, z)), refl)
  ]

  -- Whatever the client asks for, as long as it creates an instance only where there is none and
  -- destroys no null handle: the runtime never has two instances, the server destroys the one that
  -- there is and no other, the modules are told of an instance only while there is one, and when the
  -- server ends there is none left.
  pub run-Balanced :
      (rs : List Request) (s : Server)
      → Permitted rs s
      → Balanced s.saved_instance (run create destroy rs s).1 0
  unfolding run
  run-Balanced [] s p = end-Balanced s
  run-Balanced (r ∷ rs) s p =
      let (b, q) = handle-Balanced r rs s p in
      Balanced-append s.saved_instance _ 0 (handle create destroy r s).1 _ b
        (run-Balanced rs (handle create destroy r s).0 q)
