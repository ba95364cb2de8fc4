-- ===== src/Client/Enabled.antt =====
-- Which functions the enabled extensions have, and which of these the server is asked for.
use Prim.Native.String.{String}
use text.Mathlib.TextEquality.{eq_iff}
use xrtransport.Common.{
  ◌≡◌, refl, ap, subst, ◌∙◌, inl, inr, Bool, true, false, ◌&&◌, ◌||◌, not, List, [], ◌∷◌, ◌++◌,
  some, Bool-cases, Option-cases, sym,
}
use xrtransport.Client.Names.{same, contains, find}
use xrtransport.Client.Entry.{ExtensionInfo, extension_functions, requested}

-- The server is asked for the enabled extensions that no module provides.
pub contains-requested :
    (name : String) (provided names : List String)
    → contains name (requested provided names) ≡ contains name names && not (contains name provided)
unfolding requested
contains-requested name provided [] = refl
contains-requested name provided (n ∷ names) = elim (Bool-cases (contains n provided)) [
  | inr z ↦ rw z (elim (Bool-cases (same n name)) [
    | inr w ↦ rw w (contains-requested name provided names)
    | inl e ↦
        let p : contains name provided ≡ false =
          subst (λ k. contains k provided ≡ false) ((eq_iff n name).0 e) z in
        rw (e, p) refl
  ])
  | inl y ↦ rw y (
      contains-requested name provided names ∙ elim (Bool-cases (same n name)) [
        | inr w ↦ rw w refl
        | inl e ↦
            let p : contains name provided ≡ true =
              subst (λ k. contains k provided ≡ true) ((eq_iff n name).0 e) y in
            rw (e, p) (absorbs (contains name names))
      ])
]
  where
    absorbs : (b : Bool) → b && false ≡ true && false
    absorbs true = refl
    absorbs false = refl

contains-append :
    (name : String) (ms ns : List String)
    → contains name (ms ++ ns) ≡ contains name ms || contains name ns
contains-append name [] ns = refl
contains-append name (m ∷ ms) ns = elim (Bool-cases (same m name)) [
  | inl y ↦ rw y refl
  | inr n ↦ rw n (contains-append name ms ns)
]

contains_tail :
    (name n : String) (ns : List String) → contains name ns ≡ true → contains name (n ∷ ns) ≡ true
contains_tail name n ns h = elim (Bool-cases (same n name)) [ inl y ↦ rw y refl | inr z ↦ rw z h ]

-- The name is that of a function of an extension that is available and among `names`.
abbrev pub OfEnabled : String → List (String × ExtensionInfo) → List String → Type 0
OfEnabled name available names =
    (extension : String) × (info : ExtensionInfo) × (contains extension names ≡ true)
    × (find extension available ≡ some info)
    × (contains name info.function_names ≡ true)

module _ (name : String) (available : List (String × ExtensionInfo)) where
  OfEnabled-tail :
      (n : String) (ns : List String)
      → OfEnabled name available ns
      → OfEnabled name available (n ∷ ns)
  OfEnabled-tail n ns (x, e, m, f, k) = (x, e, contains_tail x n ns m, f, k)

  pub extension_functions-OfEnabled :
      (names : List String)
      → contains name (extension_functions available names) ≡ true
      → OfEnabled name available names
  unfolding extension_functions
  extension_functions-OfEnabled [] h = cc
  extension_functions-OfEnabled (n ∷ ns) h = elim (Option-cases (find n available)) [
    | inl z ↦
        OfEnabled-tail n ns (extension_functions-OfEnabled ns (rw (extension_functions, z) at h))
    | inr (e, f) ↦
        let h' : contains name e.function_names || contains name (extension_functions available ns)
            ≡ true =
          sym (contains-append name e.function_names (extension_functions available ns))
          ∙ (rw (extension_functions, f) at h) in
        elim (Bool-cases (contains name e.function_names)) [
          | inl y ↦ (n, e, rw ((eq_iff n n).1 refl) refl, f, y)
          | inr z ↦ OfEnabled-tail n ns (extension_functions-OfEnabled ns (rw z at h'))
        ]
  ]

  pub contains-extension_functions :
      (names : List String)
      → OfEnabled name available names
      → contains name (extension_functions available names) ≡ true
  unfolding extension_functions
  contains-extension_functions [] (x, e, m, f, k) = cc
  contains-extension_functions (n ∷ ns) (x, e, m, f, k) = elim (Bool-cases (same n x)) [
    | inl y ↦
        let g : find n available ≡ some e = ap (λ i. find i available) ((eq_iff n x).0 y) ∙ f in
        rw (extension_functions, g)
          (contains-append name e.function_names (extension_functions available ns) ∙ rw k refl)
    | inr z ↦
        let rest = contains-extension_functions ns (x, e, rw z at m, f, k) in
        elim (Option-cases (find n available)) [
          | inl w ↦ rw (extension_functions, w) rest
          | inr (d, g) ↦
              rw (extension_functions, g)
                (contains-append name d.function_names (extension_functions available ns)
                  ∙ rw rest (or_true (contains name d.function_names)))
        ]
  ]
    where
      or_true : (b : Bool) → b || true ≡ true
      or_true true = refl
      or_true false = refl
