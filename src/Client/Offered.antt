-- ===== src/Client/Offered.antt =====
-- Which extensions the client offers, and in which version.
use Prim.Native.String.{String}
use text.Mathlib.Text.{◌==◌}
use text.Mathlib.TextEquality.{eq_iff}
use xrtransport.Common.{
  ℕ, ◌≡◌, refl, ap, sym, subst, ◌∙◌, inl, inr, Bool, List, [], ◌∷◌, Option, none, some,
  if◌then◌else◌, Bool-cases, Option-cases, min,
}
use xrtransport.Client.Names.{find, find-erase}
use xrtransport.Client.Entry.{ExtensionInfo}
use xrtransport.Client.Extensions.{
  Extensions, add_extension, override, timespec_extension, timespec_info, common_info, collect,
  collect_rpc_available_extensions, override_all, collect_available_extensions,
}

abbrev pub or_else : Option ExtensionInfo → Option ExtensionInfo → Option ExtensionInfo
or_else (some e) f = some e
or_else none f = f

abbrev pub entry_if : Bool → ExtensionInfo → Option ExtensionInfo
entry_if b e = if b then some e else none

or_else-none : (x : Option ExtensionInfo) → or_else x none ≡ x
or_else-none none = refl
or_else-none (some e) = refl

or_else_assoc : (x y z : Option ExtensionInfo) → or_else (or_else x y) z ≡ or_else x (or_else y z)
or_else_assoc none y z = refl
or_else_assoc (some e) y z = refl

add_new :
    (k : String) (e : ExtensionInfo) (d : Extensions)
    → find k d ≡ none
    → add_extension k e d ≡ (k, e) ∷ d
unfolding add_extension
add_new k e d n = rw (n, add_extension) refl

add_old :
    (k : String) (e f : ExtensionInfo) (d : Extensions)
    → find k d ≡ some f
    → add_extension k e d ≡ d
unfolding add_extension
add_old k e f d s = rw (s, add_extension) refl

find-add_extension :
    (name k : String) (e : ExtensionInfo) (d : Extensions)
    → find name (add_extension k e d) ≡ or_else (find name d) (entry_if (k == name) e)
find-add_extension name k e d = elim (Bool-cases (k == name)) [
  | inr z ↦ elim (Option-cases (find k d)) [
    | inl n ↦ rw (add_new k e d n, z) (sym (or_else-none (find name d)))
    | inr (f, s) ↦ rw (add_old k e f d s, z) (sym (or_else-none (find name d)))
  ]
  | inl y ↦
      let same : find k d ≡ find name d = ap (λ m. find m d) ((eq_iff k name).0 y) in
      elim (Option-cases (find k d)) [
        | inl n ↦ rw (add_new k e d n, y, sym same ∙ n) refl
        | inr (f, s) ↦ rw (add_old k e f d s, y, sym same ∙ s) refl
      ]
]

find-override :
    (name k : String) (e : ExtensionInfo) (d : Extensions)
    → find name (override k e d) ≡ or_else (entry_if (k == name) e) (find name d)
unfolding override
find-override name k e d = elim (Bool-cases (k == name)) [
  | inl y ↦ rw y refl
  | inr z ↦ rw z (find-erase name k d ∙ rw z refl)
]

-- What a list of reports and overrides says of a name, with no map.
module _ (enabled : List (String × ℕ)) (functions : String → List String) where
  abbrev pub common_of : String → Option ℕ → Option ℕ → Option ExtensionInfo
  common_of name (some t) (some v) =
      some (record { version = min t v; function_names = functions name })
  common_of name _ _ = none

  -- The client was compiled with the extension, and the server reports it.
  abbrev pub common : String → List (String × ℕ) → Option ExtensionInfo
  common name ps = common_of name (find name enabled) (find name ps)

  common_none : (name : String) (x : Option ℕ) → common_of name x none ≡ none
  common_none name none = refl
  common_none name (some t) = refl

  collect_unknown :
      (k : String) (v : ℕ) (ps : List (String × ℕ)) (d : Extensions)
      → find k enabled ≡ none
      → collect enabled functions ((k, v) ∷ ps) d ≡ collect enabled functions ps d
  unfolding collect
  collect_unknown k v ps d n = rw (n, collect) refl

  collect_known :
      (k : String) (v t : ℕ) (ps : List (String × ℕ)) (d : Extensions)
      → find k enabled ≡ some t
      → collect enabled functions ((k, v) ∷ ps) d
        ≡ collect enabled functions ps (add_extension k (common_info enabled functions k t v) d)
  unfolding collect
  collect_known k v t ps d s = rw (s, collect) refl

  common_unknown :
      (name k : String) (v : ℕ) (ps : List (String × ℕ))
      → find k enabled ≡ none
      → common name ((k, v) ∷ ps) ≡ common name ps
  common_unknown name k v ps n = elim (Bool-cases (k == name)) [
    | inr z ↦ rw z refl
    | inl y ↦
        let n' : find name enabled ≡ none =
          subst (λ m. find m enabled ≡ none) ((eq_iff k name).0 y) n in
        rw (n', common_of) refl
  ]

  common_known :
      (name k : String) (v t : ℕ) (ps : List (String × ℕ))
      → find k enabled ≡ some t
      → common name ((k, v) ∷ ps)
        ≡ or_else (entry_if (k == name) (common_info enabled functions k t v)) (common name ps)
  unfolding common_info
  common_known name k v t ps s = elim (Bool-cases (k == name)) [
    | inr z ↦ rw z refl
    | inl y ↦
        let e : k ≡ name = (eq_iff k name).0 y in
        let s' : find name enabled ≡ some t = subst (λ m. find m enabled ≡ some t) e s in
        rw (y, s')
          (ap (λ m. some (record { version = min t v; function_names = functions m })) (sym e))
  ]

  find-collect :
      (name : String) (ps : List (String × ℕ)) (d : Extensions)
      → find name (collect enabled functions ps d) ≡ or_else (find name d) (common name ps)
  find-collect name [] d =
      rw (common_none name (find name enabled)) (unfold collect in sym (or_else-none (find name d)))
  find-collect name ((k, v) ∷ ps) d = elim (Option-cases (find k enabled)) [
    | inl n ↦
        ap (find name) (collect_unknown k v ps d n)
        ∙ find-collect name ps d
        ∙ ap (or_else (find name d)) (sym (common_unknown name k v ps n))
    | inr (t, s) ↦
        let e : ExtensionInfo = common_info enabled functions k t v in
        ap (find name) (collect_known k v t ps d s)
        ∙ find-collect name ps (add_extension k e d)
        ∙ ap (λ x. or_else x (common name ps)) (find-add_extension name k e d)
        ∙ or_else_assoc (find name d) (entry_if (k == name) e) (common name ps)
        ∙ ap (or_else (find name d)) (sym (common_known name k v t ps s))
  ]

  -- The last override of a name.
  abbrev pub last_override : String → Extensions → Option ExtensionInfo
  last_override name [] = none
  last_override name ((k, e) ∷ es) = or_else (last_override name es) (entry_if (k == name) e)

  find-override_all :
      (name : String) (es d : Extensions)
      → find name (override_all enabled functions es d)
        ≡ or_else (last_override name es) (find name d)
  unfolding override_all
  find-override_all name [] d = refl
  find-override_all name ((k, e) ∷ es) d =
      find-override_all name es (override k e d)
      ∙ ap (or_else (last_override name es)) (find-override name k e d)
      ∙ sym (or_else_assoc (last_override name es) (entry_if (k == name) e) (find name d))

  -- An extension is offered as the last module that provides it describes it; or else, if the client
  -- was compiled with it and the server reports it, with the lower of their versions and
  -- the functions that the client has for it; or else, if it
  -- is the timer's, as the client describes it itself. If the server's extensions cannot be listed,
  -- only those of the modules are offered.
  pub find-collect_available_extensions :
      (name : String) (ps : List (String × ℕ)) (provided : Extensions)
      → (find name (collect_available_extensions enabled functions (some ps) provided)
          ≡ or_else
              (last_override name provided)
              (or_else (common name ps) (entry_if (timespec_extension == name) timespec_info)))
        × (find name (collect_available_extensions enabled functions none provided)
            ≡ last_override name provided)
  unfolding collect_available_extensions collect_rpc_available_extensions
  find-collect_available_extensions name ps provided = (
    find-override_all name provided
          (add_extension timespec_extension timespec_info (collect enabled functions ps []))
        ∙ ap (or_else (last_override name provided)) (
            find-add_extension name timespec_extension timespec_info
              (collect enabled functions ps [])
            ∙ ap (λ x. or_else x (entry_if (timespec_extension == name) timespec_info))
                (find-collect name ps [])),
    find-override_all name provided [] ∙ or_else-none (last_override name provided),
  )
