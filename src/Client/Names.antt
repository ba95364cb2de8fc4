-- ===== src/Client/Names.antt =====
-- Sets of names and maps from names: `std::unordered_set` and `std::unordered_map` over
-- `std::string`.
use Prim.Native.String.{String}
use text.Mathlib.Text.{◌==◌}
use text.Mathlib.TextEquality.{eq_iff}
use xrtransport.Common.{
  ◌≡◌, refl, Bool, true, false, ◌||◌, List, [], ◌∷◌, Option, none, some, if◌then◌else◌, Bool-cases,
  inl, inr, subst, ap, ◌∙◌, sym,
}

abbrev pub same : String → String → Bool
same m n = m == n

abbrev pub contains : String → List String → Bool
contains name [] = false
contains name (n ∷ ns) = if n == name then true else contains name ns

-- `emplace`
unfoldable pub emplace : String → List String → List String
emplace name ns = if contains name ns then ns else name ∷ ns

unfoldable pub emplace_all : List String → List String → List String
unfolding emplace
emplace_all [] ns = ns
emplace_all (m ∷ ms) ns = emplace_all ms (emplace m ns)

abbrev pub find {ℓ} : {V : Type ℓ} → String → List (String × V) → Option V
find name [] = none
find name ((n, v) ∷ d) = if n == name then some v else find name d

unfoldable pub erase {ℓ} : {V : Type ℓ} → String → List (String × V) → List (String × V)
erase name [] = []
erase name ((n, v) ∷ d) = let rest = erase name d in if n == name then rest else (n, v) ∷ rest

-- A name is in a set behind `emplace` if it was or is the new one.
pub contains-emplace :
    (name m : String) (ns : List String)
    → contains name (emplace m ns) ≡ (m == name) || contains name ns
unfolding emplace
contains-emplace name m ns = elim (Bool-cases (contains m ns)) [
  | inr n ↦ rw n (split (m == name))
  | inl y ↦ rw y (elim (Bool-cases (m == name)) [
    | inr z ↦ rw z refl
    | inl e ↦ rw e (subst (λ k. contains k ns ≡ true) ((eq_iff m name).0 e) y)
  ])
]
  where
    split : (b : Bool) → (if b then true else contains name ns) ≡ b || contains name ns
    split true = refl
    split false = refl

pub contains-emplace_all :
    (name : String) (ms ns : List String)
    → contains name (emplace_all ms ns) ≡ contains name ms || contains name ns
unfolding emplace_all
contains-emplace_all name [] ns = refl
contains-emplace_all name (m ∷ ms) ns =
    contains-emplace_all name ms (emplace m ns)
    ∙ ap (λ b. contains name ms || b) (contains-emplace name m ns)
    ∙ swap (m == name) (contains name ms) (contains name ns)
  where
    swap : (a b c : Bool) → b || (a || c) ≡ (if a then true else b) || c
    swap true true c = refl
    swap true false c = refl
    swap false true c = refl
    swap false false c = refl

pub find-erase {ℓ} :
    {V : Type ℓ} (name m : String) (d : List (String × V))
    → find name (erase m d) ≡ (if m == name then none else find name d)
unfolding erase
find-erase name m [] = elim (Bool-cases (m == name)) [ inl y ↦ rw y refl | inr z ↦ rw z refl ]
find-erase {V} name m ((n, v) ∷ d) = elim (Bool-cases (n == m)) [
  | inl y ↦ rw y (
      find-erase name m d
      ∙ subst
          (λ k.
            (if m == name then none else find name d)
            ≡ (if m == name then none else (if k == name then some v else find name d)))
          (sym ((eq_iff n m).0 y)) (idem (m == name)))
  | inr z ↦ rw z (elim (Bool-cases (n == name)) [
    | inr e ↦ rw e (find-erase name m d)
    | inl e ↦ elim (Bool-cases (m == name)) [
      | inr w ↦ rw (e, w) refl
      | inl w ↦
          let same : (n == m) ≡ true =
            (eq_iff n m).1 ((eq_iff n name).0 e ∙ sym ((eq_iff m name).0 w)) in
          absurd (cc)
    ]
  ])
]
  where
    idem :
        (b : Bool)
        → (if b then none else find name d)
          ≡ (if b then none else (if b then some v else find name d))
    idem true = refl
    idem false = refl
