-- ===== src/Common/Dict.antt =====
-- Maps from numbers, as association lists: `std::unordered_map` where the order does not matter.
use Prim.Native.Nat.{ℕ}
use mathlib.Core.Path.{◌≡◌}
use mathlib.Core.Option.{Option, none, some}
use mathlib.Core.List.{List, [], ◌∷◌}
use native.Mathlib.Omega.{arith}
use xrtransport.Common.Tests.{◌==◌, if◌then◌else◌}

abbrev pub Dict {ℓ} : Type ℓ → Type ℓ
Dict V = List (ℕ × V)

module _ {ℓ} {V : Type ℓ} where
  -- `find`
  unfoldable pub find : ℕ → Dict V → Option V
  find k [] = none
  find k ((j, v) ∷ d) = if j == k then some v else find k d

  -- `erase`
  unfoldable pub erase : ℕ → Dict V → Dict V
  erase k [] = []
  erase k ((j, v) ∷ d) = let rest = erase k d in if j == k then rest else (j, v) ∷ rest

  -- `d[k] = v`
  unfoldable pub assign : ℕ → V → Dict V → Dict V
  unfolding erase
  assign k v d = (k, v) ∷ erase k d

  -- `emplace`, which leaves an entry that is there.
  unfoldable pub emplace : ℕ → V → Dict V → Dict V
  emplace k v d = elim (find k d) [ none ↦ (k, v) ∷ d | some w ↦ d ]

  pub find-erase : (j k : ℕ) (d : Dict V) → find j (erase k d) ≡ (if j == k then none else find j d)
  unfolding find erase
  find-erase j k [] = ground arith
  find-erase j k ((i, v) ∷ d) = ground (arith, find-erase j k d)

  pub find-assign :
      (j k : ℕ) (v : V) (d : Dict V) → find j (assign k v d) ≡ (if j == k then some v else find j d)
  unfolding find assign
  find-assign j k v d = ground (arith, find-erase j k d)

  pub find-emplace :
      (j k : ℕ) (v : V) (d : Dict V)
      → find j (emplace k v d)
        ≡ elim (find j d) [ some w ↦ some w | none ↦ if j == k then some v else none ]
  unfolding find emplace
  find-emplace j k v d = ground arith
