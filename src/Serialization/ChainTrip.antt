-- ===== src/Serialization/ChainTrip.antt =====
-- `serialize_xr` followed by `deserialize_xr`; what unknown structs change; the depth of recursion.
use xrtransport.Common.{
  ℕ, zero, suc, ◌≤◌, ◌<◌, ◌≡◌, refl, ap, ◌∙◌, inl, inr, Bool, true, false, List, [], ◌∷◌, ◌++◌,
  Option, none, some, arith, length, length-append, ◌==◌, Option-cases, Bool-cases,
}
use xrtransport.Serialization.Stream.{ok, Reader, bind, Reads, Fuelled, bind-Fuelled}
use xrtransport.Serialization.Bytes.{
  serialize, deserialize, length-serialize, deserialize-Fuelled, length-deserialize, u32,
}
use xrtransport.Serialization.Chain.{
  Node, Chain, Entry, Table, lookup, serialize_struct, deserialize_struct, serialize_xr, some_type,
  null_type, deserialize_chain, deserialize_xr,
}
use xrtransport.Serialization.Chains.{
  IsTable, Prepared, known, known-some, known-none, serialize_xr-some, serialize_xr-none,
  deserialize_chain-serialize_xr,
}

module _ {P : Type 0} (table : Table P) where
  length-known-le :
      (skip : Bool) (ns : Chain P) (bs : List ℕ)
      → serialize_xr table skip ns ≡ ok bs
      → length (known table ns) ≤ length bs
  unfolding known
  length-known-le skip [] bs h = omega arith
  length-known-le skip (n ∷ ns) bs h = elim (Option-cases (lookup table n.type)) [
    | inl l ↦
        rw (known-none table n ns l)
          (length-known-le skip ns bs (serialize_xr-none table skip n ns l h).0)
    | inr (e, l) ↦
        let (cs, ds, hc, hd, split) = serialize_xr-some table skip n ns l h in
        let ih = length-known-le skip ns cs hc in
        rw (known-some table n ns l, ← split)
          (omega (
            arith,
            ih,
            length-append (serialize u32 n.type) (serialize u32 n.type ++ (cs ++ ds)),
            length-append (serialize u32 n.type) (cs ++ ds),
            length-append cs ds,
            length-serialize u32 n.type,
          ))
  ]

  -- The chain that the other side gets: a chain that `serialize_xr` could write is read as its
  -- structs of known type, in order, and the reader stops at its end; the receiver's memory is new,
  -- or in place holds a chain of the same types.
  pub deserialize_xr-serialize_xr :
      (Ready : ℕ → P → P → Type 0) (skip in_place : Bool) (ns olds : Chain P) (bs : List ℕ)
      → IsTable Ready table
      → serialize_xr table skip ns ≡ ok bs
      → Prepared Ready table in_place olds (known table ns)
      → Reads (deserialize_xr table in_place olds) bs (known table ns)
  unfolding deserialize_xr
  deserialize_xr-serialize_xr Ready skip in_place ns olds bs T h r rest =
      deserialize_chain-serialize_xr table Ready T skip in_place ns olds (suc (length (bs ++ rest)))
        bs h r (omega (arith, length-append bs rest, length-known-le skip ns bs h)) rest

  step_known :
      (skip : Bool) (n : Node P) (ns : Chain P) {e : Entry P}
      → lookup table n.type ≡ some e
      → serialize_xr table skip (n ∷ ns)
        ≡ bind
            (serialize_struct e n (serialize_xr table skip ns))
            (λ bs. ok (serialize u32 n.type ++ bs))
  unfolding serialize_xr
  step_known skip n ns l = rw l

  -- Skipping unknown structs writes what the chain without them is written as.
  pub serialize_xr_skip :
      (ns : Chain P) → serialize_xr table true ns ≡ serialize_xr table false (known table ns)
  unfolding known
  serialize_xr_skip [] = unfold serialize_xr in refl
  serialize_xr_skip (n ∷ ns) = elim (Option-cases (lookup table n.type)) [
    | inl l ↦ rw (known-none table n ns l) (skipped l ∙ serialize_xr_skip ns)
    | inr (e, l) ↦ rw (
      known-some table n ns l,
      step_known true n ns l,
      step_known false n (known table ns) l,
      serialize_xr_skip ns,
    )
  ]
    where
      skipped :
          lookup table n.type ≡ none → serialize_xr table true (n ∷ ns) ≡ serialize_xr table true ns
      skipped l = unfold serialize_xr in ground arith

  pub strict_known :
      (ns : Chain P) (bs : List ℕ) → serialize_xr table false ns ≡ ok bs → known table ns ≡ ns
  unfolding known
  strict_known [] bs h = refl
  strict_known (n ∷ ns) bs h = elim (Option-cases (lookup table n.type)) [
    | inl l ↦ let f = (serialize_xr-none table false n ns l h).1 in cc
    | inr (e, l) ↦
        let (cs, ds, hc, hd, split) = serialize_xr-some table false n ns l h in
        rw (known-some table n ns l) (ap (◌∷◌ n) (strict_known ns cs hc))
  ]

  -- A chain that could be written without skipping has no unknown struct, and is written the same
  -- with skipping.
  pub serialize_xr_strict :
      (ns : Chain P) (bs : List ℕ)
      → serialize_xr table false ns ≡ ok bs
      → (known table ns ≡ ns) × (serialize_xr table true ns ≡ ok bs)
  serialize_xr_strict ns bs h =
      (strict_known ns bs h, serialize_xr_skip ns ∙ rw (strict_known ns bs h) h)

  -- No reader of members runs out of fuel.
  pub record IsBounded : Type 0 where
    pub members :
        (t : ℕ) (e : Entry P) (old : P) (bs : List ℕ)
        → lookup table t ≡ some e
        → Fuelled (e.members.read old bs)

  deserialize_struct-Fuelled :
      (e : Entry P) (old : P) (next : Reader (Chain P)) (bs : List ℕ)
      → ((cs : List ℕ) → length cs ≤ length bs → Fuelled (next cs))
      → ((cs : List ℕ) → Fuelled (e.members.read old cs))
      → Fuelled (deserialize_struct e old next bs)
  unfolding deserialize_struct
  deserialize_struct-Fuelled e old next bs h k =
      bind-Fuelled (deserialize u32 bs) _ (deserialize-Fuelled u32 bs) (λ p q.
        bind-Fuelled (next p.1) _ (h p.1 (omega (arith, length-deserialize u32 bs p q)))
          (λ p' q'. bind-Fuelled (e.members.read old p'.1) _ (k p'.1) (λ p'' q'' z. cc)))

  some_type-Fuelled :
      (B : IsBounded) (in_place : Bool) (olds : Chain P) (t : ℕ) (entry : Option (Entry P))
      (next : Chain P → Reader (Chain P)) (bs : List ℕ)
      → lookup table t ≡ entry
      → ((olds' : Chain P) (cs : List ℕ) → length cs ≤ length bs → Fuelled (next olds' cs))
      → Fuelled (some_type table in_place olds t entry next bs)
  unfolding some_type
  some_type-Fuelled B true [] t entry next bs l h = λ q. cc
  some_type-Fuelled B true (o ∷ olds) t none next bs l h = λ q. cc
  some_type-Fuelled B false olds t none next bs l h = λ q. cc
  some_type-Fuelled B true (o ∷ olds) t (some e) next bs l h = elim (Bool-cases (o.type == t)) [
    | inl y ↦ rw y (
        bind-Fuelled (deserialize_struct e o.payload (next olds) bs) _
          (deserialize_struct-Fuelled e o.payload (next olds) bs (h olds)
            (λ cs. B.members t e o.payload cs l))
          (λ p q z. cc))
    | inr n ↦ rw n (λ q. cc)
  ]
  some_type-Fuelled B false olds t (some e) next bs l h =
      bind-Fuelled (deserialize_struct e e.fresh (next []) bs) _
        (deserialize_struct-Fuelled e e.fresh (next []) bs (h [])
          (λ cs. B.members t e e.fresh cs l))
        (λ p q z. cc)

  null_type-Fuelled :
      (in_place : Bool) (olds : Chain P) (bs : List ℕ) → Fuelled (null_type table in_place olds bs)
  unfolding null_type
  null_type-Fuelled true [] bs = λ q. cc
  null_type-Fuelled true (o ∷ olds) bs = λ q. cc
  null_type-Fuelled false olds bs = λ q. cc

  deserialize_chain-Fuelled :
      (B : IsBounded) (fuel : ℕ) (in_place : Bool) (olds : Chain P) (bs : List ℕ)
      → length bs < fuel
      → Fuelled (deserialize_chain table fuel in_place olds bs)
  unfolding deserialize_chain
  deserialize_chain-Fuelled B zero in_place olds bs h = elim h [ ]
  deserialize_chain-Fuelled B (suc fuel) in_place olds bs h =
      bind-Fuelled (deserialize u32 bs) _ (deserialize-Fuelled u32 bs) (λ p q.
        elim (Bool-cases (p.0 == 0)) [
          | inl z ↦ rw z (null_type-Fuelled in_place olds p.1)
          | inr z ↦ rw z (
              some_type-Fuelled B in_place olds p.0 (lookup table p.0) _ p.1 refl (λ olds' cs k.
                deserialize_chain-Fuelled B fuel in_place olds' cs
                  (omega (arith, length-deserialize u32 bs p q))))
        ])

  -- The fuel of `deserialize_xr` is enough on any bytes, well-formed or not, if no reader of the
  -- members of a struct runs out of its own.
  pub deserialize_xr-Fuelled :
      (in_place : Bool) (olds : Chain P) (bs : List ℕ)
      → IsBounded
      → Fuelled (deserialize_xr table in_place olds bs)
  unfolding deserialize_xr
  deserialize_xr-Fuelled in_place olds bs B =
      deserialize_chain-Fuelled B (suc (length bs)) in_place olds bs (omega arith)
