-- ===== src/Serialization/Chains.antt =====
-- What arrives of a chain of structs, in new memory and in place.
use xrtransport.Common.{
  ℕ, zero, suc, ◌^◌, ◌<◌, ◌≡◌, ◌≢◌, ap, ◌∙◌, inl, inr, Bool, true, false, List, [], ◌∷◌, ◌++◌, none,
  some, arith, length, ◌==◌, ==_iff, Option-cases,
}
use xrtransport.Serialization.Stream.{
  ok, Reader, pure, ◌>>=◌, bind, Reads, bind-eq-ok, ok-injective, >>=-Reads,
}
use xrtransport.Serialization.Bytes.{
  serialize, deserialize, deserialize-serialize, deserialize-bind, u32,
}
use xrtransport.Serialization.Pointers.{IsCodec}
use xrtransport.Serialization.Chain.{
  Node, Chain, Entry, Table, lookup, serialize_struct, deserialize_struct, serialize_xr, some_type,
  deserialize_chain,
}

module _ {P : Type 0} (Ready : ℕ → P → P → Type 0) (table : Table P) where
  -- Every type of the table is a type, XR_TYPE_UNKNOWN aside, and reads what it writes.
  pub record IsTable : Type 0 where
    pub types : (t : ℕ) (e : Entry P) → lookup table t ≡ some e → (t ≢ 0) × (t < 2 ^ 32)
    pub codecs : (t : ℕ) (e : Entry P) → lookup table t ≡ some e → IsCodec (Ready t) e.members

  -- The receiver's memory is ready for a chain: new memory for each of its structs, or in place a
  -- chain of the same types.
  abbrev pub Prepared : Bool → Chain P → Chain P → Type 0
  Prepared true [] [] = Unit
  Prepared true (o ∷ olds) [] = ⊥
  Prepared false olds [] = Unit
  Prepared true [] (n ∷ ns) = ⊥
  Prepared true (o ∷ olds) (n ∷ ns) =
      (o.type ≡ n.type) × Ready n.type o.payload n.payload × Prepared true olds ns
  Prepared false olds (n ∷ ns) =
      ((e : Entry P) → lookup table n.type ≡ some e → Ready n.type e.fresh n.payload)
      × Prepared false [] ns

module _ {P : Type 0} (table : Table P) where
  -- The structs of a chain that the table knows.
  unfoldable pub known : Chain P → Chain P
  known [] = []
  known (n ∷ ns) = elim (lookup table n.type) [ none ↦ known ns | some e ↦ n ∷ known ns ]

  pub known-some :
      (n : Node P) (ns : Chain P) {e : Entry P}
      → lookup table n.type ≡ some e
      → known (n ∷ ns) ≡ n ∷ known ns
  unfolding known
  known-some n ns h = ground arith

  pub known-none :
      (n : Node P) (ns : Chain P) → lookup table n.type ≡ none → known (n ∷ ns) ≡ known ns
  unfolding known
  known-none n ns h = ground arith

  -- What `serialize_xr` has written when it returns, by the first struct of the chain.
  pub serialize_xr-some :
      (skip : Bool) (n : Node P) (ns : Chain P) {e : Entry P} {bs : List ℕ}
      → lookup table n.type ≡ some e
      → serialize_xr table skip (n ∷ ns) ≡ ok bs
      → (cs ds : List ℕ) × (serialize_xr table skip ns ≡ ok cs)
        × (e.members.write n.payload ≡ ok ds)
        × (serialize u32 n.type ++ (serialize u32 n.type ++ (cs ++ ds)) ≡ bs)
  unfolding serialize_xr serialize_struct
  serialize_xr-some skip n ns {e} {bs} l h =
      let h' : bind (serialize_struct e n (serialize_xr table skip ns))
            (λ bs. ok (serialize u32 n.type ++ bs))
          ≡ ok bs =
        rw l at h in
      let (bs1, e1, k1) = bind-eq-ok (serialize_struct e n (serialize_xr table skip ns)) _ h' in
      let (cs, e2, k2) = bind-eq-ok (serialize_xr table skip ns) _ e1 in
      let (ds, e3, k3) = bind-eq-ok (e.members.write n.payload) _ k2 in
      (cs, ds, e2, e3, ap (λ xs. serialize u32 n.type ++ xs) (ok-injective k3) ∙ ok-injective k1)

  pub serialize_xr-none :
      (skip : Bool) (n : Node P) (ns : Chain P) {bs : List ℕ}
      → lookup table n.type ≡ none
      → serialize_xr table skip (n ∷ ns) ≡ ok bs
      → (serialize_xr table skip ns ≡ ok bs) × (skip ≡ true)
  unfolding serialize_xr
  serialize_xr-none true n ns l h = ground arith
  serialize_xr-none false n ns l h = ground arith

  pub deserialize_struct-Reads :
      (e : Entry P) (old : P) (n : Node P) (next : Reader (Chain P)) (ns : Chain P) (cs ds : List ℕ)
      → n.type < 2 ^ 32
      → Reads next cs ns
      → Reads (e.members.read old) ds n.payload
      → Reads (deserialize_struct e old next) (serialize u32 n.type ++ (cs ++ ds)) (n, ns)
  unfolding deserialize_struct
  deserialize_struct-Reads e old n next ns cs ds h r q =
      >>=-Reads (deserialize u32) _ (serialize u32 n.type) (cs ++ ds)
        (deserialize-serialize u32 n.type h) (>>=-Reads next _ cs ds r (λ rest. rw (q rest, ◌>>=◌)))

  linked :
      (m : Reader (Node P × Chain P)) (bs : List ℕ) (n : Node P) (ns : Chain P)
      → Reads m bs (n, ns)
      → Reads (m >>= λ p. pure (p.0 ∷ p.1)) bs (n ∷ ns)
  linked m bs n ns h rest = rw (h rest, ◌>>=◌)

  some_type-Reads :
      (Ready : ℕ → P → P → Type 0) (in_place : Bool) (olds : Chain P) (n : Node P) (ks : Chain P)
      (e : Entry P) (next : Chain P → Reader (Chain P)) (cs ds : List ℕ)
      → IsTable Ready table
      → lookup table n.type ≡ some e
      → e.members.write n.payload ≡ ok ds
      → Prepared Ready table in_place olds (n ∷ ks)
      → ((olds' : Chain P) → Prepared Ready table in_place olds' ks → Reads (next olds') cs ks)
      → Reads
          (some_type table in_place olds n.type (some e) next)
          (serialize u32 n.type ++ (cs ++ ds))
          (n ∷ ks)
  unfolding some_type
  some_type-Reads Ready true [] n ks e next cs ds T l w r reads = elim r [ ]
  some_type-Reads Ready true (o ∷ olds) n ks e next cs ds T l w r reads =
      rw ((==_iff o.type n.type).1 r.0) (
        linked (deserialize_struct e o.payload (next olds)) _ n ks (
          deserialize_struct-Reads e o.payload n (next olds) ks cs ds (T.types n.type e l).1
            (reads olds r.2) ((T.codecs n.type e l).read-write o.payload n.payload ds r.1 w)))
  some_type-Reads Ready false olds n ks e next cs ds T l w r reads =
      linked (deserialize_struct e e.fresh (next [])) _ n ks (
        deserialize_struct-Reads e e.fresh n (next []) ks cs ds (T.types n.type e l).1
          (reads [] r.1) ((T.codecs n.type e l).read-write e.fresh n.payload ds (r.0 e l) w))

  -- A chain that could be written is read as the structs that the table knows, with enough fuel.
  pub deserialize_chain-serialize_xr :
      (Ready : ℕ → P → P → Type 0)
      → IsTable Ready table
      → (skip in_place : Bool) (ns olds : Chain P) (fuel : ℕ) (bs : List ℕ)
      → serialize_xr table skip ns ≡ ok bs
      → Prepared Ready table in_place olds (known ns)
      → length (known ns) < fuel
      → Reads (deserialize_chain table fuel in_place olds) bs (known ns)
  unfolding serialize_xr deserialize_chain known
  deserialize_chain-serialize_xr Ready T skip in_place ns olds zero bs h r f = elim f [ ]
  deserialize_chain-serialize_xr Ready T skip true [] [] (suc fuel) bs h r f =
      λ rest. rw (← ok-injective h) (deserialize-bind u32 0 _ rest (omega arith))
  deserialize_chain-serialize_xr Ready T skip true [] (o ∷ olds) (suc fuel) bs h r f = elim r [ ]
  deserialize_chain-serialize_xr Ready T skip false [] olds (suc fuel) bs h r f =
      λ rest. rw (← ok-injective h) (deserialize-bind u32 0 _ rest (omega arith))
  deserialize_chain-serialize_xr Ready T skip in_place (n ∷ ns) olds (suc fuel) bs h r f =
      elim (Option-cases (lookup table n.type)) [
        | inl l ↦
            let k = known-none n ns l in
            rw k (
              deserialize_chain-serialize_xr Ready T skip in_place ns olds (suc fuel) bs
                (serialize_xr-none skip n ns l h).0 (rw k at r) (rw k at f))
        | inr (e, l) ↦
            let k = known-some n ns l in
            let (cs, ds, hc, hd, split) = serialize_xr-some skip n ns l h in
            let nz : (n.type == 0) ≡ false = ground (arith, (T.types n.type e l).0) in
            rw (k, ← split)
              (>>=-Reads (deserialize u32) _ (serialize u32 n.type)
                (serialize u32 n.type ++ (cs ++ ds))
                (deserialize-serialize u32 n.type (T.types n.type e l).1)
                (rw (nz, l)
                  (some_type-Reads Ready in_place olds n (known ns) e
                    (deserialize_chain table fuel in_place) cs ds T l hd (rw k at r)
                    (λ olds' r'.
                      deserialize_chain-serialize_xr Ready T skip in_place ns olds' fuel cs hc r'
                        (let f' = rw k at f in omega arith)))))
      ]
