-- ===== src/Serialization/Chain.antt =====
-- `serialize_xr` and `deserialize_xr`: chains of OpenXR structs that are linked by `next`. A table
-- gives the (generated) serializer, deserializer and size of each struct type.
use xrtransport.Common.{
  ℕ, zero, suc, Bool, true, false, List, [], ◌∷◌, ◌++◌, Option, none, some, length, ◌==◌,
  if◌then◌else◌,
}
use xrtransport.Serialization.Stream.{
  unknown_structure, into_null, null_into_allocated, undefined, out_of_fuel, Result, ok, throws,
  Reader, pure, fail, ◌>>=◌, bind,
}
use xrtransport.Serialization.Bytes.{serialize, deserialize, u32}
use xrtransport.Serialization.Pointer.{Codec}

-- One struct of a chain: its `type`, and the members behind `next`.
pub record Node (P : Type 0) : Type 0 where
  pub type : ℕ
  pub payload : P

-- A struct is reached through a pointer, so a chain is a list; the null pointer is [].
abbrev pub Chain : Type 0 → Type 0
Chain P = List (Node P)

-- The entries of `serializer_lookup_table`, `deserializer_lookup_table` and `size_lookup_table` for
-- a type. `members` is the part of the two functions behind `type` and `next`, and `fresh` what the
-- members hold in memory from `malloc`.
pub record Entry (P : Type 0) : Type 0 where
  pub members : Codec P
  pub size : ℕ
  pub fresh : P

abbrev pub Table : Type 0 → Type 0
Table P = List (ℕ × Entry P)

module _ {P : Type 0} where
  -- `serializer_lookup` and `deserializer_lookup`; `none` is the null function pointer.
  unfoldable pub lookup : Table P → ℕ → Option (Entry P)
  lookup [] type = none
  lookup ((t, e) ∷ table) type = if t == type then some e else lookup table type

  unfoldable pub size_lookup : Table P → ℕ → ℕ
  size_lookup table type = elim (lookup table type) [ none ↦ 0 | some e ↦ e.size ]

  -- A struct's own serializer: its `type`, the chain behind `next`, its members.
  unfoldable pub serialize_struct : Entry P → Node P → Result (List ℕ) → Result (List ℕ)
  serialize_struct e n next =
      bind next
        (λ bs. bind (e.members.write n.payload) (λ cs. ok (serialize u32 n.type ++ (bs ++ cs))))

  -- A struct's own deserializer.
  unfoldable pub deserialize_struct : Entry P → P → Reader (Chain P) → Reader (Node P × Chain P)
  deserialize_struct e old next = do
    type ← deserialize u32
    ns ← next
    payload ← e.members.read old
    pure (record { type = type; payload = payload }, ns)

module _ {P : Type 0} (table : Table P) where
  serialize_known : Bool → Node P → Option (Entry P) → Result (List ℕ) → Result (List ℕ)
  unfolding serialize_struct
  serialize_known skip n (some e) next =
      bind (serialize_struct e n next) (λ bs. ok (serialize u32 n.type ++ bs))
  serialize_known true n none next = next
  serialize_known false n none next = throws (unknown_structure n.type)

  -- `skip` is `ctx.skip_unknown_structs`.
  unfoldable pub serialize_xr : Bool → Chain P → Result (List ℕ)
  unfolding serialize_known
  serialize_xr skip [] = ok (serialize u32 0)
  serialize_xr skip (n ∷ ns) = serialize_known skip n (lookup table n.type) (serialize_xr skip ns)

  -- The overload for const pointers; the other one asserts where this one throws.
  unfoldable pub null_type : Bool → Chain P → Reader (Chain P)
  null_type true [] = pure []
  null_type true (o ∷ olds) = fail null_into_allocated
  null_type false olds = pure []

  link : Reader (Node P × Chain P) → Reader (Chain P)
  link m = do p ← m; pure (p.0 ∷ p.1)

  -- In place, memory that was laid out for another type is not the type's.
  unfoldable pub some_type :
      Bool → Chain P → ℕ → Option (Entry P) → (Chain P → Reader (Chain P)) → Reader (Chain P)
  unfolding link
  some_type true [] type entry next = fail into_null
  some_type ip olds type none next = fail undefined
  some_type true (o ∷ olds) type (some e) next =
      if o.type == type then link (deserialize_struct e o.payload (next olds)) else fail undefined
  some_type false olds type (some e) next = link (deserialize_struct e e.fresh (next []))

  unfoldable pub deserialize_chain : ℕ → Bool → Chain P → Reader (Chain P)
  unfolding null_type some_type
  deserialize_chain zero in_place olds = fail out_of_fuel
  deserialize_chain (suc fuel) in_place olds = do
    type ← deserialize u32
    if type == 0
        then null_type in_place olds
        else some_type in_place olds type (lookup table type) (deserialize_chain fuel in_place)

  -- Each struct takes eight bytes at least, so the bytes that are left bound the depth.
  unfoldable pub deserialize_xr : Bool → Chain P → Reader (Chain P)
  deserialize_xr in_place olds bs = deserialize_chain (suc (length bs)) in_place olds bs
