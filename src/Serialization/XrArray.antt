-- ===== src/Serialization/XrArray.antt =====
-- `serialize_xr_array` and `deserialize_xr_array`: arrays of OpenXR structs of one type.
use xrtransport.Common.{
  ℕ, ◌%◌, ◌^◌, Bool, true, false, ◌&&◌, not, List, [], ◌∷◌, ◌++◌, Option, none, some, replicate,
  ◌==◌, if◌then◌else◌,
}
use xrtransport.Serialization.Stream.{
  unknown_structure, undefined, Result, ok, throws, Reader, pure, fail, ◌>>=◌, bind,
}
use xrtransport.Serialization.Bytes.{serialize, deserialize, u32}
use xrtransport.Serialization.Pointer.{Codec, Pointer, serialize_array, deserialize_array}
use xrtransport.Serialization.Chain.{
  Node, Chain, Entry, Table, lookup, serialize_struct, deserialize_struct, serialize_xr,
  deserialize_xr,
}

-- An element: the struct, and the chain behind its `next`.
abbrev pub XrStruct : Type 0 → Type 0
XrStruct P = Node P × Chain P

module _ {P : Type 0} (table : Table P) where
  -- The serializer and deserializer of a type, as the loops over the elements call them. In place,
  -- memory that was laid out for another type is not the type's.
  abbrev pub struct_codec : Bool → Bool → ℕ → Entry P → Codec (XrStruct P)
  struct_codec skip in_place type e = record {
    write = λ x. serialize_struct e x.0 (serialize_xr table skip x.1);
    read = λ old.
        if in_place && not (old.0.type == type)
        then fail undefined
        else deserialize_struct e old.0.payload (deserialize_xr table in_place old.1);
  }

  serialize_known : Bool → ℕ → Option (Entry P) → List (XrStruct P) → ℕ → Result (List ℕ)
  serialize_known skip type (some e) xs count =
      bind (serialize_array (struct_codec skip false type e) xs count)
        (λ bs. ok (serialize u32 count ++ (serialize u32 type ++ bs)))
  serialize_known true type none xs count = ok (serialize u32 0)
  serialize_known false type none xs count = throws (unknown_structure type)

  -- The type is that of the first element, which is read even if `len` is 0.
  unfoldable pub serialize_xr_array : Bool → Pointer (XrStruct P) → ℕ → Result (List ℕ)
  unfolding serialize_known
  serialize_xr_array skip none len = ok (serialize u32 0)
  serialize_xr_array skip (some []) len = throws undefined
  serialize_xr_array skip (some (x ∷ xs)) len =
      serialize_known skip x.0.type (lookup table x.0.type) (x ∷ xs) (len % 2 ^ 32)

  unfoldable pub fresh_struct : Entry P → XrStruct P
  fresh_struct e = (record { type = 0; payload = e.fresh }, [])

  -- The destination: the receiver's array in place, or memory from `malloc`.
  unfoldable pub destination :
      Bool → Pointer (XrStruct P) → Entry P → ℕ → Result (List (XrStruct P))
  unfolding fresh_struct
  destination true none e count = throws undefined
  destination true (some olds) e count = ok olds
  destination false old e count = ok (replicate count (fresh_struct e))

  unfoldable pub deserialize_elements :
      Bool → Pointer (XrStruct P) → ℕ → ℕ → Option (Entry P) → Reader (Pointer (XrStruct P))
  unfolding destination
  deserialize_elements in_place old count type none bs = throws undefined
  deserialize_elements in_place old count type (some e) bs =
      bind (destination in_place old e count) (λ olds.
        (do xs ← deserialize_array (struct_codec false in_place type e) olds count; pure (some xs))
          bs)

  -- With a count of 0 the receiver's pointer becomes null, in place too.
  unfoldable pub deserialize_xr_array : Bool → Pointer (XrStruct P) → Reader (Pointer (XrStruct P))
  unfolding deserialize_elements
  deserialize_xr_array in_place old = do
    count ← deserialize u32
    if count == 0 then pure none else (do
      type ← deserialize u32
      deserialize_elements in_place old count type (lookup table type))
