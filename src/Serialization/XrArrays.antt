-- ===== src/Serialization/XrArrays.antt =====
-- What arrives of an array of structs, and what goes wrong with an array of no elements.
use xrtransport.Common.{
  ℕ, ◌≡◌, ◌&&◌, not, Bool, false, List, [], ◌∷◌, ◌++◌, append_assoc, append-nil, none, some, arith,
  ◌==◌,
}
use xrtransport.Serialization.Stream.{ok}
use xrtransport.Serialization.Bytes.{serialize, deserialize-bind, u32}
use xrtransport.Serialization.Pointer.{Pointer, serialize_array}
use xrtransport.Serialization.Chain.{Entry, Table, lookup}
use xrtransport.Serialization.Chains.{IsTable, Prepared}
use xrtransport.Serialization.XrArray.{XrStruct, serialize_xr_array, deserialize_xr_array}

module _ {P : Type 0} (table : Table P) where
  -- An array of a known type with no elements is written with its type behind the count 0; the
  -- reader takes the count alone, and leaves the type in the stream.
  pub empty_array_desync :
      (skip in_place : Bool) (x : XrStruct P) (xs : List (XrStruct P)) (e : Entry P)
      (old : Pointer (XrStruct P))
      → lookup table x.0.type ≡ some e
      → (bs : List ℕ) × (serialize_xr_array table skip (some (x ∷ xs)) 0 ≡ ok bs)
        × ((rest : List ℕ)
            → deserialize_xr_array table in_place old (bs ++ rest)
              ≡ ok (none, serialize u32 x.0.type ++ rest))
  unfolding serialize_xr_array serialize_array deserialize_xr_array
  empty_array_desync skip in_place x xs e old l = (
    serialize u32 0 ++ (serialize u32 x.0.type ++ []),
    rw l,
    λ rest.
        rw
          (
            append-nil (serialize u32 x.0.type),
            append_assoc (serialize u32 0) (serialize u32 x.0.type) rest,
          )
          (deserialize-bind u32 0 _ (serialize u32 x.0.type ++ rest) (omega arith)),
  )

module _ {P : Type 0} (Ready : ℕ → P → P → Type 0) (table : Table P) (T : IsTable Ready table) where
  -- The memory of an element is ready for it: new memory, or in place a struct of the type.
  abbrev pub ElementReady : Bool → ℕ → XrStruct P → XrStruct P → Type 0
  ElementReady in_place type old x =
      (x.0.type ≡ type)
      × ((in_place && not (old.0.type == type)) ≡ false)
      × Ready type old.0.payload x.0.payload
      × Prepared Ready table in_place old.1 x.1
