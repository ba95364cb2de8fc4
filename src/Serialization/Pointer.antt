-- ===== src/Serialization/Pointer.antt =====
-- `serialize_array`, `serialize_ptr` and their deserializers, over any element type.
use xrtransport.Common.{
  ℕ, zero, suc, ◌%◌, ◌^◌, Bool, List, [], ◌∷◌, ◌++◌, Option, none, some, replicate, ◌==◌,
  if◌then◌else◌,
}
use xrtransport.Serialization.Stream.{
  into_null, null_into_allocated, undefined, Result, ok, throws, Reader, pure, fail, ◌>>=◌, bind,
}
use xrtransport.Serialization.Bytes.{serialize, deserialize, u32}

-- The overloads of `serialize` and `deserialize` for a type, with their contexts. `read` is given
-- what the memory holds that it writes to.
pub record Codec {ℓ} (A : Type ℓ) : Type ℓ where
  pub write : A → Result (List ℕ)
  pub read : A → Reader A

-- The memory that a pointer points to; `none` is the null pointer.
abbrev pub Pointer {ℓ} : Type ℓ → Type ℓ
Pointer A = Option (List A)

module _ {ℓ} {A : Type ℓ} (c : Codec A) where
  unfoldable pub serialize_array : List A → ℕ → Result (List ℕ)
  serialize_array xs zero = ok []
  serialize_array [] (suc len) = throws undefined
  serialize_array (x ∷ xs) (suc len) =
      bind (c.write x) (λ bs. bind (serialize_array xs len) (λ cs. ok (bs ++ cs)))

  -- `marker` is a `uint32_t`, and `len` a `size_t`.
  unfoldable pub serialize_ptr : Pointer A → ℕ → Result (List ℕ)
  serialize_ptr none len = ok (serialize u32 0)
  serialize_ptr (some xs) len =
      if len % 2 ^ 32 == 0
      then ok (serialize u32 0)
      else bind (serialize_array xs len) (λ bs. ok (serialize u32 (len % 2 ^ 32) ++ bs))

  -- Elements past the first `len` stay as they are.
  unfoldable pub deserialize_array : List A → ℕ → Reader (List A)
  deserialize_array xs zero = pure xs
  deserialize_array [] (suc len) = fail undefined
  deserialize_array (x ∷ xs) (suc len) = do
    y ← c.read x
    ys ← deserialize_array xs len
    pure (y ∷ ys)

  deserialize_in_place : Pointer A → ℕ → Reader (Pointer A)
  deserialize_in_place none zero = pure none
  deserialize_in_place (some xs) zero = fail null_into_allocated
  deserialize_in_place none (suc len) = fail into_null
  deserialize_in_place (some xs) (suc len) = do ys ← deserialize_array xs (suc len); pure (some ys)

  -- `fresh` is what an element of the memory from `malloc` holds.
  deserialize_allocated : A → ℕ → Reader (Pointer A)
  deserialize_allocated fresh zero = pure none
  deserialize_allocated fresh (suc len) = do
    ys ← deserialize_array (replicate (suc len) fresh) (suc len)
    pure (some ys)

  unfoldable pub deserialize_ptr : Bool → A → Pointer A → Reader (Pointer A)
  unfolding deserialize_in_place deserialize_allocated
  deserialize_ptr in_place fresh old = do
    len ← deserialize u32
    if in_place then deserialize_in_place old len else deserialize_allocated fresh len
