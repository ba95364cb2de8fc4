-- ===== src/Serialization/Pointers.antt =====
-- What arrives of an array behind a pointer.
use xrtransport.Common.{
  ℕ, zero, suc, ◌%◌, ◌^◌, ◌<◌, ◌≡◌, refl, ap, ◌∙◌, true, false, List, [], ◌∷◌, ◌++◌, append_assoc,
  append-nil, none, some, arith, replicate, take, drop, suc-eq-zero,
}
use xrtransport.Serialization.Stream.{
  into_null, null_into_allocated, Result, ok, throws, ◌>>=◌, bind, Reads, bind-eq-ok, ok-injective,
  >>=-Reads,
}
use xrtransport.Serialization.Bytes.{
  serialize, deserialize, deserialize-bind, deserialize-serialize, u32,
}
use xrtransport.Serialization.Pointer.{
  Codec, Pointer, serialize_array, serialize_ptr, deserialize_array, deserialize_ptr,
}

-- What is written of a value is read back over any memory that is ready for the value.
pub record IsCodec {ℓ} {A : Type ℓ} (Ready : A → A → Type 0) (c : Codec A) : Type ℓ where
  pub read-write :
      (old a : A) (bs : List ℕ) → Ready old a → c.write a ≡ ok bs → Reads (c.read old) bs a

module _ {ℓ} {A : Type ℓ} (Ready : A → A → Type 0) where
  -- The first `len` elements of the memory are ready for those of the array.
  abbrev pub AllReady : List A → List A → ℕ → Type 0
  AllReady olds xs zero = Unit
  AllReady [] xs (suc len) = ⊥
  AllReady (o ∷ olds) [] (suc len) = ⊥
  AllReady (o ∷ olds) (x ∷ xs) (suc len) = Ready o x × AllReady olds xs len

-- What is written depends on the serializer alone.
pub serialize_array-write {ℓ} :
    {A : Type ℓ} (c d : Codec A) (xs : List A) (len : ℕ)
    → ((x : A) → c.write x ≡ d.write x)
    → serialize_array c xs len ≡ serialize_array d xs len
unfolding serialize_array
serialize_array-write c d xs zero h = refl
serialize_array-write c d [] (suc len) h = refl
serialize_array-write c d (x ∷ xs) (suc len) h = rw (h x, serialize_array-write c d xs len h)

module _ {ℓ} {A : Type ℓ} (Ready : A → A → Type 0) (c : Codec A) (law : IsCodec Ready c) where
  pub deserialize_array-serialize_array :
      (len : ℕ) (olds xs : List A) (bs : List ℕ)
      → AllReady Ready olds xs len
      → serialize_array c xs len ≡ ok bs
      → Reads (deserialize_array c olds len) bs (take len xs ++ drop len olds)
  unfolding serialize_array deserialize_array
  deserialize_array-serialize_array zero olds xs bs r e rest = ground arith
  deserialize_array-serialize_array (suc len) [] xs bs r e rest = elim r [ ]
  deserialize_array-serialize_array (suc len) (o ∷ olds) [] bs r e rest = elim r [ ]
  deserialize_array-serialize_array (suc len) (o ∷ olds) (x ∷ xs) bs r e rest =
      let (b, eb, h) = bind-eq-ok (c.write x) _ e in
      let (d, ed, k) = bind-eq-ok (serialize_array c xs len) _ h in
      let first = law.read-write o x b r.0 eb in
      let others = deserialize_array-serialize_array len olds xs d r.1 ed in
      rw (← ok-injective k)
        (>>=-Reads (c.read o) _ b d first (λ rest'. rw (others rest', ◌>>=◌)) rest)

module _ {ℓ} {A : Type ℓ} where
  -- What stands behind the pointer on the other side: an array of no elements arrives as null.
  abbrev pub received : Pointer A → ℕ → Pointer A
  received none len = none
  received (some xs) zero = none
  received (some xs) (suc len) = some (take (suc len) xs)

  -- What becomes of the receiver's pointer in place.
  abbrev pub placed : Pointer A → Pointer A → ℕ → Result (Pointer A)
  placed none none len = ok none
  placed none (some xs) zero = ok none
  placed none (some xs) (suc len) = throws into_null
  placed (some ys) none len = throws null_into_allocated
  placed (some ys) (some xs) zero = throws null_into_allocated
  placed (some ys) (some xs) (suc len) = ok (some (take (suc len) xs ++ drop (suc len) ys))

  pub drop-replicate : (n : ℕ) (a : A) → drop n (replicate n a) ≡ []
  drop-replicate zero a = refl
  drop-replicate (suc n) a = drop-replicate n a

module _ {ℓ} {A : Type ℓ} (Ready : A → A → Type 0) (c : Codec A) (law : IsCodec Ready c) where
  -- The memory behind the receiver's pointer is ready, if both pointers point to elements.
  abbrev pub PlaceReady : Pointer A → Pointer A → ℕ → Type 0
  PlaceReady (some ys) (some xs) len = AllReady Ready ys xs len
  PlaceReady _ _ len = Unit

  pub AllReady-replicate :
      (fresh : A) (len : ℕ) (xs : List A) {bs : List ℕ}
      → ((a : A) → Ready fresh a)
      → serialize_array c xs len ≡ ok bs
      → AllReady Ready (replicate len fresh) xs len
  unfolding serialize_array
  AllReady-replicate fresh zero xs f e = tt
  AllReady-replicate fresh (suc len) [] f e = cc
  AllReady-replicate fresh (suc len) (x ∷ xs) f e =
      let (b, eb, h) = bind-eq-ok (c.write x) _ e in
      let (d, ed, k) = bind-eq-ok (serialize_array c xs len) _ h in
      (f x, AllReady-replicate fresh len xs f ed)

  -- The marker is the length, and null for no elements.
  serialize_ptr-some :
      (xs : List A) (len : ℕ) {bs : List ℕ}
      → suc len < 2 ^ 32
      → serialize_ptr c (some xs) (suc len) ≡ ok bs
      → (cs : List ℕ) × (serialize_array c xs (suc len) ≡ ok cs)
        × (serialize u32 (suc len) ++ cs ≡ bs)
  unfolding serialize_ptr
  serialize_ptr-some xs len {bs} h e =
      let m : suc len % 2 ^ 32 ≡ suc len = omega arith in
      let e' : bind (serialize_array c xs (suc len)) (λ cs. ok (serialize u32 (suc len) ++ cs))
          ≡ ok bs =
        rw (m, suc-eq-zero) at e in
      let (cs, ec, k) = bind-eq-ok (serialize_array c xs (suc len)) _ e' in (cs, ec, ok-injective k)

  -- A pointer that is written with a length below 2^32, and read into new memory, arrives as a
  -- pointer to the first `len` elements, or as null if it was null or `len` is 0.
  pub deserialize_ptr-serialize_ptr :
      (fresh : A) (old p : Pointer A) (len : ℕ) (bs : List ℕ)
      → ((a : A) → Ready fresh a)
      → len < 2 ^ 32
      → serialize_ptr c p len ≡ ok bs
      → Reads (deserialize_ptr c false fresh old) bs (received p len)
  unfolding deserialize_ptr serialize_ptr
  deserialize_ptr-serialize_ptr fresh old none len bs f h e rest =
      rw (← ok-injective e) (deserialize-bind u32 0 _ rest (omega arith))
  deserialize_ptr-serialize_ptr fresh old (some xs) zero bs f h e rest =
      rw (← ok-injective e) (deserialize-bind u32 0 _ rest (omega arith))
  deserialize_ptr-serialize_ptr fresh old (some xs) (suc len) bs f h e rest =
      let (cs, ec, k) = serialize_ptr-some xs len h e in
      rw (← k) (
        >>=-Reads (deserialize u32) _ (serialize u32 (suc len)) cs
          (deserialize-serialize u32 (suc len) h) (λ rest'. rw (fresh_elements cs ec rest', ◌>>=◌))
          rest)
    where
      fresh_elements :
          (cs : List ℕ)
          → serialize_array c xs (suc len) ≡ ok cs
          → Reads (deserialize_array c (replicate (suc len) fresh) (suc len)) cs (take (suc len) xs)
      fresh_elements cs ec rest' =
          deserialize_array-serialize_array Ready c law (suc len) (replicate (suc len) fresh) xs cs
            (AllReady-replicate fresh (suc len) xs f ec) ec rest'
          ∙ ap (λ ys. ok (ys, rest'))
              (rw (drop-replicate len fresh) (append-nil (take (suc len) xs)))

  -- Read in place, the receiver's pointer must be null exactly when the pointer arrives as null;
  -- then the first `len` elements of its memory are replaced and the others stay.
  pub deserialize_ptr_in_place :
      (fresh : A) (old p : Pointer A) (len : ℕ) (bs rest : List ℕ)
      → PlaceReady old p len
      → len < 2 ^ 32
      → serialize_ptr c p len ≡ ok bs
      → deserialize_ptr c true fresh old (bs ++ rest) ≡ bind (placed old p len) (λ q. ok (q, rest))
  unfolding deserialize_ptr serialize_ptr
  deserialize_ptr_in_place fresh none none len bs rest r h e =
      rw (← ok-injective e) (deserialize-bind u32 0 _ rest (omega arith))
  deserialize_ptr_in_place fresh (some ys) none len bs rest r h e =
      rw (← ok-injective e) (deserialize-bind u32 0 _ rest (omega arith))
  deserialize_ptr_in_place fresh none (some xs) zero bs rest r h e =
      rw (← ok-injective e) (deserialize-bind u32 0 _ rest (omega arith))
  deserialize_ptr_in_place fresh (some ys) (some xs) zero bs rest r h e =
      rw (← ok-injective e) (deserialize-bind u32 0 _ rest (omega arith))
  deserialize_ptr_in_place fresh none (some xs) (suc len) bs rest r h e =
      let (cs, ec, k) = serialize_ptr-some xs len h e in
      rw (← k, append_assoc (serialize u32 (suc len)) cs rest)
        (deserialize-bind u32 (suc len) _ (cs ++ rest) h)
  deserialize_ptr_in_place fresh (some ys) (some xs) (suc len) bs rest r h e =
      let (cs, ec, k) = serialize_ptr-some xs len h e in
      rw (← k) (
        >>=-Reads (deserialize u32) _ (serialize u32 (suc len)) cs
          (deserialize-serialize u32 (suc len) h)
          (λ rest'.
            rw (deserialize_array-serialize_array Ready c law (suc len) ys xs cs r ec rest', ◌>>=◌))
          rest)
