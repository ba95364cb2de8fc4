-- ===== src/Rpc/Pieces.antt =====
-- The pieces of a call's messages, one lemma for each kind of argument: what the other side reads of
-- it before it goes on.
use xrtransport.Common.{
  ℕ, zero, suc, ◌+◌, ◌^◌, ◌<◌, ◌≡◌, refl, sym, ◌∙◌, List, [], ◌∷◌, none, some, map, ltb→lt, ◌==◌,
  if◌then◌else◌,
}
use mathlib.Core.Option
use xrtransport.Serialization.Stream.{
  undefined, Result, ok, throws, Reader, pure, ◌>>=◌, bind, ok-injective,
}
use xrtransport.Serialization.Bytes.{values}
use xrtransport.Serialization.Pointer.{Codec, Pointer, serialize_array, serialize_ptr}
use xrtransport.Serialization.Pointers.{
  IsCodec, received, placed, PlaceReady, deserialize_ptr-serialize_ptr, deserialize_ptr_in_place,
}
use xrtransport.Serialization.Word.{Word}
use xrtransport.Serialization.Wire.{
  Overloads, ◌⊕◌, time, read_time, word, pointer, new_pointer, pointer_in_place, Lands, first-Lands,
  then-Lands, last-Lands, time-Lands, moved, new_words-Lands, AnyReady,
}

pub below_2^32 : (x : Word 4) → x.value < 2 ^ 32
below_2^32 x = ltb→lt x.value (values 4) x.fits

-- `count_null_terminated`: the elements up to the first null, with it. Past the end of an array
-- without one, the code reads memory that is not the array's.
unfoldable pub count_null_terminated : Pointer (Word 1) → Result ℕ
count_null_terminated none = ok 0
count_null_terminated (some xs) = count xs
  where
    count : List (Word 1) → Result ℕ
    count [] = throws undefined
    count (x ∷ xs) =
        let rest = count xs in if x.value == 0 then ok 1 else bind rest (λ n. ok (n + 1))

-- A C string: the pointer with its length.
unfoldable pub c_string : Pointer (Word 1) → Result (List ℕ)
c_string p = bind (count_null_terminated p) (λ len. pointer (word 1) p len)

-- A struct type: the client's overloads for it and the server's. What one side writes is what the
-- other would write of the value moved to its own clock, and each side reads what it writes; in place,
-- the client does so over memory that is ready for the value.
pub record SharedStruct (A : Type 0) : Type 1 where
  pub client : Overloads A
  pub server : Overloads A
  pub Ready : A → A → Type 0
  pub to_server : A → A
  pub to_client : A → A
  pub sends : (a : A) → client.codec.write a ≡ server.codec.write (to_server a)
  pub answers : (a : A) → server.codec.write a ≡ client.codec.write (to_client a)
  pub server_law : IsCodec AnyReady server.codec
  pub client_law : IsCodec Ready client.codec

serialize_array-map :
    {A : Type 0} (c d : Codec A) (f : A → A) (xs : List A) (len : ℕ)
    → ((a : A) → c.write a ≡ d.write (f a))
    → serialize_array c xs len ≡ serialize_array d (map f xs) len
unfolding serialize_array
serialize_array-map c d f xs zero h = refl
serialize_array-map c d f [] (suc len) h = refl
serialize_array-map c d f (x ∷ xs) (suc len) h = rw (h x, serialize_array-map c d f xs len h) refl

serialize_ptr-map :
    {A : Type 0} (c d : Codec A) (f : A → A) (p : Pointer A) (len : ℕ)
    → ((a : A) → c.write a ≡ d.write (f a))
    → serialize_ptr c p len ≡ serialize_ptr d (Option.map (map f) p) len
unfolding serialize_ptr
serialize_ptr-map c d f none len h = refl
serialize_ptr-map c d f (some xs) len h = rw (serialize_array-map c d f xs len h) refl

module _ {A : Type 0} (struct : SharedStruct A) where
  -- The array that the server gets, in its own memory and on its own clock.
  abbrev pub received_structs : Pointer A → ℕ → Pointer A
  received_structs p len = received (Option.map (map struct.to_server) p) len

  -- What becomes of the application's pointer.
  abbrev pub placed_structs : Pointer A → Pointer A → ℕ → Result (Pointer A)
  placed_structs old p len = placed old (Option.map (map struct.to_client) p) len

  abbrev pub StructsReady : Pointer A → Pointer A → ℕ → Type 0
  StructsReady old p len =
      PlaceReady struct.Ready struct.client.codec struct.client_law old
        (Option.map (map struct.to_client) p) len

  pub new_structs-Lands :
      (p : Pointer A) (len : ℕ)
      → len < 2 ^ 32
      → Lands
          (pointer struct.client p len)
          (new_pointer struct.server)
          (ok (received_structs p len))
  new_structs-Lands p len h = record {
    lands = λ bs rest e.
        deserialize_ptr-serialize_ptr AnyReady struct.server.codec struct.server_law
          struct.server.fresh none (Option.map (map struct.to_server) p) len bs (λ a. tt) h
          (sym (
              serialize_ptr-map struct.client.codec struct.server.codec struct.to_server p len
                struct.sends)
            ∙ e)
          rest;
  }

  pub structs_in_place-Lands :
      (old p : Pointer A) (len : ℕ)
      → len < 2 ^ 32
      → StructsReady old p len
      → Lands
          (pointer struct.server p len)
          (pointer_in_place struct.client old)
          (placed_structs old p len)
  structs_in_place-Lands old p len h r = record {
    lands = λ bs rest e.
        deserialize_ptr_in_place struct.Ready struct.client.codec struct.client_law
          struct.client.fresh old (Option.map (map struct.to_client) p) len bs rest r h
          (sym (
              serialize_ptr-map struct.server.codec struct.client.codec struct.to_client p len
                struct.answers)
            ∙ e);
  }

abbrev pub IsString : Pointer (Word 1) → Type 0
IsString p = (len : ℕ) × (count_null_terminated p ≡ ok len) × (len < 2 ^ 32)

-- The string on the server: up to its null, or a null pointer.
abbrev pub received_up_to : Pointer (Word 1) → Result ℕ → Pointer (Word 1)
received_up_to p (ok len) = received p len
received_up_to p (throws e) = none

abbrev pub received_string : Pointer (Word 1) → Pointer (Word 1)
received_string p = received_up_to p (count_null_terminated p)

c_string-Lands :
    (p : Pointer (Word 1))
    → IsString p
    → Lands (c_string p) (new_pointer (word 1)) (ok (received_string p))
unfolding c_string
c_string-Lands p s = let (len, e, h) = s in rw e (new_words-Lands p len h)

pub nothing-Lands : Lands {0} {A = Unit} (ok []) (pure tt) (ok tt)
nothing-Lands = record { lands = λ bs rest e. rw (← ok-injective e) refl }

module _ {A B : Type 0} {v w : Result (List ℕ)} {m : Reader A} {n : Reader B} {r : Result A}
    {s : Result B} where
  -- The pointers that a reply fills, two of them and three.
  pub both-Lands :
      Lands v m r
      → Lands w n s
      → Lands {A = A × B}
          (v ⊕ w)
          (m >>= (λ a. n >>= (λ b. pure (a, b))))
          (bind r (λ a. bind s (λ b. ok (a, b))))
  both-Lands h k =
      then-Lands m _ r (λ a. bind s (λ b. ok (a, b))) h (λ a. last-Lands n s (λ b. (a, b)) k)

  pub all_three-Lands :
      {C : Type 0} {u : Result (List ℕ)} {o : Reader C} {q : Result C}
      → Lands v m r
      → Lands w n s
      → Lands u o q
      → Lands {A = A × B × C}
          (v ⊕ w ⊕ u)
          (m >>= (λ a. n >>= (λ b. o >>= (λ c. pure (a, b, c)))))
          (bind r (λ a. bind s (λ b. bind q (λ c. ok (a, b, c)))))
  all_three-Lands {o} {q} h k l =
      then-Lands m _ r (λ a. bind s (λ b. bind q (λ c. ok (a, b, c)))) h
        (λ a.
          then-Lands n _ s (λ b. bind q (λ c. ok (a, b, c))) k
            (λ b. last-Lands o q (λ c. (a, b, c)) l))

-- The first piece of a row that the server reads.
module _ {ℓ} {B : Type ℓ} {w : Result (List ℕ)} {s : Result B} where
  pub words_first :
      {width : ℕ} (p : Pointer (Word width)) (len : ℕ) (f : Pointer (Word width) → Reader B)
      → len < 2 ^ 32
      → Lands w (f (received p len)) s
      → Lands (pointer (word width) p len ⊕ w) (new_pointer (word width) >>= f) s
  words_first {width} p len f h k =
      first-Lands (new_pointer (word width)) f (received p len) (new_words-Lands p len h) k

  pub structs_first :
      {A : Type 0} (struct : SharedStruct A) (p : Pointer A) (len : ℕ) (f : Pointer A → Reader B)
      → len < 2 ^ 32
      → Lands w (f (received_structs struct p len)) s
      → Lands (pointer struct.client p len ⊕ w) (new_pointer struct.server >>= f) s
  structs_first struct p len f h k =
      first-Lands (new_pointer struct.server) f (received_structs struct p len)
        (new_structs-Lands struct p len h) k

  pub string_first :
      (p : Pointer (Word 1)) (f : Pointer (Word 1) → Reader B)
      → IsString p
      → Lands w (f (received_string p)) s
      → Lands (c_string p ⊕ w) (new_pointer (word 1) >>= f) s
  string_first p f h k =
      first-Lands (new_pointer (word 1)) f (received_string p) (c_string-Lands p h) k

  pub time_first :
      (time_offset : ℕ) (t : Word 8) (f : Word 8 → Reader B)
      → time_offset < 2 ^ 64
      → Lands w (f (moved time_offset t)) s
      → Lands (time time_offset t ⊕ w) (read_time 0 >>= f) s
  time_first time_offset t f h k =
      first-Lands (read_time 0) f (moved time_offset t) (time-Lands time_offset t h) k
