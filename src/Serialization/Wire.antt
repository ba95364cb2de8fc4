-- ===== src/Serialization/Wire.antt =====
-- What values in a row are written as and read from: `serialize`, `serialize_time` and
-- `serialize_ptr` in a row, and their deserializers.
use xrtransport.Common.{
  ℕ, ◌+◌, ◌-◌, ◌^◌, ◌<◌, ◌≡◌, refl, ap, true, false, List, ◌++◌, append_assoc, none, arith, ltb→lt,
}
use xrtransport.Serialization.Stream.{
  Result, ok, throws, Reader, pure, ◌>>=◌, bind, bind-eq-ok, ok-injective,
}
use xrtransport.Serialization.Bytes.{values}
use xrtransport.Serialization.Pointer.{Codec, Pointer, serialize_ptr, deserialize_ptr}
use xrtransport.Serialization.Pointers.{
  IsCodec, received, placed, PlaceReady, deserialize_ptr-serialize_ptr, deserialize_ptr_in_place,
}
use xrtransport.Serialization.Times.{
  serialize_time, deserialize_time, deserialize_time-serialize_time,
}
use xrtransport.Serialization.Word.{
  Word, word_ext, to_word, serialize_word, deserialize_word, deserialize_word-serialize_word,
}

-- The overloads of `serialize` and `deserialize` for a type, in the contexts of one side, with what
-- memory from `malloc` holds.
pub record Overloads (A : Type 0) : Type 0 where
  pub codec : Codec A
  pub fresh : A

-- One piece of a message after the other.
infixr 5 ◌⊕◌
unfoldable pub ◌⊕◌ : Result (List ℕ) → Result (List ℕ) → Result (List ℕ)
v ⊕ w = bind v (λ bs. bind w (λ cs. ok (bs ++ cs)))

abbrev pub scalar : {width : ℕ} → Word width → Result (List ℕ)
scalar x = ok (serialize_word x)

abbrev pub time : ℕ → Word 8 → Result (List ℕ)
time time_offset t = ok (serialize_time time_offset t.value)

abbrev pub read_time : ℕ → Reader (Word 8)
read_time time_offset = do t ← deserialize_time time_offset; pure (to_word 8 t)

-- The overloads for integers, which are the same on both sides.
abbrev pub word : (width : ℕ) → Overloads (Word width)
word width = record {
  codec = record { write = scalar; read = λ old. deserialize_word width };
  fresh = to_word width 0;
}

module _ {A : Type 0} (o : Overloads A) where
  abbrev pub pointer : Pointer A → ℕ → Result (List ℕ)
  pointer p len = serialize_ptr o.codec p len

  -- `deserialize_ptr` on a null pointer of the server, whose context does not read in place.
  abbrev pub new_pointer : Reader (Pointer A)
  new_pointer = deserialize_ptr o.codec false o.fresh none

  -- `deserialize_ptr` on a pointer of the application.
  abbrev pub pointer_in_place : Pointer A → Reader (Pointer A)
  pointer_in_place old = deserialize_ptr o.codec true o.fresh old

-- Where the writer succeeds, the reader takes its bytes, whatever follows, and ends with `r`.
pub record Lands {ℓ} {A : Type ℓ} (w : Result (List ℕ)) (m : Reader A) (r : Result A) : Type ℓ where
  pub lands : (bs rest : List ℕ) → w ≡ ok bs → m (bs ++ rest) ≡ bind r (λ a. ok (a, rest))

abbrev returned {ℓ} : {A : Type ℓ} → List ℕ → A → Result (A × List ℕ)
returned rest a = ok (a, rest)

bind_assoc {ℓ κ} :
    {A : Type ℓ} {B : Type κ} (r : Result A) (f : A → Reader B) (g : A → Result B)
    (rest rest' : List ℕ)
    → ((a : A) → f a rest ≡ bind (g a) (returned rest'))
    → bind (bind r (returned rest)) (λ p. f p.0 p.1) ≡ bind (bind r g) (returned rest')
bind_assoc (ok a) f g rest rest' h = h a
bind_assoc (throws t) f g rest rest' h = refl

-- Pieces that are read in the order in which they were written.
pub then-Lands {ℓ κ} :
    {A : Type ℓ} {B : Type κ} {v w : Result (List ℕ)} (m : Reader A) (f : A → Reader B)
    (r : Result A) (g : A → Result B)
    → Lands v m r
    → ((a : A) → Lands w (f a) (g a))
    → Lands (v ⊕ w) (m >>= f) (bind r g)
unfolding ◌⊕◌
then-Lands {v} {w} m f r g h k = record {
  lands = λ bs rest e.
      let (b, eb, e') = bind-eq-ok v _ e in
      let (d, ed, e'') = bind-eq-ok w _ e' in
      rw (← ok-injective e'', append_assoc b d rest, h.lands b (d ++ rest) eb, ◌>>=◌)
        (bind_assoc r f g (d ++ rest) rest (λ a. (k a).lands d rest ed));
}

-- The same where the first piece is always read.
pub first-Lands {ℓ κ} :
    {A : Type ℓ} {B : Type κ} {v w : Result (List ℕ)} {s : Result B} (m : Reader A)
    (f : A → Reader B) (a : A)
    → Lands v m (ok a)
    → Lands w (f a) s
    → Lands (v ⊕ w) (m >>= f) s
unfolding ◌⊕◌
first-Lands {v} {w} m f a h k = record {
  lands = λ bs rest e.
      let (b, eb, e') = bind-eq-ok v _ e in
      let (d, ed, e'') = bind-eq-ok w _ e' in
      rw (← ok-injective e'', append_assoc b d rest, h.lands b (d ++ rest) eb, ◌>>=◌)
        (k.lands d rest ed);
}

-- The last piece.
pub last-Lands {ℓ κ} :
    {A : Type ℓ} {B : Type κ} {v : Result (List ℕ)} (m : Reader A) (r : Result A) (g : A → B)
    → Lands v m r
    → Lands v (m >>= (λ a. pure (g a))) (bind r (λ a. ok (g a)))
last-Lands m r g h = record {
  lands = λ bs rest e.
      rw (h.lands bs rest e, ◌>>=◌)
        (bind_assoc r (λ a. pure (g a)) (λ a. ok (g a)) rest rest (λ a. refl));
}

pub scalar-Lands : {width : ℕ} (x : Word width) → Lands (scalar x) (deserialize_word width) (ok x)
scalar-Lands x = record {
  lands = λ bs rest e. rw (← ok-injective e) (deserialize_word-serialize_word x rest);
}

-- The server's clock is behind the client's by the offset.
abbrev pub moved : ℕ → Word 8 → Word 8
moved time_offset t = to_word 8 (t.value + (2 ^ 64 - time_offset))

pub time-Lands :
    (time_offset : ℕ) (t : Word 8)
    → time_offset < 2 ^ 64
    → Lands (time time_offset t) (read_time 0) (ok (moved time_offset t))
unfolding to_word
time-Lands time_offset t h = record {
  lands = λ bs rest e.
      rw
        (
          ← ok-injective e,
          (deserialize_time-serialize_time time_offset 0 t.value h
                (ltb→lt t.value (values 8) t.fits)).0
              rest,
          ◌>>=◌,
        )
        (ap (λ u. ok (u, rest)) (word_ext _ _ (omega arith)));
}

-- Any memory is ready for an integer.
abbrev pub AnyReady : {A : Type 0} → A → A → Type 0
AnyReady old a = Unit

pub word-IsCodec : (width : ℕ) → IsCodec AnyReady (word width).codec
word-IsCodec width = record {
  read-write = λ old x bs r e rest. rw (← ok-injective e) (deserialize_word-serialize_word x rest);
}

-- Integers behind a pointer arrive at the server as a new array, or as null where there are none.
pub new_words-Lands :
    {width : ℕ} (p : Pointer (Word width)) (len : ℕ)
    → len < 2 ^ 32
    → Lands (pointer (word width) p len) (new_pointer (word width)) (ok (received p len))
new_words-Lands {width} p len h = record {
  lands = λ bs rest e.
      deserialize_ptr-serialize_ptr AnyReady (word width).codec (word-IsCodec width) _ none p len bs
        (λ a. tt) h e rest;
}

-- The application's memory for integers is large enough for those that come back.
abbrev pub WordsReady : {width : ℕ} → Pointer (Word width) → Pointer (Word width) → ℕ → Type 0
WordsReady {width} old p len = PlaceReady AnyReady (word width).codec (word-IsCodec width) old p len

-- Integers that come back are placed in the application's memory.
pub words_in_place-Lands :
    {width : ℕ} (old p : Pointer (Word width)) (len : ℕ)
    → len < 2 ^ 32
    → WordsReady old p len
    → Lands (pointer (word width) p len) (pointer_in_place (word width) old) (placed old p len)
words_in_place-Lands {width} old p len h r = record {
  lands = λ bs rest e.
      deserialize_ptr_in_place AnyReady (word width).codec (word-IsCodec width) _ old p len bs rest
        r h e;
}

-- A scalar that is read first.
pub scalar_first {ℓ} :
    {B : Type ℓ} {w : Result (List ℕ)} {s : Result B} {width : ℕ} (x : Word width)
    (f : Word width → Reader B)
    → Lands w (f x) s
    → Lands (scalar x ⊕ w) (deserialize_word width >>= f) s
scalar_first {width} x f k = first-Lands (deserialize_word width) f x (scalar-Lands x) k
