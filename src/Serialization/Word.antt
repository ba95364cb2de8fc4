-- ===== src/Serialization/Word.antt =====
-- Integers, enumerations, handles and floating-point numbers of a fixed width, as they stand in
-- memory: bit patterns.
use xrtransport.Common.{ℕ, zero, suc, ◌%◌, ◌<◌, ◌≡◌, ap, true, List, arith, ltb, ltb→lt}
use mathlib.Core.Bool.{Bool-set}
use mathlib.Core.HLevel.{is_prop→PathP}
use xrtransport.Serialization.Stream.{ok, Reader, pure, ◌>>=◌, Reads}
use xrtransport.Serialization.Bytes.{serialize, deserialize, values, deserialize-serialize}

-- A value of `width` bytes.
pub record Word (width : ℕ) : Type 0 where
  pub value : ℕ
  pub fits : ltb value (values width) ≡ true

values_pos : (width : ℕ) → 0 < values width
values_pos zero = omega arith
values_pos (suc width) = let h = values_pos width in omega (arith, h)

pub mod_fits : (width x : ℕ) → ltb (x % values width) (values width) ≡ true
mod_fits width x = let h = values_pos width in ground (arith, h)

-- The lowest bytes of a number.
unfoldable pub to_word : (width : ℕ) → ℕ → Word width
to_word width x = record { value = x % values width; fits = mod_fits width x }

unfoldable pub serialize_word : {width : ℕ} → Word width → List ℕ
serialize_word {width} x = serialize width x.value

unfoldable pub deserialize_word : (width : ℕ) → Reader (Word width)
deserialize_word width = do x ← deserialize width; pure (to_word width x)

pub word_ext : {width : ℕ} (x y : Word width) → x.value ≡ y.value → x ≡ y
word_ext {width} x y h = λ i. record {
  value = h i;
  fits =
      is_prop→PathP (λ j. ltb (h j) (values width) ≡ true)
        (λ j. Bool-set (ltb (h j) (values width)) true) x.fits y.fits i;
}

mod_small : (x n : ℕ) → x < n → x % n ≡ x
mod_small x n h = grind arith

-- Every value of a fixed width is read back.
pub deserialize_word-serialize_word :
    {width : ℕ} (x : Word width) → Reads (deserialize_word width) (serialize_word x) x
unfolding serialize_word deserialize_word to_word
deserialize_word-serialize_word {width} x rest =
    let h = ltb→lt x.value (values width) x.fits in
    rw (deserialize-serialize width x.value h rest, ◌>>=◌)
      (ap (λ y. ok (y, rest)) (word_ext (to_word width x.value) x (mod_small x.value _ h)))
