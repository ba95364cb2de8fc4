-- ===== src/Structs/Rows.antt =====
-- Members of a struct in a row, read in the context that they were written in.
use xrtransport.Common.{ℕ, ◌^◌, ◌<◌, ◌≡◌, ap, subst, Bool, false, List, ◌++◌, arith, ltb→lt}
use xrtransport.Serialization.Stream.{Result, ok, Reader, ◌>>=◌, ok-injective}
use xrtransport.Serialization.Bytes.{values}
use xrtransport.Serialization.Chain.{Chain, Table, serialize_xr, deserialize_xr}
use xrtransport.Serialization.Chains.{IsTable, Prepared}
use xrtransport.Serialization.ChainTrip.{deserialize_xr-serialize_xr, strict_known}
use xrtransport.Serialization.Times.{deserialize_time-serialize_time}
use xrtransport.Serialization.Word.{Word, word_ext, to_word}
use xrtransport.Serialization.Wire.{◌⊕◌, time, read_time, Lands, first-Lands}

-- A chain of structs of known type, over memory that is ready for it.
pub next-Lands :
    {P : Type 0} (Ready : ℕ → P → P → Type 0) (table : Table P)
    → IsTable Ready table
    → (in_place : Bool) (old next : Chain P) → Prepared Ready table in_place old next
    → Lands (serialize_xr table false next) (deserialize_xr table in_place old) (ok next)
next-Lands Ready table t in_place old next p = record {
  lands = λ bs rest e.
      let k = strict_known table next bs e in
      subst (λ ks. deserialize_xr table in_place old (bs ++ rest) ≡ ok (ks, rest)) k
        (deserialize_xr-serialize_xr table Ready false in_place next old bs t e (rw k p) rest);
}

-- A time that is read with the offset that it was written with.
pub same_time-Lands :
    (time_offset : ℕ) (t : Word 8)
    → time_offset < 2 ^ 64
    → Lands (time time_offset t) (read_time time_offset) (ok t)
unfolding to_word
same_time-Lands time_offset t h = record {
  lands = λ bs rest e.
      rw
        (
          ← ok-injective e,
          (deserialize_time-serialize_time time_offset time_offset t.value h
                (ltb→lt t.value (values 8) t.fits)).1
              rest,
          ◌>>=◌,
        )
        (ap (λ u. ok (u, rest)) (word_ext _ _ (omega (arith, ltb→lt t.value (values 8) t.fits))));
}

module _ {ℓ} {B : Type ℓ} {w : Result (List ℕ)} {s : Result B} where
  pub next_first :
      {P : Type 0} (Ready : ℕ → P → P → Type 0) (table : Table P)
      → IsTable Ready table
      → (in_place : Bool) (old next : Chain P) (f : Chain P → Reader B)
      → Prepared Ready table in_place old next
      → Lands w (f next) s
      → Lands (serialize_xr table false next ⊕ w) (deserialize_xr table in_place old >>= f) s
  next_first Ready table t in_place old next f p k =
      first-Lands (deserialize_xr table in_place old) f next
        (next-Lands Ready table t in_place old next p) k

  pub same_time_first :
      (time_offset : ℕ) (t : Word 8) (f : Word 8 → Reader B)
      → time_offset < 2 ^ 64
      → Lands w (f t) s
      → Lands (time time_offset t ⊕ w) (read_time time_offset >>= f) s
  same_time_first time_offset t f h k =
      first-Lands (read_time time_offset) f t (same_time-Lands time_offset t h) k
