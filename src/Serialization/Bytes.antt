-- ===== src/Serialization/Bytes.antt =====
-- `serialize` and `deserialize` of a value that is no class: its bytes, little-endian.
use xrtransport.Common.{
  ℕ, zero, suc, ◌+◌, ◌*◌, ◌/◌, ◌%◌, ◌<◌, ◌≡◌, refl, ap, List, [], ◌∷◌, ◌++◌, arith, length,
}
use xrtransport.Serialization.Stream.{
  eof, ok, throws, Reader, ◌>>=◌, bind, Reads, bind-eq-ok, Fuelled, bind-Fuelled,
}

-- The object representation of a `width`-byte integer.
unfoldable pub serialize : ℕ → ℕ → List ℕ
serialize zero x = []
serialize (suc width) x = x % 256 ∷ serialize width (x / 256)

-- `asio::read` of `width` bytes into an integer.
unfoldable pub deserialize : ℕ → Reader ℕ
deserialize zero bs = ok (0, bs)
deserialize (suc width) [] = throws eof
deserialize (suc width) (b ∷ bs) = bind (deserialize width bs) (λ p. ok (b + 256 * p.0, p.1))

-- The number of values of `width` bytes.
abbrev pub values : ℕ → ℕ
values zero = 1
values (suc width) = 256 * values width

pub length-serialize : (width x : ℕ) → length (serialize width x) ≡ width
unfolding serialize
length-serialize zero x = refl
length-serialize (suc width) x = ap suc (length-serialize width (x / 256))

-- A value that fits its width is read back.
pub deserialize-serialize :
    (width x : ℕ) → x < values width → Reads (deserialize width) (serialize width x) x
unfolding serialize deserialize
deserialize-serialize zero x h rest = ground arith
deserialize-serialize (suc width) x h rest =
    let ih = deserialize-serialize width (x / 256) (omega arith) rest in ground (arith, ih)

abbrev pub u32 : ℕ
u32 = 4

-- A reader that begins with an integer, at the bytes of that integer.
pub deserialize-bind {κ} :
    {B : Type κ} (width x : ℕ) (f : ℕ → Reader B) (rest : List ℕ)
    → x < values width
    → (deserialize width >>= f) (serialize width x ++ rest) ≡ f x rest
deserialize-bind width x f rest h = rw (deserialize-serialize width x h rest, ◌>>=◌)

pub deserialize-Fuelled : (width : ℕ) (bs : List ℕ) → Fuelled (deserialize width bs)
unfolding deserialize
deserialize-Fuelled zero bs = λ q. cc
deserialize-Fuelled (suc width) [] = λ q. cc
deserialize-Fuelled (suc width) (b ∷ bs) =
    bind-Fuelled (deserialize width bs) _ (deserialize-Fuelled width bs) (λ p e q. cc)

pub length-deserialize :
    (width : ℕ) (bs : List ℕ) (p : ℕ × List ℕ)
    → deserialize width bs ≡ ok p
    → length p.1 + width ≡ length bs
unfolding deserialize
length-deserialize zero bs p h = ground arith
length-deserialize (suc width) [] p h = cc
length-deserialize (suc width) (b ∷ bs) p h =
    let (q, e, k) = bind-eq-ok (deserialize width bs) _ h in
    let ih = length-deserialize width bs q e in ground arith
