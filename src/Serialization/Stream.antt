-- ===== src/Serialization/Stream.antt =====
-- Streams of bytes: what a serializer writes and a deserializer reads, with the ways to fail.
use xrtransport.Common.{ℕ, ◌≡◌, ◌≢◌, refl, List, ◌++◌, append_assoc}

-- How a call can end other than by returning.
pub data Thrown : Type 0 where
  -- asio::error::eof, from `asio::read` on a stream that ends too soon
  eof : Thrown
  -- UnknownXrStructureTypeException
  unknown_structure : ℕ → Thrown
  -- FunctionLoaderException and UnknownFunctionIdException
  not_loaded : Thrown
  unknown_function : ℕ → Thrown
  -- std::runtime_error (or a failed assertion): in-place data into a null pointer, and null in-place
  -- data for a pointer that is not null
  into_null null_into_allocated : Thrown
  -- undefined behaviour: a call through a null function pointer, or an access outside an object
  undefined : Thrown
  -- no behaviour of the code: the bound on the depth of recursion was too small
  out_of_fuel : Thrown

pub data Result {ℓ} (A : Type ℓ) : Type ℓ where
  ok : A → Result A
  throws : Thrown → Result A

abbrev pub bind {ℓ κ} : {A : Type ℓ} {B : Type κ} → Result A → (A → Result B) → Result B
bind (ok a) f = f a
bind (throws e) f = throws e

-- A reader takes its value from the front of the bytes that are left.
abbrev pub Reader {ℓ} : Type ℓ → Type ℓ
Reader A = List ℕ → Result (A × List ℕ)

abbrev pub pure {ℓ} : {A : Type ℓ} → A → Reader A
pure a bs = ok (a, bs)

abbrev pub fail {ℓ} : {A : Type ℓ} → Thrown → Reader A
fail e bs = throws e

infixl 5 ◌>>=◌
abbrev pub ◌>>=◌ {ℓ κ} : {A : Type ℓ} {B : Type κ} → Reader A → (A → Reader B) → Reader B
◌>>=◌ m f bs = bind (m bs) (λ p. f p.0 p.1)

-- The reader takes exactly `bs` from the front, whatever follows, and returns `a`.
abbrev pub Reads {ℓ} : {A : Type ℓ} → Reader A → List ℕ → A → Type ℓ
Reads r bs a = (rest : List ℕ) → r (bs ++ rest) ≡ ok (a, rest)

-- Inversion of a bind that succeeds.
pub bind-eq-ok {ℓ κ} :
    {A : Type ℓ} {B : Type κ} (m : Result A) (f : A → Result B) {b : B}
    → bind m f ≡ ok b
    → (a : A) × (m ≡ ok a) × (f a ≡ ok b)
bind-eq-ok (ok a) f h = (a, refl, h)
bind-eq-ok (throws e) f h = cc

-- Readers in a row read what was written in a row.
pub >>=-Reads {ℓ κ} :
    {A : Type ℓ} {B : Type κ} (m : Reader A) (f : A → Reader B) (bs cs : List ℕ) {a : A} {b : B}
    → Reads m bs a
    → Reads (f a) cs b
    → Reads (m >>= f) (bs ++ cs) b
>>=-Reads m f bs cs h k rest = rw (append_assoc bs cs rest, h (cs ++ rest), ◌>>=◌) (k rest)

pub ok-injective {ℓ} : {A : Type ℓ} {a b : A} → ok a ≡ ok b → a ≡ b
ok-injective h = cc

-- The call did not stop for want of fuel.
abbrev pub Fuelled {ℓ} : {A : Type ℓ} → Result A → Type ℓ
Fuelled r = r ≢ throws out_of_fuel

pub bind-Fuelled {ℓ κ} :
    {A : Type ℓ} {B : Type κ} (m : Result A) (f : A → Result B)
    → Fuelled m
    → ((a : A) → m ≡ ok a → Fuelled (f a))
    → Fuelled (bind m f)
bind-Fuelled (ok a) f h k = k a refl
bind-Fuelled (throws e) f h k = λ q. h (cc)
