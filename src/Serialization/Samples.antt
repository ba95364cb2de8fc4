-- ===== src/Serialization/Samples.antt =====
-- A table of two struct types, each with one byte for its members, for the tests.
use xrtransport.Common.{
  ℕ, ◌^◌, ◌<◌, ◌≡◌, ◌≢◌, inl, inr, [], ◌∷◌, some, arith, if◌then◌else◌, subst, ltb, Bool-cases,
}
use xrtransport.Serialization.Stream.{ok, throws, undefined, ok-injective}
use xrtransport.Serialization.Bytes.{serialize, deserialize, deserialize-serialize}
use xrtransport.Serialization.Pointer.{Codec}
use xrtransport.Serialization.Pointers.{IsCodec}
use xrtransport.Serialization.Chain.{Node, Entry, Table, lookup}
use xrtransport.Serialization.Chains.{IsTable}

-- A `uint8_t`.
abbrev pub byte : Codec ℕ
byte = record {
  write = λ x. if ltb x 256 then ok (serialize 1 x) else throws undefined;
  read = λ old. deserialize 1;
}

abbrev pub AnyMemory : ℕ → ℕ → Type 0
AnyMemory old x = Unit

pub byte-IsCodec : IsCodec AnyMemory byte
byte-IsCodec = record {
  read-write = λ old x bs r h rest. elim (Bool-cases (ltb x 256)) [
    | inl y ↦
        let e : serialize 1 x ≡ bs = ok-injective (rw y at h) in
        rw (← e) (deserialize-serialize 1 x (ground arith) rest)
    | inr n ↦ let e : throws undefined ≡ ok bs = rw n at h in cc
  ];
}

abbrev pub entry : Entry ℕ
entry = record { members = byte; size = 24; fresh = 0 }

-- The types 1 and 2 are known.
abbrev pub table : Table ℕ
table = (1, entry) ∷ (2, entry) ∷ []

abbrev pub Ready : ℕ → ℕ → ℕ → Type 0
Ready type old x = Unit

pub table-entry :
    (t : ℕ) (e : Entry ℕ) → lookup table t ≡ some e → (entry ≡ e) × (t ≢ 0) × (t < 2 ^ 32)
unfolding lookup
table-entry t e h = ground arith

pub table-IsTable : IsTable Ready table
table-IsTable = record {
  types = λ t e h. let (_, n, k) = table-entry t e h in (n, k);
  codecs = λ t e h. subst (λ e. IsCodec (Ready t) e.members) (table-entry t e h).0 byte-IsCodec;
}

abbrev pub struct : ℕ → ℕ → Node ℕ
struct type x = record { type = type; payload = x }
