-- ===== src/Client/Polling.antt =====
-- Where the structs of an event are placed, and which event the application gets.
use xrtransport.Common.{
  ℕ, ◌+◌, ◌%◌, ◌^◌, ◌≤◌, ◌<◌, ◌≡◌, ◌≢◌, refl, ap, subst, ◌∙◌, true, false, List, [], ◌∷◌, ◌++◌, map,
  append-nil, none, some, leb, arith, Bool-cases, inl, inr,
}
use xrtransport.Serialization.Stream.{ok, ◌>>=◌, Reads, >>=-Reads}
use xrtransport.Serialization.Bytes.{serialize, deserialize, deserialize-serialize}
use xrtransport.Serialization.Chain.{
  Node, Chain, Entry, Table, lookup, size_lookup, serialize_xr, deserialize_xr,
}
use xrtransport.Serialization.Chains.{IsTable, Prepared, known, known-some}
use xrtransport.Serialization.ChainTrip.{deserialize_xr-serialize_xr}
use xrtransport.Client.Poll.{
  buffer_size, max_align, xr_success, Event, Placed, no_event, event, poll_handler, aligned, pack,
  copy_out, poll_event,
}

-- From `from` on, each struct is aligned, ends within the buffer, and begins where the one before it
-- has ended.
abbrev pub LaidOut : {P : Type 0} → ℕ → ℕ → List (Placed P) → Type 0
LaidOut end from [] = Unit
LaidOut end from (p ∷ ps) =
    (from ≤ p.location)
    × (p.location % max_align ≡ 0)
    × (p.location + p.size ≤ end)
    × LaidOut end (p.location + p.size) ps

-- The end of the last struct.
abbrev pub frontier : {P : Type 0} → ℕ → List (Placed P) → ℕ
frontier from [] = from
frontier from (p ∷ ps) = frontier (p.location + p.size) ps

module _ {P : Type 0} (table : Table P) where
  -- Nothing is left, or the first struct that is left does not fit.
  abbrev pub Overruns : ℕ → ℕ → Chain P → Type 0
  Overruns end from [] = Unit
  Overruns end from (n ∷ ns) = end < aligned table from + size_lookup table n.type

  -- Of the structs behind the one at `last`, those that are copied are the first ones, in order; they
  -- are aligned, do not overlap and stay within the buffer; and where one is left, it did not fit.
  pub pack_layout :
      (end last last_size : ℕ) (ns : Chain P)
      → let (ps, left) = pack table end last last_size ns in
        LaidOut end (last + last_size) ps
        × (map (λ p. p.node) ps ++ left ≡ ns)
        × Overruns end (frontier (last + last_size) ps) left
  unfolding pack
  pack_layout end last last_size [] = (tt, refl, tt)
  pack_layout end last last_size (n ∷ ns) =
      let location : ℕ = aligned table (last + last_size) in
      let size : ℕ = size_lookup table n.type in
      elim (Bool-cases (leb (location + size) end)) [
        | inl y ↦
            let (l, m, o) = pack_layout end location size ns in
            rw y ((omega arith, omega arith, ground (arith, y), l), ap (◌∷◌ n) m, o)
        | inr z ↦ rw z (tt, refl, ground (arith, z))
      ]

  abbrev pub AllUnknown : List (Event P) → Type 0
  AllUnknown [] = Unit
  AllUnknown (e ∷ es) = (lookup table e.0.type ≡ none) × AllUnknown es

  unknown_size : (t : ℕ) → lookup table t ≡ none → size_lookup table t ≡ 0
  unfolding size_lookup
  unknown_size t h = rw (h, size_lookup) refl

  known_size : (t : ℕ) {e : Entry P} → lookup table t ≡ some e → size_lookup table t ≡ e.size
  unfolding size_lookup
  known_size t h = rw (h, size_lookup) refl

  poll_handler_drops :
      (us es : List (Event P)) (result : ℕ)
      → AllUnknown us
      → poll_handler table (us ++ es) result ≡ poll_handler table es result
  unfolding poll_handler
  poll_handler_drops [] es result u = refl
  poll_handler_drops (x ∷ us) es result u =
      rw (unknown_size x.0.type u.0) (poll_handler_drops us es result u.1)

  -- The application gets the first event whose type the server can serialize, its structs of known
  -- type packed into the buffer, and the events before it are dropped; the events behind it stay with
  -- the runtime. The event could be written, and its type has a size.
  pub poll_event-poll_handler :
      (Ready : ℕ → P → P → Type 0) (us es : List (Event P)) (n : Node P) (ns : Chain P)
      (entry : Entry P) (result address : ℕ) (bs : List ℕ)
      → IsTable Ready table
      → AllUnknown us
      → lookup table n.type ≡ some entry
      → entry.size ≢ 0
      → serialize_xr table true (n ∷ ns) ≡ ok bs
      → Prepared Ready table false [] (known table (n ∷ ns))
      → let first : Placed P = record { location = address; size = entry.size; node = n } in
        let (ps, left) = pack table (address + buffer_size) address entry.size (known table ns) in
        (poll_handler table (us ++ (n, ns) ∷ es) result ≡ (ok (serialize 4 xr_success ++ bs), es))
        × Reads (poll_event table address) (serialize 4 xr_success ++ bs) (event (first ∷ ps) left)
  poll_event-poll_handler Ready us es n ns entry result address bs T u l z w r = (
    poll_handler_drops us ((n, ns) ∷ es) result u ∙ sends,
    unfold poll_event in
        >>=-Reads (deserialize 4) _ (serialize 4 xr_success) bs
          (deserialize-serialize 4 xr_success (omega arith))
          (λ rest. rw (arrives rest, ◌>>=◌) (copied rest)),
  )
    where
      size : size_lookup table n.type ≡ entry.size
      size = known_size n.type l

      sends : poll_handler table ((n, ns) ∷ es) result ≡ (ok (serialize 4 xr_success ++ bs), es)
      sends = unfold poll_handler in ground (arith, size, w)

      arrives : Reads (deserialize_xr table false []) bs (n ∷ known table ns)
      arrives =
          subst (λ ks. Reads (deserialize_xr table false []) bs ks) (known-some table n ns l)
            (deserialize_xr-serialize_xr table Ready true false (n ∷ ns) [] bs T w r)

      copied :
          (rest : List ℕ)
          → copy_out table address (n ∷ known table ns) rest
            ≡ ok (
              event
                  (record { location = address; size = entry.size; node = n }
                    ∷ (pack table (address + buffer_size) address entry.size (known table ns)).0)
                  (pack table (address + buffer_size) address entry.size (known table ns)).1,
              rest,
            )
      copied rest = unfold copy_out in rw size refl

  -- With no event that the server can serialize, the application gets the result that the runtime
  -- ended with.
  pub poll_event_none :
      (us : List (Event P)) (result address : ℕ)
      → AllUnknown us
      → result ≢ xr_success
      → result < 2 ^ 32
      → (bs : List ℕ) × (poll_handler table us result ≡ (ok bs, []))
        × Reads (poll_event table address) bs (no_event result)
  poll_event_none us result address u z h = (
    serialize 4 result,
    dropped,
    λ rest.
        unfold poll_event in rw (deserialize-serialize 4 result h rest, ◌>>=◌) (ground (arith, z)),
  )
    where
      dropped : poll_handler table us result ≡ (ok (serialize 4 result), [])
      dropped =
          subst (λ xs. poll_handler table xs result ≡ (ok (serialize 4 result), [])) (append-nil us)
            (poll_handler_drops us [] result u ∙ unfold poll_handler in refl)
