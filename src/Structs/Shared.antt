-- ===== src/Structs/Shared.antt =====
-- Structs as the arguments of calls: the overloads of both sides for them. The client reads in place,
-- the server into new memory; both have the same tables.
use xrtransport.Common.{ℕ, refl, Bool, true, false, List, [], ◌∷◌}
use xrtransport.Serialization.Stream.{Result, ok, Reader}
use xrtransport.Serialization.Chain.{Chain, Table}
use xrtransport.Serialization.Chains.{IsTable, Prepared}
use xrtransport.Serialization.Word.{to_word}
use xrtransport.Serialization.Wire.{Lands, AnyReady}
use xrtransport.Structs.Areas.{Extent2Df, serialize_xr_extent2_df, deserialize_xr_extent2_df}
use xrtransport.Structs.Places.{
  SpaceLocation, serialize_xr_space_location, deserialize_xr_space_location,
}
use xrtransport.Structs.Trip.Areas.{serialize_xr_extent2_df-Lands}
use xrtransport.Structs.Trip.Places.{serialize_xr_space_location-Lands}
use xrtransport.Rpc.Pieces.{SharedStruct}

-- A struct that is written and read alike on both sides, and has no times.
abbrev pub shared :
    {A : Type 0} (Ready : A → A → Type 0) (write : A → Result (List ℕ)) (read : Bool → A → Reader A)
    (fresh : A)
    → ((old a : A) → Lands (write a) (read false old) (ok a))
    → ((old a : A) → Ready old a → Lands (write a) (read true old) (ok a))
    → SharedStruct A
shared Ready write read fresh h k = record {
  client = record { codec = record { write = write; read = read true }; fresh = fresh };
  server = record { codec = record { write = write; read = read false }; fresh = fresh };
  Ready = Ready;
  to_server = λ a. a;
  to_client = λ a. a;
  sends = λ a. refl;
  answers = λ a. refl;
  server_law = record { read-write = λ old a bs r e rest. (h old a).lands bs rest e };
  client_law = record { read-write = λ old a bs r e rest. (k old a r).lands bs rest e };
}

unfoldable pub extent2_df : SharedStruct Extent2Df
extent2_df =
    shared AnyReady serialize_xr_extent2_df (λ in_place old. deserialize_xr_extent2_df)
      (record { width = to_word 4 0; height = to_word 4 0 })
      (λ old a. serialize_xr_extent2_df-Lands a) (λ old a r. serialize_xr_extent2_df-Lands a)

module _ {P : Type 0} where
  -- Any memory is ready for the members of a struct.
  abbrev pub AnyMembers : ℕ → P → P → Type 0
  AnyMembers type old payload = Unit

  pub Prepared-new : (table : Table P) (olds ns : Chain P) → Prepared AnyMembers table false olds ns
  Prepared-new table olds [] = tt
  Prepared-new table olds (n ∷ ns) = (λ e l. tt, Prepared-new table [] ns)

  -- A location with the structs behind it, as a velocity; in place, the application's chain must have
  -- the types of the chain that comes back.
  unfoldable pub space_location :
      (table : Table P) → IsTable AnyMembers table → SharedStruct (SpaceLocation P)
  space_location table t =
      shared (λ old a. Prepared AnyMembers table true old.next a.next)
        (serialize_xr_space_location table) (deserialize_xr_space_location table)
        (record {
          type = to_word 4 0;
          next = [];
          location_flags = to_word 8 0;
          pose = record {
            orientation = record {
              x = to_word 4 0;
              y = to_word 4 0;
              z = to_word 4 0;
              w = to_word 4 0;
            };
            position = record { x = to_word 4 0; y = to_word 4 0; z = to_word 4 0 };
          };
        })
        (λ old a.
          serialize_xr_space_location-Lands AnyMembers table t false old a
            (Prepared-new table old.next a.next))
        (λ old a r. serialize_xr_space_location-Lands AnyMembers table t true old a r)
