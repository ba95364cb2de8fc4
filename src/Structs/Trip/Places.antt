-- ===== src/Structs/Trip/Places.antt =====
-- Locations in space: what is written of each struct is read back.
use xrtransport.Common.{ℕ, Bool}
use xrtransport.Serialization.Stream.{ok}
use xrtransport.Serialization.Chain.{Table}
use xrtransport.Serialization.Chains.{IsTable, Prepared}
use xrtransport.Serialization.Wire.{Lands, first-Lands, last-Lands, scalar_first}
use xrtransport.Structs.Rows.{next_first}
use xrtransport.Structs.Places.{
  ReferenceSpaceCreateInfo, serialize_xr_reference_space_create_info,
  deserialize_xr_reference_space_create_info, SpaceLocation, serialize_xr_space_location,
  deserialize_xr_space_location, SpaceVelocity, serialize_xr_space_velocity,
  deserialize_xr_space_velocity,
}
use xrtransport.Structs.Vectors.{deserialize_xr_posef, deserialize_xr_vector3f}
use xrtransport.Structs.Trip.Vectors.{serialize_xr_posef-Lands, serialize_xr_vector3f-Lands}

module _ {P : Type 0} (Ready : ℕ → P → P → Type 0) (table : Table P) (t : IsTable Ready table) where
  pub serialize_xr_reference_space_create_info-Lands :
      (in_place : Bool) (old s : ReferenceSpaceCreateInfo P)
      → Prepared Ready table in_place old.next s.next
      → Lands
          (serialize_xr_reference_space_create_info table s)
          (deserialize_xr_reference_space_create_info table in_place old)
          (ok s)
  unfolding serialize_xr_reference_space_create_info deserialize_xr_reference_space_create_info
  serialize_xr_reference_space_create_info-Lands in_place old s p = scalar_first s.type _ (
      next_first Ready table t in_place old.next s.next _ p (
        scalar_first s.reference_space_type _ (
          last-Lands deserialize_xr_posef (ok s.pose_in_reference_space)
            (λ x. record s { pose_in_reference_space = x })
            (serialize_xr_posef-Lands s.pose_in_reference_space))))

  pub serialize_xr_space_location-Lands :
      (in_place : Bool) (old s : SpaceLocation P)
      → Prepared Ready table in_place old.next s.next
      → Lands
          (serialize_xr_space_location table s)
          (deserialize_xr_space_location table in_place old)
          (ok s)
  unfolding serialize_xr_space_location deserialize_xr_space_location
  serialize_xr_space_location-Lands in_place old s p = scalar_first s.type _ (
      next_first Ready table t in_place old.next s.next _ p (
        scalar_first s.location_flags _ (
          last-Lands deserialize_xr_posef (ok s.pose) (λ x. record s { pose = x })
            (serialize_xr_posef-Lands s.pose))))

  pub serialize_xr_space_velocity-Lands :
      (in_place : Bool) (old s : SpaceVelocity P)
      → Prepared Ready table in_place old.next s.next
      → Lands
          (serialize_xr_space_velocity table s)
          (deserialize_xr_space_velocity table in_place old)
          (ok s)
  unfolding serialize_xr_space_velocity deserialize_xr_space_velocity
  serialize_xr_space_velocity-Lands in_place old s p = scalar_first s.type _ (
      next_first Ready table t in_place old.next s.next _ p (
        scalar_first s.velocity_flags _ (
          first-Lands deserialize_xr_vector3f _ s.linear_velocity
            (serialize_xr_vector3f-Lands s.linear_velocity)
            (last-Lands deserialize_xr_vector3f (ok s.angular_velocity)
              (λ x. record s { angular_velocity = x })
              (serialize_xr_vector3f-Lands s.angular_velocity)))))
