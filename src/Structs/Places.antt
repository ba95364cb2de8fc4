-- ===== src/Structs/Places.antt =====
-- Locations in space: their functions in src/common/serialization/serializer.cpp and deserializer.cpp.
use xrtransport.Common.{ℕ, Bool, false, List}
use xrtransport.Serialization.Stream.{Result, Reader, pure, ◌>>=◌}
use xrtransport.Serialization.Chain.{Chain, Table, serialize_xr, deserialize_xr}
use xrtransport.Serialization.Word.{Word, deserialize_word}
use xrtransport.Serialization.Wire.{◌⊕◌, scalar}
use xrtransport.Structs.Vectors.{
  Posef, serialize_xr_posef, deserialize_xr_posef, Vector3f, serialize_xr_vector3f,
  deserialize_xr_vector3f,
}

-- XrReferenceSpaceCreateInfo
pub record ReferenceSpaceCreateInfo (P : Type 0) : Type 0 where
  pub type : Word 4
  pub next : Chain P
  pub reference_space_type : Word 4
  pub pose_in_reference_space : Posef

-- XrSpaceLocation
pub record SpaceLocation (P : Type 0) : Type 0 where
  pub type : Word 4
  pub next : Chain P
  pub location_flags : Word 8
  pub pose : Posef

-- XrSpaceVelocity
pub record SpaceVelocity (P : Type 0) : Type 0 where
  pub type : Word 4
  pub next : Chain P
  pub velocity_flags : Word 8
  pub linear_velocity : Vector3f
  pub angular_velocity : Vector3f

module _ {P : Type 0} (table : Table P) where
  unfoldable pub serialize_xr_reference_space_create_info :
      ReferenceSpaceCreateInfo P → Result (List ℕ)
  serialize_xr_reference_space_create_info s =
      scalar s.type
      ⊕ serialize_xr table false s.next
      ⊕ scalar s.reference_space_type
      ⊕ serialize_xr_posef s.pose_in_reference_space

  unfoldable pub deserialize_xr_reference_space_create_info :
      Bool → ReferenceSpaceCreateInfo P → Reader (ReferenceSpaceCreateInfo P)
  deserialize_xr_reference_space_create_info in_place old = do
    type ← deserialize_word 4
    next ← deserialize_xr table in_place old.next
    reference_space_type ← deserialize_word 4
    pose_in_reference_space ← deserialize_xr_posef
    pure (record {
      type = type;
      next = next;
      reference_space_type = reference_space_type;
      pose_in_reference_space = pose_in_reference_space;
    })

  unfoldable pub serialize_xr_space_location : SpaceLocation P → Result (List ℕ)
  serialize_xr_space_location s =
      scalar s.type
      ⊕ serialize_xr table false s.next
      ⊕ scalar s.location_flags
      ⊕ serialize_xr_posef s.pose

  unfoldable pub deserialize_xr_space_location : Bool → SpaceLocation P → Reader (SpaceLocation P)
  deserialize_xr_space_location in_place old = do
    type ← deserialize_word 4
    next ← deserialize_xr table in_place old.next
    location_flags ← deserialize_word 8
    pose ← deserialize_xr_posef
    pure (record { type = type; next = next; location_flags = location_flags; pose = pose })

  unfoldable pub serialize_xr_space_velocity : SpaceVelocity P → Result (List ℕ)
  serialize_xr_space_velocity s =
      scalar s.type
      ⊕ serialize_xr table false s.next
      ⊕ scalar s.velocity_flags
      ⊕ serialize_xr_vector3f s.linear_velocity
      ⊕ serialize_xr_vector3f s.angular_velocity

  unfoldable pub deserialize_xr_space_velocity : Bool → SpaceVelocity P → Reader (SpaceVelocity P)
  deserialize_xr_space_velocity in_place old = do
    type ← deserialize_word 4
    next ← deserialize_xr table in_place old.next
    velocity_flags ← deserialize_word 8
    linear_velocity ← deserialize_xr_vector3f
    angular_velocity ← deserialize_xr_vector3f
    pure (record {
      type = type;
      next = next;
      velocity_flags = velocity_flags;
      linear_velocity = linear_velocity;
      angular_velocity = angular_velocity;
    })
