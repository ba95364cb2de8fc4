-- ===== src/Rpc/Spaces.antt =====
-- Spaces: the functions of src/client/rpc.cpp and their handlers of
-- src/server/function_dispatch.cpp.
use xrtransport.Common.{ℕ, []}
use xrtransport.Serialization.Stream.{ok, pure, ◌>>=◌}
use xrtransport.Serialization.Pointer.{Pointer}
use xrtransport.Serialization.Word.{Word, deserialize_word}
use xrtransport.Serialization.Wire.{
  Overloads, ◌⊕◌, scalar, time, read_time, word, pointer, new_pointer, pointer_in_place,
}
use xrtransport.Rpc.Call.{Call, Handler}

-- xrEnumerateReferenceSpaces
unfoldable pub xr_enumerate_reference_spaces :
    Call
      (Word 8 × Word 4 × Pointer (Word 4) × Pointer (Word 4))
      (Pointer (Word 4) × Pointer (Word 4))
xr_enumerate_reference_spaces = record {
  function_id = 25;
  request = λ a.
      let (session, space_capacity_input, space_count_output, spaces) = a in
      scalar session
      ⊕ scalar space_capacity_input
      ⊕ pointer (word 4) space_count_output 1
      ⊕ pointer (word 4) spaces space_capacity_input.value;
  reply = λ a.
      let (session, space_capacity_input, space_count_output, spaces) = a in
      (do
        new_space_count_output ← pointer_in_place (word 4) space_count_output
        new_spaces ← pointer_in_place (word 4) spaces
        pure (new_space_count_output, new_spaces));
}

unfoldable pub handle_xr_enumerate_reference_spaces :
    Handler
      (Word 8 × Word 4 × Pointer (Word 4) × Pointer (Word 4))
      (Pointer (Word 4) × Pointer (Word 4))
handle_xr_enumerate_reference_spaces = record {
  key = 25;
  params = (do
    session ← deserialize_word 8
    space_capacity_input ← deserialize_word 4
    space_count_output ← new_pointer (word 4)
    spaces ← new_pointer (word 4)
    pure (session, space_capacity_input, space_count_output, spaces));
  results = λ a memory.
      let (session, space_capacity_input, space_count_output, spaces) = a in
      let (new_space_count_output, new_spaces) = memory in
      pointer (word 4) new_space_count_output 1
      ⊕ pointer (word 4) new_spaces space_capacity_input.value;
}

-- xrCreateReferenceSpace
unfoldable pub xr_create_reference_space :
    {ReferenceSpaceCreateInfo : Type 0}
    → Overloads ReferenceSpaceCreateInfo
    → Call (Word 8 × Pointer ReferenceSpaceCreateInfo × Pointer (Word 8)) (Pointer (Word 8))
xr_create_reference_space reference_space_create_info_type = record {
  function_id = 10;
  request = λ a.
      let (session, create_info, space) = a in
      scalar session
      ⊕ pointer reference_space_create_info_type create_info 1
      ⊕ pointer (word 8) space 1;
  reply = λ a. let (session, create_info, space) = a in pointer_in_place (word 8) space;
}

unfoldable pub handle_xr_create_reference_space :
    {ReferenceSpaceCreateInfo : Type 0}
    → Overloads ReferenceSpaceCreateInfo
    → Handler (Word 8 × Pointer ReferenceSpaceCreateInfo × Pointer (Word 8)) (Pointer (Word 8))
handle_xr_create_reference_space reference_space_create_info_type = record {
  key = 10;
  params = (do
    session ← deserialize_word 8
    create_info ← new_pointer reference_space_create_info_type
    space ← new_pointer (word 8)
    pure (session, create_info, space));
  results = λ a memory. pointer (word 8) memory 1;
}

-- xrGetReferenceSpaceBoundsRect
unfoldable pub xr_get_reference_space_bounds_rect :
    {Extent2Df : Type 0}
    → Overloads Extent2Df
    → Call (Word 8 × Word 4 × Pointer Extent2Df) (Pointer Extent2Df)
xr_get_reference_space_bounds_rect extent2_df_type = record {
  function_id = 37;
  request = λ a.
      let (session, reference_space_type, bounds) = a in
      scalar session ⊕ scalar reference_space_type ⊕ pointer extent2_df_type bounds 1;
  reply = λ a.
      let (session, reference_space_type, bounds) = a in pointer_in_place extent2_df_type bounds;
}

unfoldable pub handle_xr_get_reference_space_bounds_rect :
    {Extent2Df : Type 0}
    → Overloads Extent2Df
    → Handler (Word 8 × Word 4 × Pointer Extent2Df) (Pointer Extent2Df)
handle_xr_get_reference_space_bounds_rect extent2_df_type = record {
  key = 37;
  params = (do
    session ← deserialize_word 8
    reference_space_type ← deserialize_word 4
    bounds ← new_pointer extent2_df_type
    pure (session, reference_space_type, bounds));
  results = λ a memory. pointer extent2_df_type memory 1;
}

-- xrCreateActionSpace
unfoldable pub xr_create_action_space :
    {ActionSpaceCreateInfo : Type 0}
    → Overloads ActionSpaceCreateInfo
    → Call (Word 8 × Pointer ActionSpaceCreateInfo × Pointer (Word 8)) (Pointer (Word 8))
xr_create_action_space action_space_create_info_type = record {
  function_id = 8;
  request = λ a.
      let (session, create_info, space) = a in
      scalar session
      ⊕ pointer action_space_create_info_type create_info 1
      ⊕ pointer (word 8) space 1;
  reply = λ a. let (session, create_info, space) = a in pointer_in_place (word 8) space;
}

unfoldable pub handle_xr_create_action_space :
    {ActionSpaceCreateInfo : Type 0}
    → Overloads ActionSpaceCreateInfo
    → Handler (Word 8 × Pointer ActionSpaceCreateInfo × Pointer (Word 8)) (Pointer (Word 8))
handle_xr_create_action_space action_space_create_info_type = record {
  key = 8;
  params = (do
    session ← deserialize_word 8
    create_info ← new_pointer action_space_create_info_type
    space ← new_pointer (word 8)
    pure (session, create_info, space));
  results = λ a memory. pointer (word 8) memory 1;
}

-- xrLocateSpace
unfoldable pub xr_locate_space :
    {SpaceLocation : Type 0}
    → Overloads SpaceLocation
    → ℕ
    → Call (Word 8 × Word 8 × Word 8 × Pointer SpaceLocation) (Pointer SpaceLocation)
xr_locate_space space_location_type time_offset = record {
  function_id = 41;
  request = λ a.
      let (space, base_space, time_at, location) = a in
      scalar space
      ⊕ scalar base_space
      ⊕ time time_offset time_at
      ⊕ pointer space_location_type location 1;
  reply = λ a.
      let (space, base_space, time_at, location) = a in
      pointer_in_place space_location_type location;
}

unfoldable pub handle_xr_locate_space :
    {SpaceLocation : Type 0}
    → Overloads SpaceLocation
    → Handler (Word 8 × Word 8 × Word 8 × Pointer SpaceLocation) (Pointer SpaceLocation)
handle_xr_locate_space space_location_type = record {
  key = 41;
  params = (do
    space ← deserialize_word 8
    base_space ← deserialize_word 8
    time_at ← read_time 0
    location ← new_pointer space_location_type
    pure (space, base_space, time_at, location));
  results = λ a memory. pointer space_location_type memory 1;
}

-- xrLocateSpaces
unfoldable pub xr_locate_spaces :
    {SpacesLocateInfo : Type 0} {SpaceLocations : Type 0}
    → Overloads SpacesLocateInfo
    → Overloads SpaceLocations
    → Call (Word 8 × Pointer SpacesLocateInfo × Pointer SpaceLocations) (Pointer SpaceLocations)
xr_locate_spaces spaces_locate_info_type space_locations_type = record {
  function_id = 42;
  request = λ a.
      let (session, locate_info, space_locations) = a in
      scalar session
      ⊕ pointer spaces_locate_info_type locate_info 1
      ⊕ pointer space_locations_type space_locations 1;
  reply = λ a.
      let (session, locate_info, space_locations) = a in
      pointer_in_place space_locations_type space_locations;
}

unfoldable pub handle_xr_locate_spaces :
    {SpacesLocateInfo : Type 0} {SpaceLocations : Type 0}
    → Overloads SpacesLocateInfo
    → Overloads SpaceLocations
    → Handler (Word 8 × Pointer SpacesLocateInfo × Pointer SpaceLocations) (Pointer SpaceLocations)
handle_xr_locate_spaces spaces_locate_info_type space_locations_type = record {
  key = 42;
  params = (do
    session ← deserialize_word 8
    locate_info ← new_pointer spaces_locate_info_type
    space_locations ← new_pointer space_locations_type
    pure (session, locate_info, space_locations));
  results = λ a memory. pointer space_locations_type memory 1;
}

-- xrDestroySpace
unfoldable pub xr_destroy_space : Call (Word 8) Unit
xr_destroy_space = record { function_id = 17; request = λ a. scalar a; reply = λ a. pure tt }

unfoldable pub handle_xr_destroy_space : Handler (Word 8) Unit
handle_xr_destroy_space = record {
  key = 17;
  params = deserialize_word 8;
  results = λ a memory. ok [];
}
