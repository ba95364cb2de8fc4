-- ===== src/Rpc/Agree/Spaces.antt =====
-- Spaces: each function of the client fits its handler on the server.
use xrtransport.Common.{ℕ, ◌^◌, ◌<◌, refl, arith}
use xrtransport.Serialization.Stream.{ok, bind}
use xrtransport.Serialization.Pointers.{received, placed}
use xrtransport.Serialization.Wire.{
  word, new_pointer, last-Lands, moved, new_words-Lands, WordsReady, words_in_place-Lands,
  scalar_first,
}
use xrtransport.Rpc.Pieces.{
  below_2^32, SharedStruct, received_structs, placed_structs, StructsReady, new_structs-Lands,
  structs_in_place-Lands, both-Lands, words_first, time_first,
}
use xrtransport.Rpc.Transparent.{Agrees}
use xrtransport.Rpc.Shapes.{AgreesPlainly, scalar_call, create_call, property_call, get_call}
use xrtransport.Rpc.Spaces.{
  xr_enumerate_reference_spaces, handle_xr_enumerate_reference_spaces, xr_create_reference_space,
  handle_xr_create_reference_space, xr_get_reference_space_bounds_rect,
  handle_xr_get_reference_space_bounds_rect, xr_create_action_space, handle_xr_create_action_space,
  xr_locate_space, handle_xr_locate_space, xr_locate_spaces, handle_xr_locate_spaces,
  xr_destroy_space, handle_xr_destroy_space,
}

pub xr_enumerate_reference_spaces-Agrees :
    Agrees xr_enumerate_reference_spaces handle_xr_enumerate_reference_spaces
      (λ a. Unit)
      (λ a o. WordsReady a.2 o.0 1 × WordsReady a.3 o.1 a.1.value)
      (λ a. (a.0, a.1, received a.2 1, received a.3 a.1.value))
      (λ a o. bind (placed a.2 o.0 1) (λ x. bind (placed a.3 o.1 a.1.value) (λ y. ok (x, y))))
unfolding xr_enumerate_reference_spaces handle_xr_enumerate_reference_spaces
xr_enumerate_reference_spaces-Agrees = record {
  same_function = refl;
  id_fits = omega arith;
  sends = λ a s. scalar_first a.0 _ (
      scalar_first a.1 _ (
        words_first a.2 1 _ (omega arith) (
          last-Lands (new_pointer (word 4)) (ok (received a.3 a.1.value))
            (λ x. (a.0, a.1, received a.2 1, x))
            (new_words-Lands a.3 a.1.value (below_2^32 a.1)))));
  answers = λ a o s r.
      both-Lands (words_in_place-Lands a.2 o.0 1 (omega arith) r.0)
        (words_in_place-Lands a.3 o.1 a.1.value (below_2^32 a.1) r.1);
}

pub xr_create_reference_space-Agrees :
    {ReferenceSpaceCreateInfo : Type 0}
    (reference_space_create_info : SharedStruct ReferenceSpaceCreateInfo)
    → Agrees
        (xr_create_reference_space reference_space_create_info.client)
        (handle_xr_create_reference_space reference_space_create_info.server)
        (λ a. Unit)
        (λ a o. WordsReady a.2 o 1)
        (λ a. (a.0, received_structs reference_space_create_info a.1 1, received a.2 1))
        (λ a o. placed a.2 o 1)
unfolding xr_create_reference_space handle_xr_create_reference_space
xr_create_reference_space-Agrees reference_space_create_info =
    create_call 10 (omega arith) reference_space_create_info

pub xr_get_reference_space_bounds_rect-Agrees :
    {Extent2Df : Type 0} (extent2_df : SharedStruct Extent2Df)
    → Agrees
        (xr_get_reference_space_bounds_rect extent2_df.client)
        (handle_xr_get_reference_space_bounds_rect extent2_df.server)
        (λ a. Unit)
        (λ a o. StructsReady extent2_df a.2 o 1)
        (λ a. (a.0, a.1, received_structs extent2_df a.2 1))
        (λ a o. placed_structs extent2_df a.2 o 1)
unfolding xr_get_reference_space_bounds_rect handle_xr_get_reference_space_bounds_rect
xr_get_reference_space_bounds_rect-Agrees extent2_df = property_call 37 (omega arith) extent2_df

pub xr_create_action_space-Agrees :
    {ActionSpaceCreateInfo : Type 0} (action_space_create_info : SharedStruct ActionSpaceCreateInfo)
    → Agrees
        (xr_create_action_space action_space_create_info.client)
        (handle_xr_create_action_space action_space_create_info.server)
        (λ a. Unit)
        (λ a o. WordsReady a.2 o 1)
        (λ a. (a.0, received_structs action_space_create_info a.1 1, received a.2 1))
        (λ a o. placed a.2 o 1)
unfolding xr_create_action_space handle_xr_create_action_space
xr_create_action_space-Agrees action_space_create_info =
    create_call 8 (omega arith) action_space_create_info

-- The calls of xrLocateSpace that the client makes fit its handler on the server: the handles arrive as
-- they are, the time on the clock of the server, which is behind the client's by an offset below
-- 2^64, and the location, if it is not null, in new memory; the location that the runtime leaves is
-- placed in the application's memory, if that is ready for it.
pub xr_locate_space-Agrees :
    {SpaceLocation : Type 0} (space_location : SharedStruct SpaceLocation) (time_offset : ℕ)
    → time_offset < 2 ^ 64
    → Agrees
        (xr_locate_space space_location.client time_offset)
        (handle_xr_locate_space space_location.server)
        (λ a. Unit)
        (λ a o. StructsReady space_location a.3 o 1)
        (λ a. (a.0, a.1, moved time_offset a.2, received_structs space_location a.3 1))
        (λ a o. placed_structs space_location a.3 o 1)
unfolding xr_locate_space handle_xr_locate_space
xr_locate_space-Agrees space_location time_offset h = record {
  same_function = refl;
  id_fits = omega arith;
  sends = λ a s. scalar_first a.0 _ (
      scalar_first a.1 _ (
        time_first time_offset a.2 _ h (
          last-Lands (new_pointer space_location.server)
            (ok (received_structs space_location a.3 1)) (λ x. (a.0, a.1, moved time_offset a.2, x))
            (new_structs-Lands space_location a.3 1 (omega arith)))));
  answers = λ a o s r. structs_in_place-Lands space_location a.3 o 1 (omega arith) r;
}

pub xr_locate_spaces-Agrees :
    {SpacesLocateInfo : Type 0} (spaces_locate_info : SharedStruct SpacesLocateInfo)
    {SpaceLocations : Type 0} (space_locations : SharedStruct SpaceLocations)
    → Agrees
        (xr_locate_spaces spaces_locate_info.client space_locations.client)
        (handle_xr_locate_spaces spaces_locate_info.server space_locations.server)
        (λ a. Unit)
        (λ a o. StructsReady space_locations a.2 o 1)
        (λ a.
          (a.0, received_structs spaces_locate_info a.1 1, received_structs space_locations a.2 1))
        (λ a o. placed_structs space_locations a.2 o 1)
unfolding xr_locate_spaces handle_xr_locate_spaces
xr_locate_spaces-Agrees spaces_locate_info space_locations =
    get_call 42 (omega arith) spaces_locate_info space_locations

pub xr_destroy_space-Agrees : AgreesPlainly xr_destroy_space handle_xr_destroy_space
unfolding xr_destroy_space handle_xr_destroy_space
xr_destroy_space-Agrees = scalar_call 17 (omega arith)
