-- ===== src/Rpc/Agree/ViewConfigurations.antt =====
-- View configurations: each function of the client fits its handler on the server.
use xrtransport.Common.{refl, arith}
use xrtransport.Serialization.Stream.{ok, bind}
use xrtransport.Serialization.Pointers.{received, placed}
use xrtransport.Serialization.Wire.{
  word, new_pointer, last-Lands, new_words-Lands, WordsReady, words_in_place-Lands, scalar_first,
}
use xrtransport.Rpc.Pieces.{
  below_2^32, SharedStruct, received_structs, placed_structs, StructsReady, new_structs-Lands,
  structs_in_place-Lands, both-Lands, words_first,
}
use xrtransport.Rpc.Transparent.{Agrees}
use xrtransport.Rpc.ViewConfigurations.{
  xr_enumerate_view_configurations, handle_xr_enumerate_view_configurations,
  xr_get_view_configuration_properties, handle_xr_get_view_configuration_properties,
  xr_enumerate_environment_blend_modes, handle_xr_enumerate_environment_blend_modes,
}

pub xr_enumerate_view_configurations-Agrees :
    Agrees xr_enumerate_view_configurations handle_xr_enumerate_view_configurations
      (λ a. Unit)
      (λ a o. WordsReady a.3 o.0 1 × WordsReady a.4 o.1 a.2.value)
      (λ a. (a.0, a.1, a.2, received a.3 1, received a.4 a.2.value))
      (λ a o. bind (placed a.3 o.0 1) (λ x. bind (placed a.4 o.1 a.2.value) (λ y. ok (x, y))))
unfolding xr_enumerate_view_configurations handle_xr_enumerate_view_configurations
xr_enumerate_view_configurations-Agrees = record {
  same_function = refl;
  id_fits = omega arith;
  sends = λ a s. scalar_first a.0 _ (
      scalar_first a.1 _ (
        scalar_first a.2 _ (
          words_first a.3 1 _ (omega arith) (
            last-Lands (new_pointer (word 4)) (ok (received a.4 a.2.value))
              (λ x. (a.0, a.1, a.2, received a.3 1, x))
              (new_words-Lands a.4 a.2.value (below_2^32 a.2))))));
  answers = λ a o s r.
      both-Lands (words_in_place-Lands a.3 o.0 1 (omega arith) r.0)
        (words_in_place-Lands a.4 o.1 a.2.value (below_2^32 a.2) r.1);
}

pub xr_get_view_configuration_properties-Agrees :
    {ViewConfigurationProperties : Type 0}
    (view_configuration_properties : SharedStruct ViewConfigurationProperties)
    → Agrees
        (xr_get_view_configuration_properties view_configuration_properties.client)
        (handle_xr_get_view_configuration_properties view_configuration_properties.server)
        (λ a. Unit)
        (λ a o. StructsReady view_configuration_properties a.3 o 1)
        (λ a. (a.0, a.1, a.2, received_structs view_configuration_properties a.3 1))
        (λ a o. placed_structs view_configuration_properties a.3 o 1)
unfolding xr_get_view_configuration_properties handle_xr_get_view_configuration_properties
xr_get_view_configuration_properties-Agrees view_configuration_properties = record {
  same_function = refl;
  id_fits = omega arith;
  sends = λ a s. scalar_first a.0 _ (
      scalar_first a.1 _ (
        scalar_first a.2 _ (
          last-Lands (new_pointer view_configuration_properties.server)
            (ok (received_structs view_configuration_properties a.3 1)) (λ x. (a.0, a.1, a.2, x))
            (new_structs-Lands view_configuration_properties a.3 1 (omega arith)))));
  answers = λ a o s r. structs_in_place-Lands view_configuration_properties a.3 o 1 (omega arith) r;
}

pub xr_enumerate_environment_blend_modes-Agrees :
    Agrees xr_enumerate_environment_blend_modes handle_xr_enumerate_environment_blend_modes
      (λ a. Unit)
      (λ a o. WordsReady a.4 o.0 1 × WordsReady a.5 o.1 a.3.value)
      (λ a. (a.0, a.1, a.2, a.3, received a.4 1, received a.5 a.3.value))
      (λ a o. bind (placed a.4 o.0 1) (λ x. bind (placed a.5 o.1 a.3.value) (λ y. ok (x, y))))
unfolding xr_enumerate_environment_blend_modes handle_xr_enumerate_environment_blend_modes
xr_enumerate_environment_blend_modes-Agrees = record {
  same_function = refl;
  id_fits = omega arith;
  sends = λ a s. scalar_first a.0 _ (
      scalar_first a.1 _ (
        scalar_first a.2 _ (
          scalar_first a.3 _ (
            words_first a.4 1 _ (omega arith) (
              last-Lands (new_pointer (word 4)) (ok (received a.5 a.3.value))
                (λ x. (a.0, a.1, a.2, a.3, received a.4 1, x))
                (new_words-Lands a.5 a.3.value (below_2^32 a.3)))))));
  answers = λ a o s r.
      both-Lands (words_in_place-Lands a.4 o.0 1 (omega arith) r.0)
        (words_in_place-Lands a.5 o.1 a.3.value (below_2^32 a.3) r.1);
}
