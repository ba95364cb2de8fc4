-- ===== src/Rpc/Agree/Views.antt =====
-- Views: each function of the client fits its handler on the server.
use xrtransport.Common.{refl, arith}
use xrtransport.Serialization.Stream.{ok, bind}
use xrtransport.Serialization.Pointers.{received, placed}
use xrtransport.Serialization.Wire.{
  new_pointer, last-Lands, WordsReady, words_in_place-Lands, scalar_first,
}
use xrtransport.Rpc.Pieces.{
  below_2^32, SharedStruct, received_structs, placed_structs, StructsReady, new_structs-Lands,
  structs_in_place-Lands, both-Lands, all_three-Lands, words_first, structs_first,
}
use xrtransport.Rpc.Transparent.{Agrees}
use xrtransport.Rpc.Views.{
  xr_enumerate_view_configuration_views, handle_xr_enumerate_view_configuration_views,
  xr_locate_views, handle_xr_locate_views,
}

pub xr_enumerate_view_configuration_views-Agrees :
    {ViewConfigurationView : Type 0} (view_configuration_view : SharedStruct ViewConfigurationView)
    → Agrees
        (xr_enumerate_view_configuration_views view_configuration_view.client)
        (handle_xr_enumerate_view_configuration_views view_configuration_view.server)
        (λ a. Unit)
        (λ a o. WordsReady a.4 o.0 1 × StructsReady view_configuration_view a.5 o.1 a.3.value)
        (λ a. (
          a.0,
          a.1,
          a.2,
          a.3,
          received a.4 1,
          received_structs view_configuration_view a.5 a.3.value,
        ))
        (λ a o.
          bind
            (placed a.4 o.0 1)
            (λ x. bind (placed_structs view_configuration_view a.5 o.1 a.3.value) (λ y. ok (x, y))))
unfolding xr_enumerate_view_configuration_views handle_xr_enumerate_view_configuration_views
xr_enumerate_view_configuration_views-Agrees view_configuration_view = record {
  same_function = refl;
  id_fits = omega arith;
  sends = λ a s. scalar_first a.0 _ (
      scalar_first a.1 _ (
        scalar_first a.2 _ (
          scalar_first a.3 _ (
            words_first a.4 1 _ (omega arith) (
              last-Lands (new_pointer view_configuration_view.server)
                (ok (received_structs view_configuration_view a.5 a.3.value))
                (λ x. (a.0, a.1, a.2, a.3, received a.4 1, x))
                (new_structs-Lands view_configuration_view a.5 a.3.value (below_2^32 a.3)))))));
  answers = λ a o s r.
      both-Lands (words_in_place-Lands a.4 o.0 1 (omega arith) r.0)
        (structs_in_place-Lands view_configuration_view a.5 o.1 a.3.value (below_2^32 a.3) r.1);
}

pub xr_locate_views-Agrees :
    {ViewLocateInfo : Type 0} (view_locate_info : SharedStruct ViewLocateInfo) {ViewState : Type 0}
    (view_state : SharedStruct ViewState) {View : Type 0} (view : SharedStruct View)
    → Agrees
        (xr_locate_views view_locate_info.client view_state.client view.client)
        (handle_xr_locate_views view_locate_info.server view_state.server view.server)
        (λ a. Unit)
        (λ a o.
          StructsReady view_state a.2 o.0 1
          × WordsReady a.4 o.1 1
          × StructsReady view a.5 o.2 a.3.value)
        (λ a. (
          a.0,
          received_structs view_locate_info a.1 1,
          received_structs view_state a.2 1,
          a.3,
          received a.4 1,
          received_structs view a.5 a.3.value,
        ))
        (λ a o. bind (placed_structs view_state a.2 o.0 1) (λ x.
          bind
            (placed a.4 o.1 1)
            (λ y. bind (placed_structs view a.5 o.2 a.3.value) (λ z. ok (x, y, z)))))
unfolding xr_locate_views handle_xr_locate_views
xr_locate_views-Agrees view_locate_info view_state view = record {
  same_function = refl;
  id_fits = omega arith;
  sends = λ a s. scalar_first a.0 _ (
      structs_first view_locate_info a.1 1 _ (omega arith) (
        structs_first view_state a.2 1 _ (omega arith) (
          scalar_first a.3 _ (
            words_first a.4 1 _ (omega arith) (
              last-Lands (new_pointer view.server) (ok (received_structs view a.5 a.3.value))
                (λ x. (
                  a.0,
                  received_structs view_locate_info a.1 1,
                  received_structs view_state a.2 1,
                  a.3,
                  received a.4 1,
                  x,
                ))
                (new_structs-Lands view a.5 a.3.value (below_2^32 a.3)))))));
  answers = λ a o s r.
      all_three-Lands (structs_in_place-Lands view_state a.2 o.0 1 (omega arith) r.0)
        (words_in_place-Lands a.4 o.1 1 (omega arith) r.1)
        (structs_in_place-Lands view a.5 o.2 a.3.value (below_2^32 a.3) r.2);
}
