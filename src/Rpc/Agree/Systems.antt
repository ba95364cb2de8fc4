-- ===== src/Rpc/Agree/Systems.antt =====
-- Systems and instances: each function of the client fits its handler on the server.
use xrtransport.Common.{refl, arith}
use xrtransport.Serialization.Stream.{ok, bind}
use xrtransport.Serialization.Pointers.{received, placed}
use xrtransport.Serialization.Wire.{
  new_pointer, last-Lands, WordsReady, words_in_place-Lands, scalar_first,
}
use xrtransport.Rpc.Pieces.{
  below_2^32, SharedStruct, received_structs, placed_structs, StructsReady, new_structs-Lands,
  structs_in_place-Lands, both-Lands, words_first,
}
use xrtransport.Rpc.Transparent.{Agrees}
use xrtransport.Rpc.Shapes.{create_call, property_call}
use xrtransport.Rpc.Systems.{
  xr_get_instance_properties, handle_xr_get_instance_properties, xr_poll_event,
  handle_xr_poll_event, xr_get_system, handle_xr_get_system, xr_get_system_properties,
  handle_xr_get_system_properties, xr_enumerate_api_layer_properties,
  handle_xr_enumerate_api_layer_properties,
}

pub xr_get_instance_properties-Agrees :
    {InstanceProperties : Type 0} (instance_properties : SharedStruct InstanceProperties)
    → Agrees
        (xr_get_instance_properties instance_properties.client)
        (handle_xr_get_instance_properties instance_properties.server)
        (λ a. Unit)
        (λ a o. StructsReady instance_properties a.1 o 1)
        (λ a. (a.0, received_structs instance_properties a.1 1))
        (λ a o. placed_structs instance_properties a.1 o 1)
unfolding xr_get_instance_properties handle_xr_get_instance_properties
xr_get_instance_properties-Agrees instance_properties = record {
  same_function = refl;
  id_fits = omega arith;
  sends = λ a s. scalar_first a.0 _ (
      last-Lands (new_pointer instance_properties.server)
        (ok (received_structs instance_properties a.1 1)) (λ x. (a.0, x))
        (new_structs-Lands instance_properties a.1 1 (omega arith)));
  answers = λ a o s r. structs_in_place-Lands instance_properties a.1 o 1 (omega arith) r;
}

pub xr_poll_event-Agrees :
    {EventDataBuffer : Type 0} (event_data_buffer : SharedStruct EventDataBuffer)
    → Agrees
        (xr_poll_event event_data_buffer.client)
        (handle_xr_poll_event event_data_buffer.server)
        (λ a. Unit)
        (λ a o. StructsReady event_data_buffer a.1 o 1)
        (λ a. (a.0, received_structs event_data_buffer a.1 1))
        (λ a o. placed_structs event_data_buffer a.1 o 1)
unfolding xr_poll_event handle_xr_poll_event
xr_poll_event-Agrees event_data_buffer = record {
  same_function = refl;
  id_fits = omega arith;
  sends = λ a s. scalar_first a.0 _ (
      last-Lands (new_pointer event_data_buffer.server)
        (ok (received_structs event_data_buffer a.1 1)) (λ x. (a.0, x))
        (new_structs-Lands event_data_buffer a.1 1 (omega arith)));
  answers = λ a o s r. structs_in_place-Lands event_data_buffer a.1 o 1 (omega arith) r;
}

pub xr_get_system-Agrees :
    {SystemGetInfo : Type 0} (system_get_info : SharedStruct SystemGetInfo)
    → Agrees
        (xr_get_system system_get_info.client)
        (handle_xr_get_system system_get_info.server)
        (λ a. Unit)
        (λ a o. WordsReady a.2 o 1)
        (λ a. (a.0, received_structs system_get_info a.1 1, received a.2 1))
        (λ a o. placed a.2 o 1)
unfolding xr_get_system handle_xr_get_system
xr_get_system-Agrees system_get_info = create_call 38 (omega arith) system_get_info

pub xr_get_system_properties-Agrees :
    {SystemProperties : Type 0} (system_properties : SharedStruct SystemProperties)
    → Agrees
        (xr_get_system_properties system_properties.client)
        (handle_xr_get_system_properties system_properties.server)
        (λ a. Unit)
        (λ a o. StructsReady system_properties a.2 o 1)
        (λ a. (a.0, a.1, received_structs system_properties a.2 1))
        (λ a o. placed_structs system_properties a.2 o 1)
unfolding xr_get_system_properties handle_xr_get_system_properties
xr_get_system_properties-Agrees system_properties = property_call 39 (omega arith) system_properties

pub xr_enumerate_api_layer_properties-Agrees :
    {ApiLayerProperties : Type 0} (api_layer_properties : SharedStruct ApiLayerProperties)
    → Agrees
        (xr_enumerate_api_layer_properties api_layer_properties.client)
        (handle_xr_enumerate_api_layer_properties api_layer_properties.server)
        (λ a. Unit)
        (λ a o. WordsReady a.1 o.0 1 × StructsReady api_layer_properties a.2 o.1 a.0.value)
        (λ a. (a.0, received a.1 1, received_structs api_layer_properties a.2 a.0.value))
        (λ a o.
          bind
            (placed a.1 o.0 1)
            (λ x. bind (placed_structs api_layer_properties a.2 o.1 a.0.value) (λ y. ok (x, y))))
unfolding xr_enumerate_api_layer_properties handle_xr_enumerate_api_layer_properties
xr_enumerate_api_layer_properties-Agrees api_layer_properties = record {
  same_function = refl;
  id_fits = omega arith;
  sends = λ a s. scalar_first a.0 _ (
      words_first a.1 1 _ (omega arith) (
        last-Lands (new_pointer api_layer_properties.server)
          (ok (received_structs api_layer_properties a.2 a.0.value)) (λ x. (a.0, received a.1 1, x))
          (new_structs-Lands api_layer_properties a.2 a.0.value (below_2^32 a.0))));
  answers = λ a o s r.
      both-Lands (words_in_place-Lands a.1 o.0 1 (omega arith) r.0)
        (structs_in_place-Lands api_layer_properties a.2 o.1 a.0.value (below_2^32 a.0) r.1);
}
