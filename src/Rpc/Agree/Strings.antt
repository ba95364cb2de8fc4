-- ===== src/Rpc/Agree/Strings.antt =====
-- Paths and extensions: each function of the client fits its handler on the server.
use xrtransport.Common.{refl, arith}
use xrtransport.Serialization.Stream.{ok, bind}
use xrtransport.Serialization.Pointers.{received, placed}
use xrtransport.Serialization.Wire.{
  word, new_pointer, last-Lands, new_words-Lands, WordsReady, words_in_place-Lands, scalar_first,
}
use xrtransport.Rpc.Pieces.{
  below_2^32, SharedStruct, received_structs, placed_structs, StructsReady, new_structs-Lands,
  structs_in_place-Lands, IsString, received_string, both-Lands, words_first, string_first,
}
use xrtransport.Rpc.Transparent.{Agrees}
use xrtransport.Rpc.Strings.{
  xr_string_to_path, handle_xr_string_to_path, xr_path_to_string, handle_xr_path_to_string,
  xr_enumerate_instance_extension_properties, handle_xr_enumerate_instance_extension_properties,
}

pub xr_string_to_path-Agrees :
    Agrees xr_string_to_path handle_xr_string_to_path
      (λ a. IsString a.1)
      (λ a o. WordsReady a.2 o 1)
      (λ a. (a.0, received_string a.1, received a.2 1))
      (λ a o. placed a.2 o 1)
unfolding xr_string_to_path handle_xr_string_to_path
xr_string_to_path-Agrees = record {
  same_function = refl;
  id_fits = omega arith;
  sends = λ a s. scalar_first a.0 _ (
      string_first a.1 _ s (
        last-Lands (new_pointer (word 8)) (ok (received a.2 1)) (λ x. (a.0, received_string a.1, x))
          (new_words-Lands a.2 1 (omega arith))));
  answers = λ a o s r. words_in_place-Lands a.2 o 1 (omega arith) r;
}

pub xr_path_to_string-Agrees :
    Agrees xr_path_to_string handle_xr_path_to_string
      (λ a. Unit)
      (λ a o. WordsReady a.3 o.0 1 × WordsReady a.4 o.1 a.2.value)
      (λ a. (a.0, a.1, a.2, received a.3 1, received a.4 a.2.value))
      (λ a o. bind (placed a.3 o.0 1) (λ x. bind (placed a.4 o.1 a.2.value) (λ y. ok (x, y))))
unfolding xr_path_to_string handle_xr_path_to_string
xr_path_to_string-Agrees = record {
  same_function = refl;
  id_fits = omega arith;
  sends = λ a s. scalar_first a.0 _ (
      scalar_first a.1 _ (
        scalar_first a.2 _ (
          words_first a.3 1 _ (omega arith) (
            last-Lands (new_pointer (word 1)) (ok (received a.4 a.2.value))
              (λ x. (a.0, a.1, a.2, received a.3 1, x))
              (new_words-Lands a.4 a.2.value (below_2^32 a.2))))));
  answers = λ a o s r.
      both-Lands (words_in_place-Lands a.3 o.0 1 (omega arith) r.0)
        (words_in_place-Lands a.4 o.1 a.2.value (below_2^32 a.2) r.1);
}

pub xr_enumerate_instance_extension_properties-Agrees :
    {ExtensionProperties : Type 0} (extension_properties : SharedStruct ExtensionProperties)
    → Agrees
        (xr_enumerate_instance_extension_properties extension_properties.client)
        (handle_xr_enumerate_instance_extension_properties extension_properties.server)
        (λ a. IsString a.0)
        (λ a o. WordsReady a.2 o.0 1 × StructsReady extension_properties a.3 o.1 a.1.value)
        (λ a. (
          received_string a.0,
          a.1,
          received a.2 1,
          received_structs extension_properties a.3 a.1.value,
        ))
        (λ a o.
          bind
            (placed a.2 o.0 1)
            (λ x. bind (placed_structs extension_properties a.3 o.1 a.1.value) (λ y. ok (x, y))))
unfolding xr_enumerate_instance_extension_properties
    handle_xr_enumerate_instance_extension_properties
xr_enumerate_instance_extension_properties-Agrees extension_properties = record {
  same_function = refl;
  id_fits = omega arith;
  sends = λ a s. string_first a.0 _ s (
      scalar_first a.1 _ (
        words_first a.2 1 _ (omega arith) (
          last-Lands (new_pointer extension_properties.server)
            (ok (received_structs extension_properties a.3 a.1.value))
            (λ x. (received_string a.0, a.1, received a.2 1, x))
            (new_structs-Lands extension_properties a.3 a.1.value (below_2^32 a.1)))));
  answers = λ a o s r.
      both-Lands (words_in_place-Lands a.2 o.0 1 (omega arith) r.0)
        (structs_in_place-Lands extension_properties a.3 o.1 a.1.value (below_2^32 a.1) r.1);
}
