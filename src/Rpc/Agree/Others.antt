-- ===== src/Rpc/Agree/Others.antt =====
-- Arguments of other kinds: functions of the client that fit their handlers on the server.
use xrtransport.Common.{ℕ, ◌∙◌, false, refl, ap, List, [], append-nil, take, some, replicate, arith}
use xrtransport.Serialization.Stream.{ok, pure, ◌>>=◌}
use xrtransport.Serialization.Pointers.{
  placed, deserialize_array-serialize_array, AllReady-replicate, drop-replicate,
}
use xrtransport.Serialization.Chain.{Table, deserialize_xr}
use xrtransport.Serialization.Chains.{IsTable, Prepared}
use xrtransport.Serialization.Word.{Word, to_word, deserialize_word}
use xrtransport.Serialization.Wire.{
  word, AnyReady, word-IsCodec, scalar, ◌⊕◌, Lands, last-Lands, WordsReady, words_in_place-Lands,
  scalar_first,
}
use xrtransport.Structs.Rows.{next-Lands}
use xrtransport.Rpc.Pieces.{SharedStruct, received_structs, structs_first, nothing-Lands}
use xrtransport.Rpc.Transparent.{Agrees}
use xrtransport.Rpc.Others.{
  characters, new_characters, xr_result_to_string, handle_xr_result_to_string,
  xr_structure_type_to_string, handle_xr_structure_type_to_string, xr_apply_haptic_feedback,
  handle_xr_apply_haptic_feedback,
}

-- Characters that are sent by themselves arrive in a new array.
characters-Lands :
    (size : ℕ) (buffer : List (Word 1))
    → Lands (characters buffer size) (new_characters size) (ok (take size buffer))
characters-Lands size buffer = record {
  lands = λ bs rest e.
      let ready =
        AllReady-replicate AnyReady (word 1).codec (word-IsCodec 1) (to_word 1 0) size buffer
          (λ a. tt) e in
      deserialize_array-serialize_array AnyReady (word 1).codec (word-IsCodec 1) size
        (replicate size (to_word 1 0)) buffer bs ready e rest
      ∙ ap (λ xs. ok (xs, rest))
          (rw (drop-replicate size (to_word 1 0)) (append-nil (take size buffer)));
}

-- The arguments of the two functions that write a name.
name_request-Lands :
    (instance_ : Word 8) (value : Word 4) (buffer : List (Word 1))
    → Lands {A = Word 8 × Word 4 × List (Word 1)}
        (scalar instance_ ⊕ scalar value ⊕ characters buffer 64)
        (deserialize_word 8
          >>= (λ i. deserialize_word 4 >>= (λ v. new_characters 64 >>= (λ b. pure (i, v, b)))))
        (ok (instance_, value, take 64 buffer))
name_request-Lands instance_ value buffer = scalar_first instance_ _ (
    scalar_first value _ (
      last-Lands (new_characters 64) (ok (take 64 buffer)) (λ x. (instance_, value, x))
        (characters-Lands 64 buffer)))

pub xr_result_to_string-Agrees :
    Agrees xr_result_to_string handle_xr_result_to_string
      (λ a. Unit)
      (λ a o. WordsReady (some a.2) o 64)
      (λ a. (a.0, a.1, take 64 a.2))
      (λ a o. placed (some a.2) o 64)
unfolding xr_result_to_string handle_xr_result_to_string
xr_result_to_string-Agrees = record {
  same_function = refl;
  id_fits = omega arith;
  sends = λ a s. name_request-Lands a.0 a.1 a.2;
  answers = λ a o s r. words_in_place-Lands (some a.2) o 64 (omega arith) r;
}

pub xr_structure_type_to_string-Agrees :
    Agrees xr_structure_type_to_string handle_xr_structure_type_to_string
      (λ a. Unit)
      (λ a o. WordsReady (some a.2) o 64)
      (λ a. (a.0, a.1, take 64 a.2))
      (λ a o. placed (some a.2) o 64)
unfolding xr_structure_type_to_string handle_xr_structure_type_to_string
xr_structure_type_to_string-Agrees = record {
  same_function = refl;
  id_fits = omega arith;
  sends = λ a s. name_request-Lands a.0 a.1 a.2;
  answers = λ a o s r. words_in_place-Lands (some a.2) o 64 (omega arith) r;
}

-- The haptic feedback is the chain that begins with it, of structs that the server's table knows.
pub xr_apply_haptic_feedback-Agrees :
    {P HapticActionInfo : Type 0} (Ready : ℕ → P → P → Type 0) (table : Table P)
    → IsTable Ready table
    → (haptic_action_info : SharedStruct HapticActionInfo)
    → Agrees
        (xr_apply_haptic_feedback table haptic_action_info.client)
        (handle_xr_apply_haptic_feedback table haptic_action_info.server)
        (λ a. Prepared Ready table false [] a.2)
        (λ a o. Unit)
        (λ a. (a.0, received_structs haptic_action_info a.1 1, a.2))
        (λ a o. ok tt)
unfolding xr_apply_haptic_feedback handle_xr_apply_haptic_feedback
xr_apply_haptic_feedback-Agrees Ready table t haptic_action_info = record {
  same_function = refl;
  id_fits = omega arith;
  sends = λ a s. scalar_first a.0 _ (
      structs_first haptic_action_info a.1 1 _ (omega arith) (
        last-Lands (deserialize_xr table false []) (ok a.2)
          (λ x. (a.0, received_structs haptic_action_info a.1 1, x))
          (next-Lands Ready table t false [] a.2 s)));
  answers = λ a o s r. nothing-Lands;
}
