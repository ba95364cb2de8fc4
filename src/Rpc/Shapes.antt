-- ===== src/Rpc/Shapes.antt =====
-- The shapes of arguments that most functions have: each fits its handler, whatever its id is.
use xrtransport.Common.{ℕ, ◌^◌, ◌<◌, refl, List, [], arith}
use xrtransport.Serialization.Stream.{Result, ok, Reader, pure, ◌>>=◌}
use xrtransport.Serialization.Pointer.{Pointer}
use xrtransport.Serialization.Pointers.{received, placed}
use xrtransport.Serialization.Word.{Word, deserialize_word}
use xrtransport.Serialization.Wire.{
  ◌⊕◌, scalar, word, pointer, new_pointer, pointer_in_place, scalar-Lands, last-Lands, scalar_first,
  new_words-Lands, words_in_place-Lands, WordsReady,
}
use xrtransport.Rpc.Pieces.{
  SharedStruct, received_structs, placed_structs, StructsReady, new_structs-Lands,
  structs_in_place-Lands, nothing-Lands, structs_first,
}
use xrtransport.Rpc.Call.{Call, Handler}
use xrtransport.Rpc.Transparent.{Agrees}

module _ {A O : Type 0} (id : ℕ) where
  abbrev pub message_of : (A → Result (List ℕ)) → (A → Reader O) → Call A O
  message_of request reply = record { function_id = id; request = request; reply = reply }

  abbrev pub answer_of : Reader A → (A → O → Result (List ℕ)) → Handler A O
  answer_of params results = record { key = id; params = params; results = results }

-- The arguments arrive as they are, and nothing comes back but the result.
abbrev pub AgreesPlainly : {A : Type 0} → Call A Unit → Handler A Unit → Type 0
AgreesPlainly c h = Agrees c h (λ a. Unit) (λ a o. Unit) (λ a. a) (λ a o. ok tt)

module _ (id : ℕ) (h : id < 2 ^ 32) where
  -- Scalars alone, as of a handle to destroy.
  pub scalar_call :
      {w : ℕ}
      → Agrees
          (message_of {A = Word w} {O = Unit} id (λ a. scalar a) (λ a. pure tt))
          (answer_of id (deserialize_word w) (λ a o. ok []))
          (λ a. Unit)
          (λ a o. Unit)
          (λ a. a)
          (λ a o. ok tt)
  scalar_call = record {
    same_function = refl;
    id_fits = h;
    sends = λ a s. scalar-Lands a;
    answers = λ a o s r. nothing-Lands;
  }

  pub two_scalars_call :
      {w v : ℕ}
      → Agrees
          (message_of {A = Word w × Word v} {O = Unit} id
            (λ a. scalar a.0 ⊕ scalar a.1)
            (λ a. pure tt))
          (answer_of id
            (do x ← deserialize_word w; y ← deserialize_word v; pure (x, y))
            (λ a o. ok []))
          (λ a. Unit)
          (λ a o. Unit)
          (λ a. (a.0, a.1))
          (λ a o. ok tt)
  two_scalars_call {v} = record {
    same_function = refl;
    id_fits = h;
    sends = λ a s.
        scalar_first a.0 _
          (last-Lands (deserialize_word v) (ok a.1) (λ x. (a.0, x)) (scalar-Lands a.1));
    answers = λ a o s r. nothing-Lands;
  }

  pub three_scalars_call :
      {w v u : ℕ}
      → Agrees
          (message_of {A = Word w × Word v × Word u} {O = Unit} id
            (λ a. scalar a.0 ⊕ scalar a.1 ⊕ scalar a.2)
            (λ a. pure tt))
          (answer_of id
            (do
              x ← deserialize_word w
              y ← deserialize_word v
              z ← deserialize_word u
              pure (x, y, z))
            (λ a o. ok []))
          (λ a. Unit)
          (λ a o. Unit)
          (λ a. (a.0, a.1, a.2))
          (λ a o. ok tt)
  three_scalars_call {u} = record {
    same_function = refl;
    id_fits = h;
    sends = λ a s. scalar_first a.0 _ (
        scalar_first a.1 _
          (last-Lands (deserialize_word u) (ok a.2) (λ x. (a.0, a.1, x)) (scalar-Lands a.2)));
    answers = λ a o s r. nothing-Lands;
  }

  -- A scalar that the runtime gives.
  pub value_call :
      {w v : ℕ}
      → Agrees
          (message_of {A = Word w × Pointer (Word v)} {O = Pointer (Word v)} id
            (λ a. scalar a.0 ⊕ pointer (word v) a.1 1)
            (λ a. pointer_in_place (word v) a.1))
          (answer_of id
            (do x ← deserialize_word w; p ← new_pointer (word v); pure (x, p))
            (λ a o. pointer (word v) o 1))
          (λ a. Unit)
          (λ a o. WordsReady a.1 o 1)
          (λ a. (a.0, received a.1 1))
          (λ a o. placed a.1 o 1)
  value_call {v} = record {
    same_function = refl;
    id_fits = h;
    sends = λ a s. scalar_first a.0 _ (
        last-Lands (new_pointer (word v)) (ok (received a.1 1)) (λ x. (a.0, x))
          (new_words-Lands a.1 1 (omega arith)));
    answers = λ a o s r. words_in_place-Lands a.1 o 1 (omega arith) r;
  }

  module _ {S : Type 0} (struct : SharedStruct S) where
    -- A handle with a struct.
    pub struct_call :
        {w : ℕ}
        → Agrees
            (message_of {A = Word w × Pointer S} {O = Unit} id
              (λ a. scalar a.0 ⊕ pointer struct.client a.1 1)
              (λ a. pure tt))
            (answer_of id
              (do x ← deserialize_word w; p ← new_pointer struct.server; pure (x, p))
              (λ a o. ok []))
            (λ a. Unit)
            (λ a o. Unit)
            (λ a. (a.0, received_structs struct a.1 1))
            (λ a o. ok tt)
    struct_call = record {
      same_function = refl;
      id_fits = h;
      sends = λ a s. scalar_first a.0 _ (
          last-Lands (new_pointer struct.server) (ok (received_structs struct a.1 1))
            (λ x. (a.0, x)) (new_structs-Lands struct a.1 1 (omega arith)));
      answers = λ a o s r. nothing-Lands;
    }

    -- A handle that is made after a struct.
    pub create_call :
        {w v : ℕ}
        → Agrees
            (message_of {A = Word w × Pointer S × Pointer (Word v)} {O = Pointer (Word v)} id
              (λ a. scalar a.0 ⊕ pointer struct.client a.1 1 ⊕ pointer (word v) a.2 1)
              (λ a. pointer_in_place (word v) a.2))
            (answer_of id
              (do
                x ← deserialize_word w
                p ← new_pointer struct.server
                q ← new_pointer (word v)
                pure (x, p, q))
              (λ a o. pointer (word v) o 1))
            (λ a. Unit)
            (λ a o. WordsReady a.2 o 1)
            (λ a. (a.0, received_structs struct a.1 1, received a.2 1))
            (λ a o. placed a.2 o 1)
    create_call {v} = record {
      same_function = refl;
      id_fits = h;
      sends = λ a s. scalar_first a.0 _ (
          structs_first struct a.1 1 _ (omega arith) (
            last-Lands (new_pointer (word v)) (ok (received a.2 1))
              (λ x. (a.0, received_structs struct a.1 1, x))
              (new_words-Lands a.2 1 (omega arith))));
      answers = λ a o s r. words_in_place-Lands a.2 o 1 (omega arith) r;
    }

    -- A struct that the runtime fills for two scalars.
    pub property_call :
        {w v : ℕ}
        → Agrees
            (message_of {A = Word w × Word v × Pointer S} {O = Pointer S} id
              (λ a. scalar a.0 ⊕ scalar a.1 ⊕ pointer struct.client a.2 1)
              (λ a. pointer_in_place struct.client a.2))
            (answer_of id
              (do
                x ← deserialize_word w
                y ← deserialize_word v
                p ← new_pointer struct.server
                pure (x, y, p))
              (λ a o. pointer struct.server o 1))
            (λ a. Unit)
            (λ a o. StructsReady struct a.2 o 1)
            (λ a. (a.0, a.1, received_structs struct a.2 1))
            (λ a o. placed_structs struct a.2 o 1)
    property_call = record {
      same_function = refl;
      id_fits = h;
      sends = λ a s. scalar_first a.0 _ (
          scalar_first a.1 _ (
            last-Lands (new_pointer struct.server) (ok (received_structs struct a.2 1))
              (λ x. (a.0, a.1, x)) (new_structs-Lands struct a.2 1 (omega arith))));
      answers = λ a o s r. structs_in_place-Lands struct a.2 o 1 (omega arith) r;
    }

    -- A struct that the runtime fills for another.
    pub get_call :
        {T : Type 0} (state : SharedStruct T) {w : ℕ}
        → Agrees
            (message_of {A = Word w × Pointer S × Pointer T} {O = Pointer T} id
              (λ a. scalar a.0 ⊕ pointer struct.client a.1 1 ⊕ pointer state.client a.2 1)
              (λ a. pointer_in_place state.client a.2))
            (answer_of id
              (do
                x ← deserialize_word w
                p ← new_pointer struct.server
                q ← new_pointer state.server
                pure (x, p, q))
              (λ a o. pointer state.server o 1))
            (λ a. Unit)
            (λ a o. StructsReady state a.2 o 1)
            (λ a. (a.0, received_structs struct a.1 1, received_structs state a.2 1))
            (λ a o. placed_structs state a.2 o 1)
    get_call state = record {
      same_function = refl;
      id_fits = h;
      sends = λ a s. scalar_first a.0 _ (
          structs_first struct a.1 1 _ (omega arith) (
            last-Lands (new_pointer state.server) (ok (received_structs state a.2 1))
              (λ x. (a.0, received_structs struct a.1 1, x))
              (new_structs-Lands state a.2 1 (omega arith))));
      answers = λ a o s r. structs_in_place-Lands state a.2 o 1 (omega arith) r;
    }
