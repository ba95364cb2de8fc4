-- ===== src/Client/Functions.antt =====
-- src/client/function_table.h: the table of functions, onto which layers are put.
use Prim.Native.String.{String}
use text.Mathlib.Text.{◌==◌}
use xrtransport.Common.{
  ℕ, ◌≡◌, refl, ◌∙◌, Bool-cases, inl, inr, List, ◌∷◌, Option, some, if◌then◌else◌,
}
use xrtransport.Client.Names.{find, erase, find-erase}

-- A function is a number.
abbrev pub FunctionTable : Type 0
FunctionTable = List (String × ℕ)

-- `none` is the null pointer.
unfoldable pub get_function : String → FunctionTable → Option ℕ
get_function name table = find name table

-- The table, and what is stored through `old_function`.
unfoldable pub add_function_layer : String → ℕ → FunctionTable → FunctionTable × Option ℕ
unfolding get_function
add_function_layer name new_function table =
    ((name, new_function) ∷ erase name table, get_function name table)

-- A layer replaces the function of its name, hands back the one that it covers, and leaves the others.
pub get_function-add_function_layer :
    (name n : String) (new_function : ℕ) (table : FunctionTable)
    → let (table', old_function) = add_function_layer n new_function table in
      (get_function name table'
        ≡ (if n == name then some new_function else get_function name table))
      × (old_function ≡ get_function n table)
unfolding get_function add_function_layer
get_function-add_function_layer name n new_function table = (
  elim (Bool-cases (n == name)) [
    | inl y ↦ rw y refl
    | inr z ↦ rw z (find-erase name n table ∙ rw z refl)
  ],
  refl,
)
