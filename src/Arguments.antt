-- ===== src/Arguments.antt =====
-- src/util/Args.cpp: `short_to_key`; src/main.cpp: `read_args`, from where the words are in lower
-- case, and the start of the program's parts in `main`.
pub mod Values
pub mod Words
mod Examples
use Prim.Native.String.{String}
use text.Mathlib.Text.{◌==◌}
use fancon.Common.{
  Bool, true, false, not, ◌&&◌, ◌||◌, Option, none, some, List, [], ◌∷◌, if◌then◌else◌,
}
use fancon.Controller.{find, contains}

pub record Arg : Type 0 where
  pub key : String
  pub short_key : String
  pub value : String
  pub triggered : Bool
  pub potential_value : Bool
  pub needs_value : Bool

unfoldable pub has_value : Arg → Bool
has_value arg = not (arg.value == "")

-- Keys by their short keys; of two arguments with the same one the later counts.
unfoldable pub short_to_key : List (String × Arg) → List (String × String)
short_to_key [] = []
short_to_key ((key, a) ∷ args) =
    let rest = short_to_key args in
    if a.short_key == "" || contains a.short_key rest then rest else (a.short_key, a.key) ∷ rest

module _ (shorts : List (String × String)) where
  -- `rmatch`: the key that a word stands for.
  unfoldable pub key_of : String → String
  key_of word = elim (find word shorts) [ none ↦ word | some key ↦ key ]

  unfoldable pub is_arg : String → List (String × Arg) → Bool
  is_arg word args = contains (key_of word) args

  -- `check_needs_value`
  unfoldable pub check_needs_value : Arg → Arg
  check_needs_value arg =
      if arg.needs_value && not (has_value arg) then record arg { triggered = false } else arg

  unfoldable pub change : String → (Arg → Arg) → List (String × Arg) → List (String × Arg)
  change key f [] = []
  change key f ((j, a) ∷ args) = (j, if j == key then f a else a) ∷ change key f args

  unfoldable pub triggers : Arg → Arg
  triggers arg = record arg { triggered = true }

  -- An argument with no word after it that could be its value.
  unfoldable pub no_value : Arg → Arg
  no_value arg = if arg.potential_value then check_needs_value (triggers arg) else triggers arg

  unfoldable pub with_value : String → Arg → Arg
  with_value word arg = record (triggers arg) { value = word }

  unfoldable pub takes_value : Option Arg → Bool
  takes_value none = false
  takes_value (some arg) = arg.potential_value

  -- The loop over the words: a word is a key, or the value of the key before it.
  unfoldable pub read_args : List String → List (String × Arg) → List (String × Arg)
  read_args [] args = args
  read_args (word ∷ []) args = if is_arg word args then change (key_of word) no_value args else args
  read_args (word ∷ next ∷ words) args =
      let skip = read_args words in
      let go_on = read_args (next ∷ words) in
      if not (is_arg word args)
      then go_on args
      else if takes_value (find (key_of word) args) && not (is_arg next args)
      then skip (change (key_of word) (with_value (key_of next)) args)
      else go_on (change (key_of word) no_value args)
