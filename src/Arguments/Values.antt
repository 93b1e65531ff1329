-- ===== src/Arguments/Values.antt =====
-- The values that arguments take.
use Prim.Native.String.{String}
use fancon.Common.{◌≡◌, ◌∙◌, refl, true, List, [], ◌∷◌, All, arith}
use fancon.Controller.{contains}
use fancon.Arguments.{Arg, key_of, is_arg, change, check_needs_value, triggers, no_value, read_args}

abbrev pub values_of : List (String × Arg) → List (String × String)
values_of [] = []
values_of ((j, a) ∷ args) = (j, a.value) ∷ values_of args

module _ (shorts : List (String × String)) where
  contains-change :
      (x key : String) (f : Arg → Arg) (args : List (String × Arg))
      → contains x (change shorts key f args) ≡ contains x args
  unfolding contains change
  contains-change x key f [] = refl
  contains-change x key f ((j, a) ∷ args) = ground (arith, contains-change x key f args)

  no_value-value : (a : Arg) → (no_value shorts a).value ≡ a.value
  unfolding no_value check_needs_value triggers
  no_value-value a = ground arith

  values-change :
      (key : String) (args : List (String × Arg))
      → values_of (change shorts key (no_value shorts) args) ≡ values_of args
  unfolding change
  values-change key [] = refl
  values-change key ((j, a) ∷ args) = ground (arith, values-change key args, no_value-value a)

  abbrev pub AllArg : List String → List (String × Arg) → Type 0
  AllArg words args = All (λ word. is_arg shorts word args ≡ true) words

  AllArg-change :
      (key : String) (words : List String) (args : List (String × Arg))
      → AllArg words args
      → AllArg words (change shorts key (no_value shorts) args)
  unfolding is_arg
  AllArg-change key [] args h = tt
  AllArg-change key (word ∷ words) args (h, r) = (
    contains-change (key_of shorts word) key (no_value shorts) args ∙ h,
    AllArg-change key words args r,
  )

  -- Words that all are arguments, or the last of them, are never taken as a value: no argument's
  -- value changes.
  pub read_args-values :
      (words : List String) (args : List (String × Arg))
      → AllArg words args
      → values_of (read_args shorts words args) ≡ values_of args
  unfolding read_args
  read_args-values [] args h = refl
  read_args-values (word ∷ []) args (h, r) =
      ground (arith, values-change (key_of shorts word) args, h)
  read_args-values (word ∷ next ∷ words) args (h, r) = ground (
    arith,
    read_args-values (next ∷ words) (change shorts (key_of shorts word) (no_value shorts) args)
        (AllArg-change (key_of shorts word) (next ∷ words) args r),
    values-change (key_of shorts word) args,
    h,
    r.0,
  )
