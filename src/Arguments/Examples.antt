-- ===== src/Arguments/Examples.antt =====
-- Examples of command lines.
use Prim.Native.String.{String}
use fancon.Common.{◌≡◌, refl, true, false, List, [], ◌∷◌}
use fancon.Controller.{find, contains}
use fancon.Arguments.{
  Arg, short_to_key, key_of, is_arg, change, triggers, no_value, with_value, takes_value, read_args,
}
use fancon.Util.Text.{codes}
use fancon.Arguments.Words.{lower_word}
use fancon.Arguments.Values.{values_of}

abbrev enable : Arg
enable = record {
  key = "enable";
  short_key = "e";
  value = "";
  triggered = false;
  potential_value = true;
  needs_value = false;
}

abbrev force : Arg
force = record {
  key = "force";
  short_key = "f";
  value = "";
  triggered = false;
  potential_value = false;
  needs_value = false;
}

abbrev args : List (String × Arg)
args = ("enable", enable) ∷ ("force", force) ∷ []

shorts : short_to_key args ≡ ("e", "enable") ∷ ("f", "force") ∷ []
unfolding short_to_key contains
shorts = refl

-- The value of an argument is the word after it.
enable_cpu :
    values_of (read_args (("e", "enable") ∷ []) ("e" ∷ "cpu" ∷ "force" ∷ []) args)
    ≡ ("enable", "cpu") ∷ ("force", "") ∷ []
unfolding read_args is_arg key_of find contains takes_value change with_value no_value triggers
enable_cpu = refl

words :
    (lower_word (codes "--Stop-Service ") ≡ codes "stop-service")
    × (lower_word (codes "-E") ≡ codes "e")
    × (lower_word (codes "CPU Fan") ≡ [])
unfolding lower_word
words = (refl, refl, refl)
