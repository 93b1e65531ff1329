-- ===== src/Client/Output/Examples.antt =====
-- What the client prints for three fans.
use fancon.Common.{◌+◌, ◌≡◌, refl, [], ◌∷◌, length, map, List, arith}
use fancon.Common.Int.{pos, negsuc}
use fancon.Controller.{enabled, disabled, testing}
use fancon.Util.Text.{codes, show, show_ℤ}
use fancon.Client.{status_text}
use fancon.Client.Output.{
  FanMessage, info, error, ok, is_ok, out, table, longest, row, pad, extras, text_of, test_one,
  monitor,
}
use fancon.Client.Output.Table.{between, table-aligned}

abbrev three : List FanMessage
three =
    record { label = codes "front"; fan_status = enabled; rpm = 800; pwm = 60 }
    ∷ record { label = codes "rear"; fan_status = disabled; rpm = 0; pwm = 0 }
    ∷ record { label = codes "pump"; fan_status = testing; rpm = 2200; pwm = 255 }
    ∷ []

printed_table :
    table three
    ≡ codes "front:  800rpm,  60pwm  enabled"
      ∷ codes " rear:  disabled"
      ∷ codes " pump: 2200rpm, 255pwm  testing"
      ∷ []
unfolding table longest row pad extras text_of show status_text
printed_table = refl

printed_test :
    test_one (codes "pump") (pos 50 ∷ negsuc 0 ∷ pos 100 ∷ []) ok
    ≡ info (codes "pump: 50%") ∷ error (codes "pump: test failed") ∷ []
unfolding test_one show_ℤ show is_ok
printed_test = refl

monitored : monitor (codes "pump") three ≡ out (codes "pump: 2200rpm, 255pwm(testing)") ∷ []
unfolding monitor text_of show status_text
monitored = refl

table-aligned_example :
    map length (table three)
    ≡ map
        (λ s.
          longest (λ t. t.label) three
          + between s.fan_status
          + longest (λ t. text_of t.fan_status) three)
        three
table-aligned_example = table-aligned three (omega arith)
