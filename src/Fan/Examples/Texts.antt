-- ===== src/Fan/Examples/Texts.antt =====
-- The texts of a fan's maps and its message, at concrete settings.
use Prim.Native.String.{String}
use fancon.Common.{ℕ, ◌≡◌, refl, none, some, List, [], ◌∷◌, arith}
use fancon.Common.Int.{pos, negsuc, ◌-ℤ◌, ◌*ℤ◌, div_trunc}
use fancon.Common.OrdMap.{insert, nat_less, int_less, last_entry}
use fancon.Common.Words.{sub32, add32}
use fancon.Controller.{find}
use fancon.Util.Text.{codes, show, show_ℤ, map_str, digits_of, from_string}
use fancon.Fan.Percent.{percent_to_rpm, pwm_to_rpm, min_running}
use fancon.Fan.Parse.{rpm_to_pwm_from, temp_to_rpm_from, to_celsius, after_digits}
use fancon.Fan.Parse.Printed.{rpm_to_pwm_from-map_str}
use fancon.Fan.Message.{Device, Message, sysfs, fan_from, fan_to, empty, sensor_name}
use fancon.Fan.Message.RoundTrip.{fresh, both_sysfs, fan_from-fan_to}

texts :
    (rpm_to_pwm_from (codes "  800 :60") [] ≡ some ((800, 60) ∷ []))
    × (rpm_to_pwm_from (codes "800: 300") [] ≡ some ((800, 255) ∷ []))
    × (rpm_to_pwm_from (codes "4294967296: 60") [] ≡ some [])
    × (rpm_to_pwm_from (codes "800: 3000") [] ≡ none)
    × (rpm_to_pwm_from (codes "800: 60, 900: 70") [] ≡ none)
    × (rpm_to_pwm_from (codes "none") [] ≡ some [])
unfolding rpm_to_pwm_from insert from_string digits_of after_digits
texts = (refl, refl, refl, refl, refl, refl)

curves :
    (temp_to_rpm_from ((800, 60) ∷ (1600, 255) ∷ []) (codes "104f: 100%") []
      ≡ some ((pos 40, 1600) ∷ []))
    × (temp_to_rpm_from ((800, 60) ∷ []) (codes "40c: 60 PWM") [] ≡ some ((pos 40, 800) ∷ []))
    × (temp_to_rpm_from ((800, 60) ∷ []) (codes "4F:500") [] ≡ some ((negsuc 14, 500) ∷ []))
    × (temp_to_rpm_from [] (codes "40: 500") [] ≡ some [])
unfolding digits_of after_digits temp_to_rpm_from insert from_string to_celsius ◌-ℤ◌ ◌*ℤ◌ div_trunc
    percent_to_rpm pwm_to_rpm min_running last_entry sub32 add32
curves = (refl, refl, refl, refl)

printed :
    (map_str show show ((800, 60) ∷ (1600, 255) ∷ []) ≡ codes "800: 60, 1600: 255")
    × (map_str show_ℤ show ((negsuc 4, 0) ∷ []) ≡ codes "-5: 0")
unfolding map_str show show_ℤ
printed = (refl, refl)

rpm_to_pwm_from-map_str_example :
    rpm_to_pwm_from (map_str show show ((800, 60) ∷ (1600, 255) ∷ [])) [] ≡ none
rpm_to_pwm_from-map_str_example =
    rpm_to_pwm_from-map_str ((800, 60) ∷ (1600, 255) ∷ []) [] (omega arith)

abbrev front : Device String
front = record {
  label = "front";
  sensor = some "cpu";
  fan = record fresh {
    rpm_to_pwm = (800, 60) ∷ [];
    temp_to_rpm = (pos 40, 500) ∷ [];
    start_pwm = 60;
    interval = 500;
  };
  hardware = sysfs "pwm1" "fan1_input" "pwm1_enable" (pos 2);
}

abbrev sensors : List (String × String)
sensors = ("cpu", "cpu") ∷ []

fan_from-fan_to_example :
    fan_from
      (λ s. s)
      sensors
      (fan_to (λ s. s) front empty)
      (record { label = ""; sensor = none; fan = fresh; hardware = sysfs "" "" "" (pos 2) })
    ≡ some front
unfolding find sensor_name insert
fan_from-fan_to_example =
    fan_from-fan_to (λ s. s) sensors front (sysfs "" "" "" (pos 2)) both_sysfs refl (omega arith)

abbrev stopped : Device String
stopped = record front { fan = record fresh { start_pwm = 70 } }

abbrev serialise : Message → List ℕ
serialise m = m.start_pwm ∷ m.interval ∷ []
