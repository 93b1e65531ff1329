-- ===== src/Fan/Examples/Maps.antt =====
-- The maps of a fan and the conversions, at concrete measurements.
use fancon.Common.{ℕ, ◌≡◌, refl, none, some, List, [], ◌∷◌, arith}
use fancon.Common.Words.{sub32, add32}
use fancon.Common.OrdMap.{last_entry}
use fancon.Fan.Mapping.{rpm_to_pwm_from}
use fancon.Fan.Mapping.Monotone.{IsMonotone, rpm_to_pwm_from-IsMonotone}
use fancon.Fan.Percent.{min_running, percent_to_rpm, rpm_to_percent, pwm_to_rpm}
use fancon.Fan.Percent.Laws.{percent_to_rpm_lem}

-- PWM to RPM, as a test may measure them: the RPMs are not in order.
abbrev measured : List (ℕ × ℕ)
measured = (0, 0) ∷ (40, 900) ∷ (60, 850) ∷ (80, 1200) ∷ (300, 1200) ∷ []

abbrev points : List (ℕ × ℕ)
points = (0, 0) ∷ (850, 40) ∷ (900, 60) ∷ (1200, 255) ∷ []

mapping_runs : rpm_to_pwm_from measured ≡ points
unfolding rpm_to_pwm_from
mapping_runs = refl

rpm_to_pwm_from-IsMonotone_example : IsMonotone (rpm_to_pwm_from measured)
rpm_to_pwm_from-IsMonotone_example = rpm_to_pwm_from-IsMonotone measured (ground arith)

percent_runs :
    (percent_to_rpm points 0 ≡ some 0)
    × (percent_to_rpm points 50 ≡ some 850)
    × (percent_to_rpm points 100 ≡ some 1200)
    × (rpm_to_percent points 1000 ≡ some 0)
    × (rpm_to_percent points 1200 ≡ some 1)
    × (pwm_to_rpm points 55 ≡ some 900)
    × (pwm_to_rpm points 20 ≡ some 850)
    × (pwm_to_rpm points 400 ≡ some 1200)
    × (pwm_to_rpm ((500, 30) ∷ []) 20 ≡ none)
unfolding percent_to_rpm rpm_to_percent pwm_to_rpm min_running last_entry sub32 add32
percent_runs = (refl, refl, refl, refl, refl, refl, refl, refl, refl)

percent_to_rpm_lem_example : percent_to_rpm points 50 ≡ some 850
unfolding last_entry min_running
percent_to_rpm_lem_example =
    percent_to_rpm_lem points (1200, 255) (850, 40) 50 (ground arith) refl refl (omega arith)
