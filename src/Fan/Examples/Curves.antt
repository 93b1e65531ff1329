-- ===== src/Fan/Examples/Curves.antt =====
-- The curve, the choice of a PWM and the smoothing at concrete fans.
use fancon.Common.{ℕ, ◌≡◌, refl, true, false, none, some, List, [], ◌∷◌, arith, Gives}
use fancon.Common.Int.{ℤ, pos, ◌+ℤ◌, ◌-ℤ◌, ◌*ℤ◌, div_trunc}
use fancon.Common.Words.{sub32, add32, to_int32, of_int32}
use fancon.Common.OrdMap.{last_entry}
use fancon.Fan.{Settings, Smoothing}
use fancon.Fan.Driver.{Driver}
use fancon.Fan.Curve.{target_rpm}
use fancon.Fan.Curve.Bracket.{Bracket, target_rpm-Bracket}
use fancon.Fan.Closest.{find_closest_pwm}
use fancon.Fan.Closest.Nearest.{Chosen, find_closest_pwm-Chosen}
use fancon.Fan.Smooth.{restarted, approach, adjust, smooth_rpm}
use fancon.Fan.Smooth.Step.{InRange, next_rpm, next_rem, smooth_rpm-next_rpm}
use fancon.Fan.Smooth.Repeat.{smooth_all, smooth_times}
use fancon.Fan.Examples.Rationals.{fractions}

abbrev curve : List (ℤ × ℕ)
curve = (pos 40, 900) ∷ (pos 50, 1800) ∷ (pos 90, 3800) ∷ []

target_runs :
    (target_rpm fractions true curve (pos 45) ≡ some 1350)
    × (target_rpm fractions false curve (pos 45) ≡ some 900)
    × (target_rpm fractions true curve (pos 50) ≡ some 1800)
    × (target_rpm fractions true curve (pos 95) ≡ some 3800)
    × (target_rpm fractions true curve (pos 30) ≡ some 900)
    × (target_rpm fractions true [] (pos 30) ≡ none)
unfolding target_rpm sub32 ◌+ℤ◌
target_runs = (refl, refl, refl, refl, refl, refl)

target_rpm-Bracket_example :
    Gives (Bracket (pos 45) curve) (target_rpm fractions true curve (pos 45))
unfolding ◌+ℤ◌
target_rpm-Bracket_example = target_rpm-Bracket fractions true curve (pos 45) (omega arith)

abbrev points : List (ℕ × ℕ)
points = (0, 0) ∷ (800, 60) ∷ (1500, 120) ∷ (2400, 255) ∷ []

-- A fan that stands still, whatever is written to it. The world is the PWM last written.
abbrev stopped : Driver ℕ
stopped = record {
  get_pwm = λ w. (w, w);
  get_rpm = λ w. (0, w);
  set_pwm = λ pwm w. (true, pwm);
  enable_control = λ w. (true, w);
  disable_control = λ w. (true, w);
  sleep_for = λ ms w. w;
}

closest_runs :
    (find_closest_pwm stopped points 100 700 0 ≡ some (100, 0))
    × (find_closest_pwm stopped points 50 700 0 ≡ some (60, 0))
    × (find_closest_pwm stopped points 100 1150 0 ≡ some (100, 0))
    × (find_closest_pwm stopped points 100 9000 0 ≡ some (255, 0))
    × (find_closest_pwm stopped [] 100 700 0 ≡ none)
unfolding find_closest_pwm sub32
closest_runs = (refl, refl, refl, refl, refl)

find_closest_pwm-Chosen_example :
    Gives (λ r. Chosen stopped points 100 700 0 r.0) (find_closest_pwm stopped points 100 700 0)
find_closest_pwm-Chosen_example =
    find_closest_pwm-Chosen stopped points 100 700 0 (omega arith) (λ e. cc) (omega arith)
      (ground arith)

abbrev settings : Settings
settings = record {
  update_interval = 500;
  dynamic = true;
  smoothing_intervals = 4;
  top_stickiness_intervals = 2;
  temp_averaging_intervals = 8;
}

abbrev spinning : Smoothing
spinning = record {
  just_started = false;
  rem_intervals = pos 4;
  targeted_rpm = 1000;
  top_stickiness_rem_intervals = pos 2;
}

smooth_functions : Unit {0}
unfolding smooth_rpm adjust approach restarted sub32 add32 to_int32 of_int32 ◌-ℤ◌ ◌*ℤ◌ div_trunc
    last_entry smooth_all smooth_times
smooth_functions = tt

smooth_runs :
    (smooth_rpm settings points spinning 2000
      ≡ some (1250, record spinning { targeted_rpm = 1250; rem_intervals = pos 3 }))
    × (smooth_rpm settings points spinning 1100
        ≡ some (1100, record spinning { targeted_rpm = 1100 }))
    × (smooth_rpm settings points spinning 400
        ≡ some (1000, record spinning { top_stickiness_rem_intervals = pos 1 }))
    × (smooth_rpm (record settings { smoothing_intervals = 0 }) points spinning 2000 ≡ none)
unfolding smooth_functions
smooth_runs = (refl, refl, refl, refl)

spinning-InRange : InRange settings spinning 2000
spinning-InRange = omega arith

smooth_rpm-next_rpm_example :
    Gives
      (λ r.
        (r.0 ≡ next_rpm 4 2400 spinning 2000)
        × (r.1.targeted_rpm ≡ r.0)
        × (r.1.rem_intervals ≡ next_rem 4 2400 spinning 2000))
      (smooth_rpm settings points spinning 2000)
unfolding smooth_functions
smooth_rpm-next_rpm_example =
    smooth_rpm-next_rpm settings points (2400, 255) spinning 2000 refl spinning-InRange
