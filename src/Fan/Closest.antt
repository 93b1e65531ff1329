-- ===== src/Fan/Closest.antt =====
-- `fc::Fan::find_closest_pwm`. `none` stands for undefined behaviour: an empty `rpm_to_pwm`.
pub mod Nearest
pub mod Safe
use fancon.Common.{ℕ, Option, none, some, List, [], ◌∷◌, ◌&&◌, ltb, leb, ◌==◌, if◌then◌else◌}
use fancon.Common.Words.{sub32}
use fancon.Common.OrdMap.{lower_bound, nat_less}
use fancon.Fan.Driver.{Driver}

-- The point that is chosen, from the iterators `le_it` and `ge_it`.
nearest_point : ℕ → Option (ℕ × ℕ) × List (ℕ × ℕ) → Option (ℕ × ℕ)
nearest_point rpm (none, []) = none
nearest_point rpm (none, ge ∷ m) = some ge
nearest_point rpm (some le, []) = some le
nearest_point rpm (some le, ge ∷ m) =
    some (if leb (sub32 rpm le.0) (sub32 ge.0 rpm) then le else ge)

module _ {W : Type 0} (driver : Driver W) where
  -- `get_rpm` is called only if the first two conditions hold.
  start_if_stopped : ℕ → ℕ → W → ℕ × W
  start_if_stopped start_pwm pwm w =
      let (rpm, w') = driver.get_rpm w in
      if ltb 0 pwm && ltb pwm start_pwm
      then ((if rpm == 0 then start_pwm else pwm), w')
      else (pwm, w)

  -- The first point is returned as it is.
  settle : ℕ → Option (ℕ × ℕ) → ℕ → W → ℕ × W
  unfolding start_if_stopped
  settle start_pwm none pwm w = (pwm, w)
  settle start_pwm (some le) pwm w = start_if_stopped start_pwm pwm w

  unfoldable pub find_closest_pwm : List (ℕ × ℕ) → ℕ → ℕ → W → Option (ℕ × W)
  unfolding lower_bound nearest_point settle
  find_closest_pwm rpm_to_pwm start_pwm rpm w =
      let its = lower_bound rpm none rpm_to_pwm in
      elim (nearest_point rpm its) [
        | none ↦ none
        | some point ↦ some (settle start_pwm its.0 point.1 w)
      ]
