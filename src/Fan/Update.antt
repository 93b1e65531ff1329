-- ===== src/Fan/Update.antt =====
-- `fc::Fan::update` as a whole, `recover_control` and `is_configured`; `none` stands for undefined
-- behaviour of one of its parts.
pub mod Keeps
use fancon.Common.{
  ℕ, zero, suc, Bool, true, false, not, ◌&&◌, Option, none, some, [], ◌∷◌, if◌then◌else◌, ltb,
  ◌>>=◌,
}
use fancon.Common.Int.{ℤ}
use fancon.Fan.{Fan, Settings}
use fancon.Fan.Driver.{Driver}
use fancon.Fan.Curve.{Doubles, target_rpm}
use fancon.Fan.Smooth.{smooth_rpm}
use fancon.Fan.Closest.{find_closest_pwm}

module _ {W : Type 0} (driver : Driver W) (fc : Settings) where
  unfoldable pub sleep : ℕ → W → W
  sleep interval w = driver.sleep_for (if ltb 0 interval then interval else fc.update_interval) w

  -- `recover_control`, from the number of tries that are left.
  unfoldable pub try_control : ℕ → ℕ → W → Bool × W
  try_control zero interval w = (false, w)
  try_control (suc n) interval w =
      let again = try_control n interval in
      let (success, w') = driver.enable_control w in
      if success then (true, w') else again (sleep interval w')

  unfoldable pub recover_control : ℕ → W → Bool × W
  recover_control interval w = try_control 5 interval w

  -- The local function `set`: the fan that smoothing leaves, once the PWM is written.
  unfoldable pub set_rpm : Fan → ℕ → W → Option (Fan × W)
  set_rpm fan rpm w = smooth_rpm fc fan.rpm_to_pwm fan.smoothing rpm >>= λ (smoothed, smoothing).
      find_closest_pwm driver fan.rpm_to_pwm fan.start_pwm smoothed w >>= λ (target, w').
      some (record fan { smoothing = smoothing }, sleep fan.interval (driver.set_pwm target w').1)

  -- `update`, at the sensor's average temperature.
  unfoldable pub update : Doubles → Fan → ℤ → W → Option (Fan × W)
  update fp fan temp w = target_rpm fp fc.dynamic fan.temp_to_rpm temp >>= λ rpm. set_rpm fan rpm w

-- `is_configured`, with whether the fan's sensor, if it has one, is ignored.
unfoldable pub is_configured : Fan → Option Bool → Bool
is_configured fan sensor =
    not (elim fan.temp_to_rpm [ [] ↦ true | ◌∷◌ x m ↦ false ])
    && elim sensor [ none ↦ false | some ignored ↦ not ignored ]
