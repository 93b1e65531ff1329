-- ===== src/Fan/Smooth.antt =====
-- `fc::Fan::smooth_rpm`. `none` stands for undefined behaviour: `rbegin` of an empty `rpm_to_pwm`,
-- or the division by 0 intervals. An `int` is an integer; `0.1 * rpm` is compared exactly, as the
-- rounded product of a `double` and a `uint` lies on the same side of every `int`.
pub mod Step
pub mod Repeat
use fancon.Common.{ℕ, Bool, false, not, ◌&&◌, ◌||◌, Option, none, some, List, ◌==◌, if◌then◌else◌}
use fancon.Common.Int.{ℤ, pos, ◌-ℤ◌, ◌*ℤ◌, div_trunc, ltb_ℤ, leb_ℤ}
use fancon.Common.Words.{sub32, add32, to_int32, of_int32}
use fancon.Common.OrdMap.{last_entry}
use fancon.Fan.{Settings, Smoothing}

abbrev is_zero : ℤ → Bool
is_zero a = leb_ℤ a (pos 0) && leb_ℤ (pos 0) a

module _ (fc : Settings) where
  -- `smoothing.rem_intervals` as it stands at the division.
  unfoldable pub restarted : Smoothing → ℕ → ℤ
  restarted smoothing rpm =
      if not (rpm == smoothing.targeted_rpm) || smoothing.targeted_rpm == 0
      then to_int32 fc.smoothing_intervals
      else smoothing.rem_intervals

  -- From "Restart smoothing on rpm target change" on.
  unfoldable pub approach : Smoothing → ℕ → ℤ → Option (ℕ × Smoothing)
  approach smoothing rpm rpm_delta =
      let rem = restarted smoothing rpm in
      let targeted = add32 smoothing.targeted_rpm (of_int32 (div_trunc rpm_delta rem)) in
      if is_zero rem
      then none
      else some
          (targeted, record smoothing { rem_intervals = rem -ℤ pos 1; targeted_rpm = targeted })

  -- From "Don't bother smoothing for minor RPM changes" on.
  unfoldable pub adjust : List (ℕ × ℕ) → Smoothing → ℕ → ℤ → Option (ℕ × Smoothing)
  adjust rpm_to_pwm smoothing rpm rpm_delta = elim (last_entry rpm_to_pwm) [
    | none ↦ none
    | some max ↦
        if ltb_ℤ (pos 10 *ℤ rpm_delta) (pos max.0)
        then some (rpm, record smoothing { targeted_rpm = rpm })
        else approach smoothing rpm rpm_delta
  ]

  unfoldable pub smooth_rpm : List (ℕ × ℕ) → Smoothing → ℕ → Option (ℕ × Smoothing)
  smooth_rpm rpm_to_pwm smoothing rpm =
      let rpm_delta = to_int32 (sub32 rpm smoothing.targeted_rpm) in
      if is_zero rpm_delta
      then some (rpm, smoothing)
      else if smoothing.just_started
      then some (
        rpm,
        record {
          just_started = false;
          rem_intervals = to_int32 fc.smoothing_intervals;
          targeted_rpm = rpm;
          top_stickiness_rem_intervals = to_int32 fc.top_stickiness_intervals;
        },
      )
      else if ltb_ℤ rpm_delta (pos 0)
      then (if ltb_ℤ (pos 0) smoothing.top_stickiness_rem_intervals
          then some (
            smoothing.targeted_rpm,
            record smoothing {
              top_stickiness_rem_intervals = smoothing.top_stickiness_rem_intervals -ℤ pos 1;
            },
          )
          else adjust rpm_to_pwm smoothing rpm rpm_delta)
      else adjust rpm_to_pwm
          (record smoothing { top_stickiness_rem_intervals = to_int32 fc.top_stickiness_intervals })
          rpm rpm_delta
