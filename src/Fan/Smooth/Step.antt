-- ===== src/Fan/Smooth/Step.antt =====
-- One call of `smooth_rpm` against its meaning on unbounded numbers.
use fancon.Common.{
  ◌||◌, ℕ, ◌+◌, ◌-◌, ◌*◌, ◌/◌, ◌≤◌, ◌<◌, ◌≡◌, ◌≢◌, Option, some, List, arith, ltb, ◌==◌, Gives,
  if◌then◌else◌,
}
use native.Mathlib.Decide.{dec_lt}
use fancon.Common.Int.{ℤ, pos, negsuc, ◌-ℤ◌, ◌*ℤ◌, div_trunc, ltb_ℤ}
use fancon.Common.Words.{i32_top, sub32, add32, to_int32, of_int32}
use fancon.Common.OrdMap.{last_entry}
use fancon.Fan.{Settings, Smoothing}
use fancon.Fan.Smooth.{restarted, approach, adjust, smooth_rpm}

-- The settings and the fan are in the range in which no `int` of `smooth_rpm` wraps.
pub record InRange (fc : Settings) (s : Smoothing) (rpm : ℕ) : Type 0 where
  pub rpm_fits : rpm < i32_top
  pub targeted_fits : s.targeted_rpm < i32_top
  pub intervals_pos : 0 < fc.smoothing_intervals
  pub intervals_fit : fc.smoothing_intervals < i32_top
  pub stickiness_fits : fc.top_stickiness_intervals < i32_top

-- The new targeted RPM: the one asked for, but that a decrease is held back while the fan is
-- sticky, and that an increase by a tenth of the highest RPM `max` or more goes part of the way.
abbrev pub next_rpm : ℕ → ℕ → Smoothing → ℕ → ℕ
next_rpm intervals max s rpm =
    if rpm == s.targeted_rpm || s.just_started
    then rpm
    else if ltb rpm s.targeted_rpm
    then (if ltb_ℤ (pos 0) s.top_stickiness_rem_intervals then s.targeted_rpm else rpm)
    else if ltb (10 * (rpm - s.targeted_rpm)) max
    then rpm
    else s.targeted_rpm + (rpm - s.targeted_rpm) / intervals

-- The intervals that remain: those that remained, unless the fan just started or is approaching the
-- RPM asked for.
abbrev pub next_rem : ℕ → ℕ → Smoothing → ℕ → ℤ
next_rem intervals max s rpm =
    if rpm == s.targeted_rpm
    then s.rem_intervals
    else if s.just_started
    then pos intervals
    else if ltb rpm s.targeted_rpm || ltb (10 * (rpm - s.targeted_rpm)) max
    then s.rem_intervals
    else pos intervals -ℤ pos 1

delta-up : (r t : ℕ) → t ≤ r → r < i32_top → to_int32 (sub32 r t) ≡ pos (r - t)
unfolding to_int32 sub32
delta-up r t h k = ground arith

pub delta-down : (r t : ℕ) → r < t → t < i32_top → to_int32 (sub32 r t) ≡ negsuc (t - r - 1)
unfolding to_int32 sub32
delta-down r t h k = ground arith

to_int32-pos : (n : ℕ) → n < i32_top → to_int32 n ≡ pos n
unfolding to_int32
to_int32-pos n h = ground arith

abbrev Targets : ℕ → ℤ → Option (ℕ × Smoothing) → Type 0
Targets x n o = Gives (λ r. (r.0 ≡ x) × (r.1.targeted_rpm ≡ x) × (r.1.rem_intervals ≡ n)) o

add32-quotient :
    (r t n : ℕ) → t ≤ r → r < i32_top → add32 t (of_int32 (pos ((r - t) / n))) ≡ t + (r - t) / n
unfolding add32 of_int32
add32-quotient r t n h k = let part : (r - t) / n ≤ r - t = omega arith in omega arith

module _ (fc : Settings) where
  restarted-eq :
      (s : Smoothing) (rpm : ℕ)
      → rpm ≢ s.targeted_rpm
      → fc.smoothing_intervals < i32_top
      → restarted fc s rpm ≡ pos fc.smoothing_intervals
  unfolding restarted
  restarted-eq s rpm n h = ground (arith, to_int32-pos fc.smoothing_intervals h)

  approach-eq :
      (s : Smoothing) (rpm : ℕ)
      → InRange fc s rpm
      → s.targeted_rpm < rpm
      → let x = s.targeted_rpm + (rpm - s.targeted_rpm) / fc.smoothing_intervals in
        approach fc s rpm (pos (rpm - s.targeted_rpm))
        ≡ some
            (x, record s { rem_intervals = pos fc.smoothing_intervals -ℤ pos 1; targeted_rpm = x })
  unfolding approach div_trunc
  approach-eq s rpm v h = rw (restarted-eq s rpm (omega arith) v.intervals_fit) (
      rw (add32-quotient rpm s.targeted_rpm fc.smoothing_intervals (omega arith) v.rpm_fits)
        (ground arith))

  pub adjust-down :
      (m : List (ℕ × ℕ)) (max : ℕ × ℕ) (s : Smoothing) (rpm k : ℕ)
      → last_entry m ≡ some max
      → adjust fc m s rpm (negsuc k) ≡ some (rpm, record s { targeted_rpm = rpm })
  unfolding adjust ◌*ℤ◌
  adjust-down m max s rpm k e = rw (e, adjust) (ground arith)

  adjust-up :
      (m : List (ℕ × ℕ)) (max : ℕ × ℕ) (s : Smoothing) (rpm : ℕ)
      → last_entry m ≡ some max
      → InRange fc s rpm
      → s.targeted_rpm < rpm
      → Targets
          (if ltb (10 * (rpm - s.targeted_rpm)) max.0
            then rpm
            else s.targeted_rpm + (rpm - s.targeted_rpm) / fc.smoothing_intervals)
          (if ltb (10 * (rpm - s.targeted_rpm)) max.0
            then s.rem_intervals
            else pos fc.smoothing_intervals -ℤ pos 1)
          (adjust fc m s rpm (pos (rpm - s.targeted_rpm)))
  unfolding adjust ◌*ℤ◌
  adjust-up m max s rpm e v h = rw (e, adjust) (ground (arith, approach-eq s rpm v h))

  -- Of a map that is not empty, and where the RPMs and the settings are positive ints as `InRange`
  -- says, `smooth_rpm` is defined on every branch, returns `next_rpm`, remembers what it returns as
  -- the new targeted RPM, and leaves `next_rem` intervals. So each call that goes part of the way
  -- counts its intervals from the start again, whatever remained: the part is always the same share
  -- of what is left, and a rise is not over after `smoothing_intervals` calls.
  pub smooth_rpm-next_rpm :
      (m : List (ℕ × ℕ)) (max : ℕ × ℕ) (s : Smoothing) (rpm : ℕ)
      → last_entry m ≡ some max
      → InRange fc s rpm
      → Gives
          (λ r.
            (r.0 ≡ next_rpm fc.smoothing_intervals max.0 s rpm)
            × (r.1.targeted_rpm ≡ r.0)
            × (r.1.rem_intervals ≡ next_rem fc.smoothing_intervals max.0 s rpm))
          (smooth_rpm fc m s rpm)
  unfolding smooth_rpm
  smooth_rpm-next_rpm m max s rpm e v = elim (dec_lt rpm s.targeted_rpm) [
    | yes l ↦ rw (delta-down rpm s.targeted_rpm l v.targeted_fits) (
        ground (
          arith,
          adjust-down m max s rpm (s.targeted_rpm - rpm - 1) e,
          to_int32-pos fc.smoothing_intervals v.intervals_fit,
        ))
    | no g ↦ rw (delta-up rpm s.targeted_rpm (omega arith) v.rpm_fits) (
        ground (
          arith,
          adjust-up m max
              (record s { top_stickiness_rem_intervals = to_int32 fc.top_stickiness_intervals }) rpm
              e,
          to_int32-pos fc.smoothing_intervals v.intervals_fit,
        ))
  ]
