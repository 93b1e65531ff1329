-- ===== src/Fan.antt =====
-- src/fan/Fan.hpp and src/fan/Fan.cpp: the state of a fan, the settings that all fans share, and
-- `clamp_pwm`. The children model the functions of `fc::Fan`, a group in each.
pub mod Driver
pub mod Curve
pub mod Closest
pub mod Smooth
pub mod Mapping
pub mod Percent
pub mod Parse
pub mod Message
pub mod World
pub mod Testing
pub mod Update
mod Examples
use fancon.Common.{ℕ, Bool, ltb, if◌then◌else◌, List}
use fancon.Common.Int.{ℤ}

abbrev pub pwm_min : ℕ
pwm_min = 0

abbrev pub pwm_max : ℕ
pwm_max = 255

-- std::clamp(pwm, PWM_MIN, PWM_MAX)
unfoldable pub clamp_pwm : ℕ → ℕ
clamp_pwm pwm = if ltb pwm pwm_min then pwm_min else if ltb pwm_max pwm then pwm_max else pwm

-- The globals of the namespace `fc`.
pub record Settings : Type 0 where
  pub update_interval : ℕ
  pub dynamic : Bool
  pub smoothing_intervals : ℕ
  pub top_stickiness_intervals : ℕ
  pub temp_averaging_intervals : ℕ

pub record Smoothing : Type 0 where
  pub just_started : Bool
  pub rem_intervals : ℤ
  pub targeted_rpm : ℕ
  pub top_stickiness_rem_intervals : ℤ

-- The members of `fc::Fan` that its functions compute with.
pub record Fan : Type 0 where
  pub ignore : Bool
  pub rpm_to_pwm : List (ℕ × ℕ)
  pub temp_to_rpm : List (ℤ × ℕ)
  pub start_pwm : ℕ
  pub interval : ℕ
  pub smoothing : Smoothing
