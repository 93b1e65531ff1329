-- ===== src/Fan/Driver.antt =====
-- The hardware behind a fan: the virtual functions of `fc::Fan` and `sleep_for`, over a world `W`.
-- The world is handed on by each call, so that the hardware may move on between any two of them.
use fancon.Common.{ℕ, Bool}

pub record Driver (W : Type 0) : Type 0 where
  pub get_pwm : W → ℕ × W
  pub get_rpm : W → ℕ × W
  pub set_pwm : ℕ → W → Bool × W
  pub enable_control : W → Bool × W
  pub disable_control : W → Bool × W
  -- milliseconds
  pub sleep_for : ℕ → W → W
