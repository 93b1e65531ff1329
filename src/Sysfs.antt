-- ===== src/Sysfs.antt =====
-- src/fan/FanSysfs.cpp: a fan whose PWM, speed and mode are files.
pub mod Restore
pub mod Paths
mod Examples
use fancon.Common.{ℕ, Bool, true, false, not, ◌&&◌, Option, none, some, if◌then◌else◌}
use fancon.Common.Int.{ℤ, pos, leb_ℤ}
use fancon.Common.Words.{of_int32}

pub data File : Type 0 where
  pwm_path rpm_path enable_path : File

-- `exists`, `Util::read` of an integer and `Util::write` on the fan's files.
pub record Files (W : Type 0) : Type 0 where
  pub exists : File → W → Bool
  pub read : File → W → Option ℤ
  pub write : File → ℤ → W → Bool × W

-- The members that the functions below read and write.
pub record FanSysfs : Type 0 where
  pub manual_flag : ℤ
  pub driver_flag : ℤ
  pub enabled : Bool

unfoldable pub equal : ℤ → ℤ → Bool
equal a b = leb_ℤ a b && leb_ℤ b a

module _ {W : Type 0} (files : Files W) where
  -- A mode is written where there is a file for it.
  unfoldable pub write_mode : ℤ → W → Bool × W
  write_mode mode w =
      if not (files.exists enable_path w) then (true, w) else files.write enable_path mode w

  -- Whether it succeeds, and the fan after it.
  unfoldable pub enable_control : FanSysfs → W → (Bool × FanSysfs) × W
  enable_control fan w =
      let (success, w') = write_mode fan.manual_flag w in
      ((success, if success then record fan { enabled = true } else fan), w')

  -- Its answer is true in any case.
  unfoldable pub disable_control : FanSysfs → W → (Bool × FanSysfs) × W
  disable_control fan w =
      let (success, w') = write_mode fan.driver_flag w in
      ((true, if success then record fan { enabled = false } else fan), w')

  -- The mode that the driver has, if it is neither off nor manual.
  unfoldable pub found_mode : FanSysfs → Option ℤ → FanSysfs
  found_mode fan none = fan
  found_mode fan (some mode) =
      if not (equal mode (pos 0)) && not (equal mode fan.manual_flag)
      then record fan { driver_flag = mode }
      else fan

  unfoldable pub test_driver_enable_flag : FanSysfs → W → FanSysfs
  test_driver_enable_flag fan w =
      if files.exists enable_path w then found_mode fan (files.read enable_path w) else fan

  -- `set_pwm`, with what `recover_control` does.
  unfoldable pub set_pwm : (W → Bool × W) → ℕ → W → Bool × W
  set_pwm recover_control pwm w =
      let (written, w') = files.write pwm_path (pos pwm) w in
      if written then (true, w') else recover_control w'

  -- A number that cannot be read counts as 0.
  unfoldable pub or_zero : Option ℤ → ℕ
  or_zero none = 0
  or_zero (some n) = of_int32 n

  unfoldable pub get_pwm : W → ℕ
  get_pwm w = or_zero (files.read pwm_path w)

  unfoldable pub get_rpm : W → ℕ
  get_rpm w = or_zero (files.read rpm_path w)

  unfoldable pub valid : W → Bool
  valid w = files.exists pwm_path w && files.exists rpm_path w

  -- The destructor gives back a control that is taken.
  unfoldable pub destroy : FanSysfs → W → W
  destroy fan w = if fan.enabled then (disable_control fan w).1 else w
