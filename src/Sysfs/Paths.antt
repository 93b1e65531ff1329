-- ===== src/Sysfs/Paths.antt =====
-- src/fan/FanSysfs.cpp: the paths of a fan's files, and its constructor; with the number that
-- `FanDell::valid` of src/dell/FanDell.cpp reads off the path of the PWM. Paths are texts.
pub mod Names
use fancon.Common.{ℕ, Bool, true, false, Option, none, some, [], ◌∷◌, ◌++◌, ◌==◌, if◌then◌else◌}
use fancon.Common.Int.{pos, ltb_ℤ}
use fancon.Common.Words.{u32_mod}
use fancon.Util.Files.{FileSystem, real_path}
use fancon.Util.Text.{Text, codes, show, postfix_num}

-- `/` of two paths, of which the second is relative.
unfoldable pub ends_in_slash : Text → Bool
ends_in_slash [] = true
ends_in_slash (c ∷ []) = c == b'/'
ends_in_slash (c ∷ d ∷ s) = ends_in_slash (d ∷ s)

unfoldable pub under : Text → Text → Text
unfolding ends_in_slash
under dir name = if ends_in_slash dir then dir ++ name else dir ++ (b'/' ∷ name)

unfoldable pub or_no_path : Option Text → Text
or_no_path none = []
or_no_path (some p) = p

-- The members that the constructor sets.
pub record Made : Type 0 where
  pub pwm_path : Text
  pub rpm_path : Text
  pub enable_path : Text
  pub ignore : Bool

module _ {W : Type 0} (fs : FileSystem W) where
  unfoldable pub get_pwm_path : Text → ℕ → W → Text
  unfolding real_path under or_no_path show
  get_pwm_path adapter_path dev_id w =
      or_no_path (real_path fs (under adapter_path (codes "pwm" ++ show dev_id)) w)

  unfoldable pub get_rpm_path : Text → ℕ → W → Text
  unfolding real_path under or_no_path show
  get_rpm_path adapter_path dev_id w =
      or_no_path
        (real_path fs (under adapter_path (codes "fan" ++ (show dev_id ++ codes "_input"))) w)

  unfoldable pub get_enable_path : Text → ℕ → W → Text
  unfolding real_path get_pwm_path
  get_enable_path adapter_path dev_id w =
      or_no_path (real_path fs (get_pwm_path adapter_path dev_id w ++ codes "_enable") w)

  unfoldable pub get_sensor_enable_path : Text → ℕ → W → Option Text
  unfolding real_path under show
  get_sensor_enable_path adapter_path dev_id w =
      real_path fs (under adapter_path (codes "fan" ++ (show dev_id ++ codes "_enable"))) w

  -- What cannot be read is no fault.
  unfoldable pub is_faulty : Text → ℕ → W → Bool
  unfolding under show
  is_faulty adapter_path dev_id w =
      elim (fs.read (under adapter_path (codes "fan" ++ (show dev_id ++ codes "_fault"))) w) [
        | none ↦ false
        | some fault ↦ ltb_ℤ (pos 0) fault
      ]

  -- The constructor: the paths of the PWM, the RPM and the mode, and `ignore`. A faulty fan is ignored,
  -- else the sensor of its speed is enabled, where it can be.
  unfoldable pub construct : Text → ℕ → W → Made × W
  unfolding get_pwm_path get_rpm_path get_enable_path get_sensor_enable_path is_faulty
  construct adapter_path id w =
      let made : Bool → Made = λ ignore. record {
        pwm_path = get_pwm_path adapter_path id w;
        rpm_path = get_rpm_path adapter_path id w;
        enable_path = get_enable_path adapter_path id w;
        ignore = ignore;
      } in
      if is_faulty adapter_path id w
      then (made true, w)
      else elim (get_sensor_enable_path adapter_path id w) [
        | none ↦ (made false, w)
        | some p ↦ (made false, (fs.write p (pos 1) w).1)
      ]

-- The id that `FanDell::valid` asks the firmware about.
unfoldable pub dell_id : Text → Option ℕ
unfolding postfix_num
dell_id pwm_path = postfix_num u32_mod pwm_path
