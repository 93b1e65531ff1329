-- ===== src/Sysfs/Examples.antt =====
-- Examples of a fan whose mode file holds an integer, the world; the other files hold 90.
use fancon.Common.{◌≡◌, ◌≢◌, refl, true, false, some, arith, ◌++◌}
use fancon.Common.Int.{ℤ, pos}
use fancon.Sysfs.{
  pwm_path, rpm_path, enable_path, Files, FanSysfs, enable_control, disable_control,
  test_driver_enable_flag, destroy,
}
use fancon.Util.Text.{codes, show, digits}
use fancon.Util.Files.{FileSystem, real_path}
use fancon.Sysfs.Paths.{ends_in_slash, under, get_pwm_path, dell_id}
use fancon.Sysfs.Paths.Names.{get_pwm_path-dell_id}
use fancon.Sysfs.Restore.{test_driver_enable_flag-restores}

abbrev files : Files ℤ
files = record {
  exists = λ f w. true;
  read =
      λ f w. elim f [ pwm_path ↦ some (pos 90) | rpm_path ↦ some (pos 90) | enable_path ↦ some w ];
  write = λ f v w. (true, elim f [ pwm_path ↦ w | rpm_path ↦ w | enable_path ↦ v ]);
}

abbrev fan : FanSysfs
fan = record { manual_flag = pos 1; driver_flag = pos 2; enabled = false }

five_on : pos 5 ≢ pos 0
five_on e = ground (arith, e)

five_auto : pos 5 ≢ pos 1
five_auto e = ground (arith, e)

test_driver_enable_flag-restores_example :
    let tested = test_driver_enable_flag files fan (pos 5) in
    let ((taken, held), w₁) = enable_control files tested (pos 5) in
    (taken ≡ true)
    × (some w₁ ≡ some (pos 1))
    × (some (disable_control files held w₁).1 ≡ some (pos 5))
    × (some (destroy files held w₁) ≡ some (pos 5))
test_driver_enable_flag-restores_example =
    test_driver_enable_flag-restores files (λ w. refl) (λ m w. refl) (λ m w. refl) fan (pos 5)
      (pos 5) refl five_on five_auto

-- A file system in which each path is real, and each file holds 1.
abbrev all_real : FileSystem Unit
all_real = record {
  absolute = λ p w. p;
  exists = λ p w. true;
  resolve = λ p w. some p;
  read = λ p w. some (pos 1);
  write = λ p n w. (true, w);
}

real_pwm :
    real_path all_real (under (codes "/hwmon0") (codes "pwm" ++ show 12)) tt
    ≡ some (codes "/hwmon0" ++ (codes "/pwm" ++ show 12))
unfolding real_path under ends_in_slash show digits
real_pwm = refl

get_pwm_path-dell_id_example : dell_id (get_pwm_path all_real (codes "/hwmon0") 12 tt) ≡ some 12
get_pwm_path-dell_id_example =
    get_pwm_path-dell_id all_real (codes "/hwmon0") (codes "/hwmon0") 12 tt (omega arith) real_pwm
