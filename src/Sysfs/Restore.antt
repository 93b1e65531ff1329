-- ===== src/Sysfs/Restore.antt =====
-- The mode that the driver had before control was taken.
use fancon.Common.{◌≡◌, ◌≢◌, refl, true, false, some, arith}
use fancon.Common.Int.{ℤ, pos}
use fancon.Sysfs.{
  enable_path, Files, FanSysfs, equal, write_mode, enable_control, disable_control, found_mode,
  test_driver_enable_flag, destroy,
}

equal_path : (a b : ℤ) → equal a b ≡ true → a ≡ b
unfolding equal
equal_path a b h = ground (arith, h)

module _ {W : Type 0} (files : Files W)
    -- The file of the mode exists, takes what is written to it, and is read back so.
    (exists : (w : W) → files.exists enable_path w ≡ true)
    (succeeds : (mode : ℤ) (w : W) → (files.write enable_path mode w).0 ≡ true)
    (read_back : (mode : ℤ) (w : W)
      → files.read enable_path (files.write enable_path mode w).1 ≡ some mode) where
  tested_flag :
      (fan : FanSysfs) (mode : ℤ) (w : W)
      → files.read enable_path w ≡ some mode
      → mode ≢ pos 0
      → mode ≢ fan.manual_flag
      → test_driver_enable_flag files fan w ≡ record fan { driver_flag = mode }
  unfolding test_driver_enable_flag found_mode
  tested_flag fan mode w r z m =
      let off : equal mode (pos 0) ≡ false = ground (arith, equal_path mode (pos 0), z) in
      let manual : equal mode fan.manual_flag ≡ false =
        ground (arith, equal_path mode fan.manual_flag, m) in
      rw (exists w, r, off, manual) refl

  restored :
      (fan : FanSysfs) (w : W)
      → let ((taken, held), w₁) = enable_control files fan w in
        (taken ≡ true)
        × (files.read enable_path w₁ ≡ some fan.manual_flag)
        × (files.read enable_path (disable_control files held w₁).1 ≡ some fan.driver_flag)
        × (files.read enable_path (destroy files held w₁) ≡ some fan.driver_flag)
  unfolding enable_control disable_control destroy write_mode
  restored fan w =
      let w₁ : W = (files.write enable_path fan.manual_flag w).1 in
      ground (
        arith,
        exists w,
        exists w₁,
        succeeds fan.manual_flag w,
        read_back fan.manual_flag w,
        succeeds fan.driver_flag w₁,
        read_back fan.driver_flag w₁,
      )

  -- A test of the flag on a fan that the driver controls, by a mode that is neither off nor manual,
  -- then taking the control and giving it back, by `disable_control` or with the fan's end, leaves
  -- the mode as it was found. In between the mode is manual.
  pub test_driver_enable_flag-restores :
      (fan : FanSysfs) (mode : ℤ) (w : W)
      → files.read enable_path w ≡ some mode
      → mode ≢ pos 0
      → mode ≢ fan.manual_flag
      → let tested = test_driver_enable_flag files fan w in
        let ((taken, held), w₁) = enable_control files tested w in
        (taken ≡ true)
        × (files.read enable_path w₁ ≡ some fan.manual_flag)
        × (files.read enable_path (disable_control files held w₁).1 ≡ some mode)
        × (files.read enable_path (destroy files held w₁) ≡ some mode)
  test_driver_enable_flag-restores fan mode w r z m =
      rw (tested_flag fan mode w r z m) (restored (record fan { driver_flag = mode }) w)
