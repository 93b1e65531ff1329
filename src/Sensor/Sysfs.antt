-- ===== src/Sensor/Sysfs.antt =====
-- src/sensor/SensorSysfs.cpp: `min_temp`, `max_temp`, `read`, `enable` and `is_faulty`, from what the
-- files hold.
use fancon.Common.{Bool, true, false, not, ◌||◌, Option, none, some, if◌then◌else◌}
use fancon.Common.Int.{ℤ, pos, div_trunc, ltb_ℤ, leb_ℤ}

abbrev pub sysfs_temp_divisor : ℤ
sysfs_temp_divisor = pos 1000

unfoldable pub scaled : Option ℤ → Option ℤ
scaled none = none
scaled (some t) = some (div_trunc t sysfs_temp_divisor)

unfoldable pub min_temp : Option ℤ → Option ℤ
min_temp m = scaled m

-- `std::max` of the maximum and the critical temperature where there are both.
unfoldable pub max_temp : Option ℤ → Option ℤ → Option ℤ
max_temp (some m) (some c) = some (div_trunc (if ltb_ℤ m c then c else m) sysfs_temp_divisor)
max_temp (some m) none = some (div_trunc m sysfs_temp_divisor)
max_temp none (some c) = some (div_trunc c sysfs_temp_divisor)
max_temp none none = none

unfoldable pub read : Option ℤ → Option ℤ
read input = scaled input

-- `write` tells whether 1 could be written; it is asked where a mode of 0 or less is read.
unfoldable pub enable : Option ℤ → Bool → Bool
enable none write = true
enable (some mode) write = not (leb_ℤ mode (pos 0)) || write

unfoldable pub is_faulty : Option ℤ → Bool
is_faulty none = false
is_faulty (some fault) = ltb_ℤ (pos 0) fault

-- `ignore` after the constructor
unfoldable pub ignored : Option ℤ → Option ℤ → Bool → Bool
ignored fault enable_mode write = is_faulty fault || not (enable enable_mode write)
