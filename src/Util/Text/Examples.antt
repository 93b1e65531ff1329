-- ===== src/Util/Text/Examples.antt =====
-- Numbers in the names of files.
use fancon.Common.{◌≡◌, refl, none, some}
use fancon.Common.Words.{u32_mod}
use fancon.Util.Text.{codes, postfix_num}

names :
    (postfix_num u32_mod (codes "hwmon3/fan12_input") ≡ some 12)
    × (postfix_num u32_mod (codes "pwm") ≡ none)
    × (postfix_num u32_mod (codes "fan4294967296") ≡ none)
unfolding postfix_num
names = (refl, refl, refl)
