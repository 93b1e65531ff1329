-- ===== src/Nvidia/Ids.antt =====
-- Reading back ids, and percentages.
use fancon.Common.{ℕ, zero, suc, ◌+◌, ◌<◌, ◌≤◌, ◌≡◌, refl, List, [], ◌∷◌, ◌++◌, map, length, arith}
use fancon.Nvidia.{from_binary_data, pwm_to_percent, percent_to_pwm}

-- The bytes that name some ids, a zero, and whatever follows are read as those ids.
pub from_binary_data-ids :
    (ids rest : List ℕ) (len : ℕ)
    → length ids < len
    → from_binary_data (map suc ids ++ 0 ∷ rest) len ≡ ids
unfolding from_binary_data
from_binary_data-ids ids rest zero h = absurd (omega arith)
from_binary_data-ids [] rest (suc len) h = refl
from_binary_data-ids (i ∷ ids) rest (suc len) h =
    ground (arith, from_binary_data-ids ids rest len (omega (arith, h)))

-- A percentage that is written as a PWM and read again is at most one lower, a PWM that is written
-- as a percentage and read again at most three lower.
pub percent-pwm-close :
    (percent pwm : ℕ)
    → percent ≤ 100
    → pwm ≤ 255
    → (pwm_to_percent (percent_to_pwm percent) ≤ percent)
      × (percent ≤ pwm_to_percent (percent_to_pwm percent) + 1)
      × (percent_to_pwm (pwm_to_percent pwm) ≤ pwm)
      × (pwm ≤ percent_to_pwm (pwm_to_percent pwm) + 3)
unfolding pwm_to_percent percent_to_pwm
percent-pwm-close percent pwm h k = (omega arith, omega arith, omega arith, omega arith)
