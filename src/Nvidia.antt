-- ===== src/Nvidia.antt =====
-- src/nvidia/NvidiaUtil.cpp: the value of the coolbits and the ids of the devices of a GPU;
-- src/nvidia/NvidiaDevices.cpp: the two conversions between a PWM and a percentage.
pub mod Coolbits
pub mod Ids
pub mod Names
pub mod Library
mod Examples
use fancon.Common.{
  ℕ, zero, suc, ◌-◌, ◌+◌, ◌*◌, ◌/◌, Bool, false, not, Option, none, some, List, [], ◌∷◌, ltb, leb,
  ◌==◌, if◌then◌else◌,
}
use fancon.Fan.{pwm_max}

-- The loop over the values of the bits, from the greatest: whether each is set, and what is left.
unfoldable pub take_bits : List ℕ → ℕ → List Bool × ℕ
take_bits [] cur = ([], cur)
take_bits (val ∷ vals) cur =
    let is_set = leb 1 (cur / val) in
    let (set, rest) = take_bits vals (if is_set then cur - val else cur) in (is_set ∷ set, rest)

-- cbSet[fcBit], the third of five.
unfoldable pub fan_control_set : List Bool → Bool
fan_control_set (b₄ ∷ b₃ ∷ b₂ ∷ bs) = b₂
fan_control_set bs = false

-- `newv` of `enable_fan_control_coolbit`
unfoldable pub new_coolbits : ℕ → ℕ
new_coolbits initial =
    let (set, rest) = take_bits (16 ∷ 8 ∷ 4 ∷ 2 ∷ 1 ∷ []) initial in
    let fixed = if ltb 0 rest then initial - rest else initial in
    if not (fan_control_set set) then fixed + 4 else fixed

-- The value that is written, where it differs from the initial one.
unfoldable pub enable_fan_control_coolbit : ℕ → Option ℕ
enable_fan_control_coolbit initial =
    if new_coolbits initial == initial then none else some (new_coolbits initial)

-- The bytes up to the first zero or the length; the ids there begin at 1.
unfoldable pub from_binary_data : List ℕ → ℕ → List ℕ
from_binary_data [] len = []
from_binary_data (b ∷ bytes) zero = []
from_binary_data (b ∷ bytes) (suc len) =
    let ids = from_binary_data bytes len in if b == 0 then [] else (b - 1) ∷ ids

-- The double products are rounded down; for PWMs up to 255 and percentages up to 100 they round to
-- these quotients.
unfoldable pub pwm_to_percent : ℕ → ℕ
pwm_to_percent pwm = pwm * 100 / pwm_max

unfoldable pub percent_to_pwm : ℕ → ℕ
percent_to_pwm percent = percent * pwm_max / 100
