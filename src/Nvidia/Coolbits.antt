-- ===== src/Nvidia/Coolbits.antt =====
-- The coolbits that are written.
use fancon.Common.{ℕ, ◌+◌, ◌/◌, ◌%◌, ◌<◌, ◌≤◌, ◌≡◌, none, arith}
use fancon.Nvidia.{take_bits, fan_control_set, new_coolbits, enable_fan_control_coolbit}

-- The new value has five bits, with the bit of the manual control among them. The other bits of a
-- value of five bits stay; from a greater value all five are set.
pub new_coolbits-set :
    (v : ℕ)
    → (new_coolbits v < 32)
      × (new_coolbits v / 4 % 2 ≡ 1)
      × (v < 32 → v / 4 % 2 ≡ 1 → new_coolbits v ≡ v)
      × (v < 32 → v / 4 % 2 ≡ 0 → new_coolbits v ≡ v + 4)
      × (32 ≤ v → new_coolbits v ≡ 31)
unfolding new_coolbits take_bits fan_control_set
new_coolbits-set v = (ground arith, ground arith, ground arith, ground arith, ground arith)

-- A value that was written is right: a second run writes nothing.
pub enable_fan_control_coolbit-settled :
    (v : ℕ) → enable_fan_control_coolbit (new_coolbits v) ≡ none
unfolding enable_fan_control_coolbit
enable_fan_control_coolbit-settled v =
    ground (arith, new_coolbits-set v, new_coolbits-set (new_coolbits v))
