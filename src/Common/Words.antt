-- ===== src/Common/Words.antt =====
-- The 32-bit `uint` and `int` of the source: a `uint` is a number below `u32_mod`, an `int` an
-- integer, and each conversion and operation writes out its wrap-around.
use fancon.Common.{ℕ, ◌+◌, ◌-◌, ◌%◌, ◌≤◌, ◌<◌, ◌≡◌, arith, ltb, if◌then◌else◌}
use fancon.Common.Int.{ℤ, pos, negsuc}

abbrev pub u32_mod : ℕ
u32_mod = 4294967296

abbrev pub i32_top : ℕ
i32_top = 2147483648

-- uint a + b, a - b
unfoldable pub add32 : ℕ → ℕ → ℕ
add32 a b = (a + b) % u32_mod

unfoldable pub sub32 : ℕ → ℕ → ℕ
sub32 a b = (a + u32_mod - b) % u32_mod

-- `static_cast<int>` of a uint
unfoldable pub to_int32 : ℕ → ℤ
to_int32 x = if ltb x i32_top then pos x else negsuc (u32_mod - x - 1)

-- `static_cast<uint>` of an int
unfoldable pub of_int32 : ℤ → ℕ
of_int32 (pos n) = n % u32_mod
of_int32 (negsuc n) = u32_mod - 1 - n % u32_mod

pub sub32-le : (s r : ℕ) → r ≤ s → s < u32_mod → sub32 s r ≡ s - r
unfolding sub32
sub32-le s r h k = omega arith
