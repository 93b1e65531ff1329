-- ===== src/Common/Int.antt =====
-- Signed integers over the native numbers. Sums and orders go through the two parts of an integer,
-- which are numbers that `omega` reads.
use fancon.Common.{ℕ, suc, ◌+◌, ◌-◌, ◌*◌, ◌/◌, ◌≤◌, ◌≡◌, Bool, arith, ltb, leb, if◌then◌else◌}

-- `negsuc n` is -(n + 1).
pub data ℤ : Type 0 where
  pos : ℕ → ℤ
  negsuc : ℕ → ℤ

abbrev pub pos_part : ℤ → ℕ
pos_part (pos n) = n
pos_part (negsuc n) = 0

abbrev pub neg_part : ℤ → ℕ
neg_part (pos n) = 0
neg_part (negsuc n) = suc n

-- a - b, as an integer.
abbrev pub sub_ℕ : ℕ → ℕ → ℤ
sub_ℕ a b = if leb b a then pos (a - b) else negsuc (b - a - 1)

infixl 65 ◌+ℤ◌ ◌-ℤ◌
infixl 70 ◌*ℤ◌
infix 50 ◌≤ℤ◌
unfoldable pub ◌+ℤ◌ : ℤ → ℤ → ℤ
a +ℤ b = sub_ℕ (pos_part a + pos_part b) (neg_part a + neg_part b)

unfoldable pub ◌-ℤ◌ : ℤ → ℤ → ℤ
a -ℤ b = sub_ℕ (pos_part a + neg_part b) (neg_part a + pos_part b)

unfoldable pub ◌*ℤ◌ : ℤ → ℤ → ℤ
a *ℤ b =
    sub_ℕ (pos_part a * pos_part b + neg_part a * neg_part b)
      (pos_part a * neg_part b + neg_part a * pos_part b)

-- The division of C++, which rounds towards 0; the divisor is not 0.
unfoldable pub div_trunc : ℤ → ℤ → ℤ
div_trunc (pos a) (pos b) = pos (a / b)
div_trunc (pos a) (negsuc b) = sub_ℕ 0 (a / suc b)
div_trunc (negsuc a) (pos b) = sub_ℕ 0 (suc a / b)
div_trunc (negsuc a) (negsuc b) = pos (suc a / suc b)

abbrev pub ◌≤ℤ◌ : ℤ → ℤ → Type 0
a ≤ℤ b = pos_part a + neg_part b ≤ pos_part b + neg_part a

abbrev pub ltb_ℤ : ℤ → ℤ → Bool
ltb_ℤ a b = ltb (pos_part a + neg_part b) (pos_part b + neg_part a)

abbrev pub leb_ℤ : ℤ → ℤ → Bool
leb_ℤ a b = leb (pos_part a + neg_part b) (pos_part b + neg_part a)

pub eq_of_parts : (a b : ℤ) → pos_part a + neg_part b ≡ pos_part b + neg_part a → a ≡ b
eq_of_parts a b h = ground arith

-- What `omega` needs to know of the operations.
pub +ℤ_parts :
    (a b : ℤ)
    → pos_part (a +ℤ b) + neg_part a + neg_part b ≡ neg_part (a +ℤ b) + pos_part a + pos_part b
unfolding ◌+ℤ◌
+ℤ_parts a b = ground arith

pub -ℤ_parts :
    (a b : ℤ)
    → pos_part (a -ℤ b) + neg_part a + pos_part b ≡ neg_part (a -ℤ b) + pos_part a + neg_part b
unfolding ◌-ℤ◌
-ℤ_parts a b = ground arith

pub ruleset int_laws = (arith, +ℤ_parts, -ℤ_parts, eq_of_parts)

pub +ℤ-pos : (a b : ℕ) → pos a +ℤ pos b ≡ pos (a + b)
+ℤ-pos a b = omega int_laws
