-- ===== src/Fan/Examples/Rationals.antt =====
-- Exact fractions meet what `Curve` asks of the type `double`.
use fancon.Common.{ℕ, ◌*◌, ◌/◌, ◌≤◌, ◌<◌, ◌^◌, arith}
use fancon.Common.Int.{ℤ, pos, pos_part, ◌≤ℤ◌}
use fancon.Fan.Curve.{Doubles}

-- A numerator and a denominator; a negative integer counts as 0.
abbrev pub Fraction : Type 0
Fraction = ℕ × ℕ

abbrev pub of_int : ℤ → Fraction
of_int z = (pos_part z, 1)

abbrev pub div : Fraction → Fraction → Fraction
div (a, b) (c, d) = (a * d, b * c)

abbrev pub mul : Fraction → Fraction → Fraction
mul (a, b) (c, d) = (a * c, b * d)

abbrev pub floor : Fraction → ℤ
floor (a, b) = pos (a / b)

abbrev pub Le : Fraction → Fraction → Type 0
Le (a, b) (c, d) = (a * d ≤ c * b) × (0 < b) × (0 < d)

pub div_unit :
    (a b : ℕ)
    → a ≤ b
    → 0 < b
    → Le (of_int (pos 0)) (div (of_int (pos a)) (of_int (pos b)))
      × Le (div (of_int (pos a)) (of_int (pos b))) (of_int (pos 1))
div_unit a b h k = omega arith

pub mul_unit :
    (w : Fraction) (a : ℕ)
    → a < 2 ^ 53
    → Le (of_int (pos 0)) w
    → Le w (of_int (pos 1))
    → Le (of_int (pos 0)) (mul w (of_int (pos a))) × Le (mul w (of_int (pos a))) (of_int (pos a))
mul_unit (x, y) a n h k = (omega arith, (grind arith, omega arith, omega arith))

quotient_bound : (x y a : ℕ) → 0 < y → x ≤ a * y → x / y ≤ a
quotient_bound x y a h k = grind arith

pub floor_between :
    (x : Fraction) (a : ℕ)
    → a < 2 ^ 53
    → Le (of_int (pos 0)) x
    → Le x (of_int (pos a))
    → (pos 0 ≤ℤ floor x) × (floor x ≤ℤ pos a)
floor_between (x, y) a n h k =
    let q : x / y ≤ a = quotient_bound x y a k.1 (omega arith) in (omega arith, omega arith)

abbrev pub fractions : Doubles
fractions = record {
  Double = Fraction;
  of_int = of_int;
  div = div;
  mul = mul;
  floor = floor;
  Le = Le;
  div_unit = div_unit;
  mul_unit = mul_unit;
  floor_between = floor_between;
}
