-- ===== src/Fan/Curve.antt =====
-- `fc::Fan::update`, up to its call of `set`: the RPM that the curve `temp_to_rpm` asks for.
-- `none` stands for undefined behaviour.
pub mod Bracket
use fancon.Common.{
  ℕ, ◌≤◌, ◌<◌, ◌^◌, ◌-◌, ◌>>=◌, Bool, not, ◌&&◌, Option, none, some, List, [], ◌∷◌, if◌then◌else◌,
}
use fancon.Common.Int.{ℤ, pos, negsuc, pos_part, ◌+ℤ◌, ◌≤ℤ◌, ltb_ℤ, leb_ℤ}
use fancon.Common.Words.{u32_mod, i32_top, sub32}
use fancon.Common.OrdMap.{lower_bound, int_less}

-- The `double` of the platform, with the facts of IEEE 754 that the interpolation relies on: an
-- integer below 2 ^ 53 is exact, and each operation is rounded to a neighbour of the exact result,
-- so that it crosses no value that is itself a `double`.
pub record Doubles : Type 1 where
  pub Double : Type 0
  pub of_int : ℤ → Double
  pub div : Double → Double → Double
  pub mul : Double → Double → Double
  pub floor : Double → ℤ
  pub Le : Double → Double → Type 0
  pub div_unit :
      (a b : ℕ)
      → a ≤ b
      → 0 < b
      → Le (of_int (pos 0)) (div (of_int (pos a)) (of_int (pos b)))
        × Le (div (of_int (pos a)) (of_int (pos b))) (of_int (pos 1))
  pub mul_unit :
      (w : Double) (a : ℕ)
      → a < 2 ^ 53
      → Le (of_int (pos 0)) w
      → Le w (of_int (pos 1))
      → Le (of_int (pos 0)) (mul w (of_int (pos a))) × Le (mul w (of_int (pos a))) (of_int (pos a))
  pub floor_between :
      (x : Double) (a : ℕ)
      → a < 2 ^ 53
      → Le (of_int (pos 0)) x
      → Le x (of_int (pos a))
      → (pos 0 ≤ℤ floor x) × (floor x ≤ℤ pos a)

-- The conversion of an integral `double` to `Rpm`: undefined out of range.
unfoldable pub to_rpm : ℤ → Option ℕ
to_rpm x = if leb_ℤ (pos 0) x && ltb_ℤ x (pos u32_mod) then some (pos_part x) else none

-- The sum of two `int`s: undefined out of range.
unfoldable pub add_int : ℤ → ℤ → Option ℤ
add_int a b =
    let sum = a +ℤ b in
    if ltb_ℤ sum (pos i32_top) && leb_ℤ (negsuc (i32_top - 1)) sum then some sum else none

module _ (fp : Doubles) where
  open fp use {of_int, div, mul, floor}

  -- The last two statements of `update`, between the points (t, r) and (u, s) of the curve.
  unfoldable pub interpolate : ℤ → ℤ × ℕ → ℤ × ℕ → Option ℕ
  unfolding to_rpm add_int
  interpolate temp (t, r) (u, s) = add_int t u >>= λ sum.
      let rpm_range = sub32 s r in
      let weight = div (of_int temp) (of_int sum) in
      to_rpm (pos r +ℤ floor (mul weight (of_int (pos rpm_range))))

  select : Bool → ℤ → Option (ℤ × ℕ) × List (ℤ × ℕ) → Option ℕ
  select dynamic temp (none, []) = none
  select dynamic temp (some (t, r), []) = some r
  select dynamic temp (none, (u, s) ∷ m) = some s
  select dynamic temp (some (t, r), (u, s) ∷ m) =
      if leb_ℤ u temp && leb_ℤ temp u
      then some s
      else if not dynamic
      then some r
      else interpolate temp (t, r) (u, s)

  unfoldable pub target_rpm : Bool → List (ℤ × ℕ) → ℤ → Option ℕ
  unfolding select interpolate lower_bound
  target_rpm dynamic curve temp = select dynamic temp (lower_bound temp none curve)
