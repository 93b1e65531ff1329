-- ===== src/Fan/Parse.antt =====
-- src/fan/Fan.cpp: `temp_to_rpm_from` and `rpm_to_pwm_from` of a text. The regular expressions are
-- matched greedily: what follows a repetition in them starts with none of its characters, so that
-- giving characters back never helps. `none` stands for undefined behaviour, as the search of a range
-- whose start lies behind its end is.
pub mod Printed
use fancon.Common.{
  ℕ, zero, suc, Bool, true, false, ◌||◌, Option, none, some, List, [], ◌∷◌, ◌==◌, if◌then◌else◌,
  ◌>>=◌,
}
use fancon.Common.Int.{ℤ, pos, ◌-ℤ◌, ◌*ℤ◌, div_trunc}
use fancon.Common.Words.{u32_mod, i32_top}
use fancon.Common.OrdMap.{insert, nat_less, int_less}
use fancon.Util.Text.{Text, is_digit, is_space, digits_of, from_string}
use fancon.Fan.{clamp_pwm}
use fancon.Fan.Percent.{percent_to_rpm, pwm_to_rpm}

-- `\d+`, and the same with a bound: what is matched, and what follows.
unfoldable pub after_digits : Text → Text
after_digits [] = []
after_digits (c ∷ s) = if is_digit c then after_digits s else c ∷ s

unfoldable pub up_to : ℕ → Text → Text
up_to zero s = []
up_to (suc n) [] = []
up_to (suc n) (c ∷ s) = if is_digit c then c ∷ up_to n s else []

unfoldable pub after_up_to : ℕ → Text → Text
after_up_to zero s = s
after_up_to (suc n) [] = []
after_up_to (suc n) (c ∷ s) = if is_digit c then after_up_to n s else c ∷ s

-- `\s*`
unfoldable pub skip_spaces : Text → Text
skip_spaces [] = []
skip_spaces (c ∷ s) = if is_space c then skip_spaces s else c ∷ s

-- An optional character, and whether it is there.
unfoldable pub optional : (ℕ → Bool) → Text → Bool × Text
optional fits [] = (false, [])
optional fits (c ∷ s) = if fits c then (true, s) else (false, c ∷ s)

unfoldable pub colon : Text → Option Text
colon [] = none
colon (c ∷ s) = if c == b':' then some s else none

unfoldable pub not_empty : Text → Text → Option (Text × Text)
not_empty [] rest = none
not_empty (c ∷ s) rest = some (c ∷ s, rest)

unfoldable pub some_digits : Text → Option (Text × Text)
unfolding not_empty
some_digits s = not_empty (digits_of s) (after_digits s)

-- `(PWM)?`
unfoldable pub pwm_suffix : Text → Bool × Text
pwm_suffix (a ∷ b ∷ c ∷ s) =
    if a == b'P'
    then (if b == b'W'
        then (if c == b'M' then (true, s) else (false, a ∷ b ∷ c ∷ s))
        else (false, a ∷ b ∷ c ∷ s))
    else (false, a ∷ b ∷ c ∷ s)
pwm_suffix s = (false, s)

-- The groups of a match of `temp_to_rpm_from`.
pub record TempItem : Type 0 where
  pub temp : Text
  pub is_fahrenheit : Bool
  pub rpm : Text
  pub is_percent : Bool
  pub is_pwm : Bool

unfoldable pub match_temp : Text → Option (TempItem × Text)
unfolding some_digits skip_spaces optional colon pwm_suffix
match_temp s = do
  (temp, s1) ← some_digits s
  let (fahrenheit, s2) = optional (λ c. c == b'f' || c == b'F') (skip_spaces s1)
  let celsius = optional (λ c. c == b'c' || c == b'C') s2
  s3 ← colon (skip_spaces celsius.1)
  (rpm, s4) ← some_digits (skip_spaces s3)
  let (percent, s5) = optional (λ c. c == b'%') (skip_spaces s4)
  let (pwm, s6) = pwm_suffix s5
  some (
    record {
      temp = temp;
      is_fahrenheit = fahrenheit;
      rpm = rpm;
      is_percent = percent;
      is_pwm = pwm;
    },
    s6,
  )

-- The groups of a match of `rpm_to_pwm_from`: RPM and PWM.
unfoldable pub match_rpm : Text → Option ((Text × Text) × Text)
unfolding some_digits skip_spaces colon not_empty up_to after_up_to
match_rpm s = do
  (rpm, s1) ← some_digits s
  s2 ← colon (skip_spaces s1)
  let s3 = skip_spaces s2
  (pwm, s4) ← not_empty (up_to 3 s3) (after_up_to 3 s3)
  some ((rpm, pwm), s4)

-- `regex_search`: the match that starts first.
unfoldable pub search : {A : Type 0} → (Text → Option (A × Text)) → Text → Option (A × Text)
search match_here [] = match_here []
search match_here (c ∷ s) = elim (match_here (c ∷ s)) [
  | some found ↦ some found
  | none ↦ search match_here s
]

-- The loop. `next_item` makes the end of the match the end of the next range, and the character
-- behind it the start: at the end of the text the range is empty, before that it is not a range.
unfoldable pub for_items :
    {A M : Type 0} → (Text → Option (A × Text)) → (A → M → Option M) → Text → M → Option M
unfolding search
for_items match_here take src m = elim (search match_here src) [
  | none ↦ some m
  | some (item, []) ↦ take item m
  | some (item, c ∷ rest) ↦ none
]

-- `(5.0 / 9.0) * (t - 32.0)`, converted to `int`: the product of the two `double`s is near enough to
-- the exact quotient, and equal to it where that is an integer.
unfoldable pub to_celsius : ℕ → ℤ
to_celsius t = div_trunc (pos 5 *ℤ (pos t -ℤ pos 32)) (pos 9)

-- The body of the loop of `temp_to_rpm_from`.
unfoldable pub take_temp : List (ℕ × ℕ) → TempItem → List (ℤ × ℕ) → Option (List (ℤ × ℕ))
take_temp rpm_to_pwm item m = elim (from_string i32_top item.temp) [
  | none ↦ some m
  | some t ↦ elim (from_string u32_mod item.rpm) [
    | none ↦ some m
    | some r ↦ do
      let temp = if item.is_fahrenheit then to_celsius t else pos t
      rpm ←
          (if item.is_percent
            then percent_to_rpm rpm_to_pwm r
            else if item.is_pwm
            then pwm_to_rpm rpm_to_pwm r
            else some r)
      some (insert temp rpm m)
  ]
]

-- A fan with no map of PWMs has to be tested first.
unfoldable pub temp_to_rpm_from : List (ℕ × ℕ) → Text → List (ℤ × ℕ) → Option (List (ℤ × ℕ))
unfolding for_items match_temp take_temp
temp_to_rpm_from [] src m = some m
temp_to_rpm_from (e ∷ rpm_to_pwm) src m = for_items match_temp (take_temp (e ∷ rpm_to_pwm)) src m

unfoldable pub take_rpm : Text × Text → List (ℕ × ℕ) → Option (List (ℕ × ℕ))
unfolding clamp_pwm
take_rpm (rpm, pwm) m = elim (from_string u32_mod rpm) [
  | none ↦ some m
  | some r ↦ elim (from_string u32_mod pwm) [
    | none ↦ some m
    | some p ↦ some (insert r (clamp_pwm p) m)
  ]
]

unfoldable pub rpm_to_pwm_from : Text → List (ℕ × ℕ) → Option (List (ℕ × ℕ))
unfolding for_items match_rpm take_rpm
rpm_to_pwm_from src m = for_items match_rpm take_rpm src m
