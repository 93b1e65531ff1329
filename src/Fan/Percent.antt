-- ===== src/Fan/Percent.antt =====
-- `fc::Fan::percent_to_rpm`, `rpm_to_percent` and `pwm_to_rpm`, on the map `rpm_to_pwm`. `none`
-- stands for the thrown error of an empty map and for undefined behaviour.
pub mod Laws
use Prim.Native.Nat.{min}
use fancon.Common.{
  ℕ, ◌*◌, ◌/◌, ◌%◌, Bool, true, false, ◌||◌, Option, none, some, List, [], ◌∷◌, ltb, leb, ◌==◌,
  if◌then◌else◌, ◌>>=◌,
}
use fancon.Common.Words.{u32_mod, i32_top, sub32, add32}
use fancon.Common.OrdMap.{last_entry}
use fancon.Fan.{clamp_pwm, pwm_max}

-- `min_running_it`, past a first point at 0 RPM, if there is another.
unfoldable pub min_running : List (ℕ × ℕ) → Option (ℕ × ℕ)
min_running [] = none
min_running (e ∷ []) = some e
min_running (e ∷ f ∷ m) = some (if e.0 == 0 then f else e)

unfoldable pub percent_to_rpm : List (ℕ × ℕ) → ℕ → Option ℕ
percent_to_rpm rpm_to_pwm percent = if percent == 0 then some 0 else do
  let capped = if ltb 100 percent then 100 else percent
  max ← last_entry rpm_to_pwm
  running ← min_running rpm_to_pwm
  let range = sub32 max.0 running.0
  some (if capped == 1 then running.0 else add32 ((capped / 100 * range) % u32_mod) running.0)

-- The division of two `uint`s; its result goes to `int` through `double`, out of range undefined.
unfoldable pub rpm_to_percent : List (ℕ × ℕ) → ℕ → Option ℕ
rpm_to_percent rpm_to_pwm rpm = if rpm == 0 then some 0 else do
  max ← last_entry rpm_to_pwm
  running ← min_running rpm_to_pwm
  let adjusted = sub32 rpm running.0
  let range = sub32 max.0 running.0
  if adjusted == 0
      then some 1
      else if range == 0 || leb i32_top (adjusted / range)
      then none
      else some (min (adjusted / range) 100)

-- The loop, with the point before the iterator and whether that is the first of the map.
scan : ℕ → Option (ℕ × ℕ × Bool) → List (ℕ × ℕ) → Option ℕ
scan pwm none [] = none
scan pwm (some (r, p, first)) [] = some r
scan pwm before ((rpm, q) ∷ m) =
    let rest = scan pwm (some (rpm, q, elim before [ none ↦ true | some b ↦ false ])) m in
    if q == pwm
    then some rpm
    else if ltb pwm q
    then elim before [
      | none ↦ none
      | some (r, p, first) ↦ some (if first || ltb (sub32 q pwm) (sub32 pwm p) then rpm else r)
    ]
    else rest

unfoldable pub pwm_to_rpm : List (ℕ × ℕ) → ℕ → Option ℕ
unfolding scan clamp_pwm
pwm_to_rpm rpm_to_pwm pwm = scan (if ltb pwm_max pwm then clamp_pwm pwm else pwm) none rpm_to_pwm
