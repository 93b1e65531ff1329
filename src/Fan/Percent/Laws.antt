-- ===== src/Fan/Percent/Laws.antt =====
-- What the conversions between percent, PWM and RPM return.
use fancon.Common.{
  ◌||◌, ℕ, ◌-◌, ◌/◌, ◌≤◌, ◌<◌, ◌≡◌, ◌⊎◌, inl, inr, refl, Bool, true, false, none, some, List, [],
  ◌∷◌, arith, ltb, ◌==◌, if◌then◌else◌, if-cases, Elem, Gives, Gives-imp,
}
use fancon.Common.Words.{u32_mod, sub32, add32, sub32-le}
use fancon.Common.OrdMap.{last_entry, keys, nat_less, IsAscending, Above}
use fancon.Fan.{clamp_pwm, pwm_max}
use fancon.Fan.Percent.{min_running, percent_to_rpm, rpm_to_percent, scan, pwm_to_rpm}

Above-last_entry :
    (k : ℕ) (m : List (ℕ × ℕ)) (max : ℕ × ℕ)
    → Above k m
    → IsAscending m
    → last_entry m ≡ some max
    → k < max.0
unfolding last_entry
Above-last_entry k [] max a c e = absurd (ground (arith, e))
Above-last_entry k (x ∷ []) max a c e = ground arith
Above-last_entry k (x ∷ y ∷ m) max a c e =
    ground (arith, Above-last_entry x.0 (y ∷ m) max c.0 c.1 e)

running-le-max :
    (m : List (ℕ × ℕ)) (max running : ℕ × ℕ)
    → IsAscending m
    → last_entry m ≡ some max
    → min_running m ≡ some running
    → running.0 ≤ max.0
unfolding last_entry min_running
running-le-max [] max running c e f = absurd (ground (arith, e))
running-le-max (x ∷ []) max running c e f = ground arith
running-le-max (x ∷ y ∷ []) max running c e f = ground arith
running-le-max (x ∷ y ∷ z ∷ m) max running c e f = ground (
  arith,
  Above-last_entry x.0 (y ∷ z ∷ m) max c.0 c.1 e,
  Above-last_entry y.0 (z ∷ m) max c.1.0 c.1.1 e,
)

-- On an ascending map every percentage from 1 to 99 gives the lowest running RPM, and every one
-- from 100 on the highest RPM: the division of `percent` by 100 is one of integers.
pub percent_to_rpm_lem :
    (m : List (ℕ × ℕ)) (max running : ℕ × ℕ) (percent : ℕ)
    → IsAscending m
    → last_entry m ≡ some max
    → min_running m ≡ some running
    → max.0 < u32_mod
    → percent_to_rpm m percent
      ≡ some (if percent == 0 then 0 else if ltb percent 100 then running.0 else max.0)
unfolding percent_to_rpm add32
percent_to_rpm_lem m max running percent c e f h =
    let l = running-le-max m max running c e f in
    rw (e, f) (ground (arith, sub32-le max.0 running.0 l h, zero_percent percent))
  where
    zero_percent : (p : ℕ) → p < 100 → p / 100 ≡ 0
    zero_percent p k = omega arith

quotient-below : (a b : ℕ) → a < b → a / b ≡ 0
quotient-below a b h = grind arith

quotient_self : (a : ℕ) → 0 < a → a / a ≡ 1
quotient_self a h = grind arith

-- Of a running fan, at an RPM of the map's range, `rpm_to_percent` makes 1 at the two ends of the
-- range, and 0 at every RPM between them.
pub rpm_to_percent_lem :
    (m : List (ℕ × ℕ)) (max running : ℕ × ℕ) (rpm : ℕ)
    → IsAscending m
    → last_entry m ≡ some max
    → min_running m ≡ some running
    → max.0 < u32_mod
    → 0 < rpm
    → running.0 ≤ rpm
    → rpm ≤ max.0
    → rpm_to_percent m rpm ≡ some (if rpm == running.0 || rpm == max.0 then 1 else 0)
unfolding rpm_to_percent
rpm_to_percent_lem m max running rpm c e f h p l k =
    rw (e, f)
      (ground (
        arith,
        sub32-le max.0 running.0 (omega arith) h,
        sub32-le rpm running.0 l (omega arith),
        quotient-below (rpm - running.0) (max.0 - running.0),
        quotient_self (max.0 - running.0),
      ))

-- The PWM that `pwm_to_rpm` looks for.
abbrev pub looked_up : ℕ → ℕ
looked_up pwm = if ltb pwm_max pwm then pwm_max else pwm

scan-Elem :
    (pwm r p : ℕ) (first : Bool) (m : List (ℕ × ℕ))
    → Gives (λ x. (x ≡ r) ⊎ Elem x (keys m)) (scan pwm (some (r, p, first)) m)
unfolding scan
scan-Elem pwm r p first [] = inl refl
scan-Elem pwm r p first ((rpm, q) ∷ m) =
    if-cases (Gives (λ x. (x ≡ r) ⊎ ((x ≡ rpm) ⊎ Elem x (keys m)))) (q == pwm) (λ _. inr (inl refl))
      (λ _.
        if-cases (Gives (λ x. (x ≡ r) ⊎ ((x ≡ rpm) ⊎ Elem x (keys m)))) (ltb pwm q)
          (λ _.
            if-cases (λ x. (x ≡ r) ⊎ ((x ≡ rpm) ⊎ Elem x (keys m)))
              (first || ltb (sub32 q pwm) (sub32 pwm p)) (λ _. inr (inl refl)) (λ _. inl refl))
          (λ _.
            Gives-imp (λ x. (x ≡ rpm) ⊎ Elem x (keys m)) _ _ (λ x h. inr h)
              (scan-Elem pwm rpm q false m)))

looked_up-eq : (pwm : ℕ) → (if ltb pwm_max pwm then clamp_pwm pwm else pwm) ≡ looked_up pwm
unfolding clamp_pwm
looked_up-eq pwm = ground arith

scan_first :
    (x r p : ℕ) (m : List (ℕ × ℕ))
    → p ≤ x
    → Gives (λ y. Elem y (r ∷ keys m)) (scan x none ((r, p) ∷ m))
unfolding scan
scan_first x r p m h =
    if-cases (Gives (λ y. Elem y (r ∷ keys m))) (p == x) (λ _. inl refl)
      (λ _.
        if-cases (Gives (λ y. Elem y (r ∷ keys m))) (ltb x p) (λ e. absurd (ground arith))
          (λ _. scan-Elem x r p true m))

-- From the PWM of the first point on, `pwm_to_rpm` gives an RPM of the map; below it the loop steps
-- back before the first point, which is undefined.
pub pwm_to_rpm-Elem :
    (r p : ℕ) (m : List (ℕ × ℕ)) (pwm : ℕ)
    → (p ≤ looked_up pwm → Gives (λ x. Elem x (r ∷ keys m)) (pwm_to_rpm ((r, p) ∷ m) pwm))
      × (looked_up pwm < p → pwm_to_rpm ((r, p) ∷ m) pwm ≡ none)
unfolding pwm_to_rpm
pwm_to_rpm-Elem r p m pwm =
    (λ h. scan_first _ r p m (ground (arith, looked_up-eq pwm)), λ h. ground arith)
