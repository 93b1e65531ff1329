-- ===== src/Fan/Closest/Safe.antt =====
-- The PWM that is chosen stands in the map or is the start PWM, if the map has points.
use fancon.Common.{
  refl, ◌≢◌, Gives, ℕ, ◌≤◌, ◌&&◌, Option, none, some, List, [], ◌∷◌, if◌then◌else◌, if-cases, ltb,
  leb, ◌==◌, All,
}
use fancon.Common.Words.{sub32}
use fancon.Common.OrdMap.{lower_bound, nat_less}
use fancon.Fan.{pwm_max}
use fancon.Fan.Driver.{Driver}
use fancon.Fan.Closest.{nearest_point, start_if_stopped, settle, find_closest_pwm}

-- What a value, if there is one, satisfies.
abbrev IfSome : {A : Type 0} → (A → Type 0) → Option A → Type 0
IfSome P none = Unit
IfSome P (some a) = P a

abbrev InRange : ℕ × ℕ → Type 0
InRange point = point.1 ≤ pwm_max

-- One of the two iterators stands at a point.
abbrev Present : Option (ℕ × ℕ) × List (ℕ × ℕ) → Type 0
Present (none, []) = ⊥
Present (none, ge ∷ m) = Unit
Present (some le, m) = Unit

abbrev Bounds : Option (ℕ × ℕ) × List (ℕ × ℕ) → Type 0
Bounds its = IfSome InRange its.0 × All InRange its.1 × Present its

lower_bound-Bounds :
    (rpm : ℕ) (before : Option (ℕ × ℕ)) (m : List (ℕ × ℕ))
    → IfSome InRange before
    → All InRange m
    → Present (before, m)
    → Bounds (lower_bound rpm before m)
unfolding lower_bound
lower_bound-Bounds rpm before [] b a q = (b, a, q)
lower_bound-Bounds rpm before ((r, p) ∷ m) b (h, a) q =
    if-cases Bounds (ltb r rpm) {x = lower_bound rpm (some (r, p)) m} {y = (before, (r, p) ∷ m)}
      (λ _. lower_bound-Bounds rpm (some (r, p)) m h a tt) (λ _. (b, (h, a), q))

nearest_point-InRange :
    (rpm : ℕ) (before : Option (ℕ × ℕ)) (m : List (ℕ × ℕ))
    → Bounds (before, m)
    → Gives InRange (nearest_point rpm (before, m))
unfolding nearest_point
nearest_point-InRange rpm none [] (b, a, q) = absurd q
nearest_point-InRange rpm none (ge ∷ m) (b, a, q) = a.0
nearest_point-InRange rpm (some le) [] (b, a, q) = b
nearest_point-InRange rpm (some le) (ge ∷ m) (b, a, q) =
    if-cases InRange (leb (sub32 rpm le.0) (sub32 ge.0 rpm)) (λ _. b) (λ _. a.0)

present : (m : List (ℕ × ℕ)) → m ≢ [] → Present (none, m)
present [] n = n refl
present (e ∷ m) n = tt

module _ {W : Type 0} (driver : Driver W) (Safe : W → Type 0)
    (reads : (w : W) → Safe w → Safe (driver.get_rpm w).1) where
  abbrev Good : ℕ × W → Type 0
  Good r = (r.0 ≤ pwm_max) × Safe r.1

  settle-Good :
      (start_pwm : ℕ) (le : Option (ℕ × ℕ)) (pwm : ℕ) (w : W)
      → start_pwm ≤ pwm_max
      → pwm ≤ pwm_max
      → Safe w
      → Good (settle driver start_pwm le pwm w)
  unfolding settle start_if_stopped
  settle-Good start_pwm none pwm w s p h = (p, h)
  settle-Good start_pwm (some le) pwm w s p h =
      if-cases Good (ltb 0 pwm && ltb pwm start_pwm)
        {x = (if (driver.get_rpm w).0 == 0 then start_pwm else pwm, (driver.get_rpm w).1)}
        {y = (pwm, w)}
        (λ _.
          (if-cases (λ n. n ≤ pwm_max) ((driver.get_rpm w).0 == 0) (λ _. s) (λ _. p), reads w h))
        (λ _. (p, h))

  pub closest-Safe :
      (m : List (ℕ × ℕ)) (start_pwm rpm : ℕ) (w : W)
      → m ≢ []
      → All InRange m
      → start_pwm ≤ pwm_max
      → Safe w
      → Gives Good (find_closest_pwm driver m start_pwm rpm w)
  unfolding find_closest_pwm
  closest-Safe m start_pwm rpm w n a s h =
      let its : Option (ℕ × ℕ) × List (ℕ × ℕ) = lower_bound rpm none m in
      settled its.0 (nearest_point rpm its)
        (nearest_point-InRange rpm its.0 its.1 (lower_bound-Bounds rpm none m tt a (present m n)))
    where
      settled :
          (le o : Option (ℕ × ℕ))
          → Gives InRange o
          → Gives Good
              (elim o [ none ↦ none | some point ↦ some (settle driver start_pwm le point.1 w) ])
      settled le none k = absurd k
      settled le (some point) k = settle-Good start_pwm le point.1 w s k h
