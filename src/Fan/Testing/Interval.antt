-- ===== src/Fan/Testing/Interval.antt =====
-- src/fan/Fan.cpp: `test_interval`, which nothing calls. `now` is the clock, in milliseconds.
use fancon.Common.{
  ℕ, ◌-◌, ◌≤◌, not, none, some, List, [], ◌∷◌, ◌==◌, ltb, arith, if◌then◌else◌, All,
}
use fancon.Fan.{Settings, pwm_min, pwm_max}
use fancon.Fan.Driver.{Driver}
use fancon.Fan.World.{M, ◌>>=◌, return, call, Succeeds, Succeeds-then_run}
use fancon.Fan.Testing.{set_stabilised_pwm}
use fancon.Fan.Testing.Loops.{IsSteady}
use fancon.Fan.Testing.Steady.{settled}

-- The first PWM behind the lowest of the map, if the fan can stop and there is one.
unfoldable pub interval_target : ℕ → List (ℕ × ℕ) → ℕ
interval_target start_pwm [] = pwm_max
interval_target start_pwm (e ∷ []) = pwm_max
interval_target start_pwm (e ∷ (pwm, rpm) ∷ m) = if not (start_pwm == pwm_min) then pwm else pwm_max

module _ {W : Type 0} (driver : Driver W) (fc : Settings) (now : W → ℕ) where
  -- The new interval: a time that was set is kept, as where the PWM is refused.
  unfoldable pub test_interval : ℕ → ℕ → ℕ → List (ℕ × ℕ) → M W ℕ
  unfolding interval_target
  test_interval fuel interval start_pwm pwm_to_rpm = if ltb 0 interval then return interval else do
    stopped ← set_stabilised_pwm driver fc interval fuel pwm_min
    pre ← call (λ w. (now w, w))
    reached ← set_stabilised_pwm driver fc interval fuel (interval_target start_pwm pwm_to_rpm)
    post ← call (λ w. (now w, w))
    return (elim reached [ none ↦ interval | some rpm ↦ post - pre ])

  interval_target-le :
      (top start_pwm : ℕ) (m : List (ℕ × ℕ))
      → pwm_max ≤ top
      → All (λ e. e.0 ≤ top) m
      → interval_target start_pwm m ≤ top
  unfolding interval_target
  interval_target-le top start_pwm [] h a = h
  interval_target-le top start_pwm (e ∷ []) h a = h
  interval_target-le top start_pwm (e ∷ (pwm, rpm) ∷ m) h (a, (b, c)) = ground arith

  -- Without an interval the test of a steady fan ends, at the PWM that it was to reach.
  pub test_interval-Succeeds :
      (At : ℕ → W → Type 0) (speed : ℕ → ℕ) (top fuel start_pwm : ℕ) (m : List (ℕ × ℕ)) (w : W)
      → pwm_max ≤ top
      → IsSteady driver At speed top
      → All (λ e. e.0 ≤ top) m
      → 4 ≤ fuel
      → Succeeds (λ r. At (interval_target start_pwm m) r.1) (test_interval fuel 0 start_pwm m w)
  unfolding test_interval
  test_interval-Succeeds At speed top fuel start_pwm m w range steady a h =
      Succeeds-then_run _ _ (set_stabilised_pwm driver fc 0 fuel pwm_min w) _
        (settled driver fc 0 At speed top range steady fuel pwm_min w h (omega arith))
        (λ stopped w' s.
          Succeeds-then_run _ _
            (set_stabilised_pwm driver fc 0 fuel (interval_target start_pwm m) w') _
            (settled driver fc 0 At speed top range steady fuel (interval_target start_pwm m) w' h
              (interval_target-le top start_pwm m range a))
            λ reached w'' t. t.1)
