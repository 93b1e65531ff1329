-- ===== src/Fan/Testing/Total.antt =====
-- A test of a steady fan ends.
use fancon.Common.{
  ℕ, zero, suc, ◌+◌, ◌*◌, ◌≤◌, ◌<◌, ◌≡◌, ◌⊎◌, inl, inr, refl, Bool, true, false, not, ◌&&◌, Option,
  some, List, [], ◌∷◌, ◌++◌, ◌∙◌, arith, ltb, leb, ◌==◌, if◌then◌else◌, if-cases,
}
use fancon.Common.Int.{pos}
use fancon.Common.Words.{sub32, sub32-le}
use fancon.Common.OrdMap.{nat_less}
use fancon.Fan.{Fan, Settings, pwm_min, pwm_max}
use fancon.Fan.Driver.{Driver}
use fancon.Fan.World.{
  Outcome, ok, undefined, stuck, M, Returns, Succeeds, Succeeds-then_run, sleep_for_interval,
}
use fancon.Fan.Testing.{
  set_stabilised_pwm, poll, set_pwm_test, test_stopped, stands_still, seek_start, record_start,
  test_start, slow_down, test_running_min, test_mapping, measure, take_control, give_up, finish,
  test, assigned,
}
use fancon.Fan.Testing.Loops.{IsSteady}
use fancon.Fan.Testing.Steady.{settled, test_mapping-Recorded}
use fancon.Fan.Testing.Result.{Finished, finish-Finished}

Ends : {A : Type 0} → Outcome A → Type 0
Ends = Succeeds (λ a. Unit {0})

-- A result that there is satisfies what every result does.
both :
    {A : Type 0} (P : A → Type 0) (m : Outcome A)
    → Succeeds (λ a. Unit {0}) m
    → Returns P m
    → Succeeds P m
both P (ok a) h k = k
both P undefined h k = absurd h
both P stuck h k = absurd h

returned : {A : Type 0} (m : Outcome A) → Succeeds (λ a. Unit {0}) m → (a : A) × (m ≡ ok a)
returned (ok a) h = (a, refl)
returned undefined h = absurd h
returned stuck h = absurd h

module _ {W : Type 0} (driver : Driver W) (fc : Settings) (interval : ℕ) (At : ℕ → W → Type 0)
    (speed : ℕ → ℕ) (top : ℕ) (range : pwm_max ≤ top) (steady : IsSteady driver At speed top) where
  -- The fan holds an even PWM below 256.
  abbrev EvenAt : W → Type 0
  EvenAt w = (j : ℕ) × (j < 128) × At (2 * j) w

  seek_start-EvenAt :
      (fuel left k rpm : ℕ) (w : W)
      → 4 ≤ fuel
      → left + k ≡ 128
      → ((k ≡ 0) × (rpm ≡ 0)) ⊎ EvenAt w
      → Succeeds
          (λ r. ((v : ℕ) × (r.0 ≡ some v)) × EvenAt r.1)
          (seek_start driver fc interval fuel left (some rpm) (2 * k) w)
  unfolding seek_start
  seek_start-EvenAt fuel zero k rpm w h e (inl z) = absurd (omega (arith, e, z.0))
  seek_start-EvenAt fuel zero k rpm w h e (inr a) =
      if-cases
        (λ (x : M W (Option ℕ)). Succeeds (λ r. ((v : ℕ) × (r.0 ≡ some v)) × EvenAt r.1) (x w))
        (stands_still (some rpm) && leb (2 * k) pwm_max) (λ l. absurd (ground (arith, l, e)))
        (λ _. ((rpm, refl), a))
  seek_start-EvenAt fuel (suc left) k rpm w h e i =
      if-cases
        (λ (x : M W (Option ℕ)). Succeeds (λ r. ((v : ℕ) × (r.0 ≡ some v)) × EvenAt r.1) (x w))
        (stands_still (some rpm) && leb (2 * k) pwm_max)
        (λ l.
          Succeeds-then_run _ _ (set_stabilised_pwm driver fc interval fuel (2 * k) w) _
            (settled driver fc interval At speed top range steady fuel (2 * k) w h
              (ground (arith, l, range)))
            λ cur w' s.
              let next : 2 * k + 2 ≡ 2 * (k + 1) = omega arith in
              rw (s.0, next)
                (seek_start-EvenAt fuel left (k + 1) (speed (2 * k)) w' h (omega (arith, e))
                  (inr (k, omega (arith, e), s.1))))
        (λ l. stops i l)
    where
      stops :
          ((k ≡ 0) × (rpm ≡ 0)) ⊎ EvenAt w
          → stands_still (some rpm) && leb (2 * k) pwm_max ≡ false
          → ((v : ℕ) × (some rpm ≡ some v)) × EvenAt w
      stops (inl z) l = absurd (ground (arith, z, l))
      stops (inr a) l = ((rpm, refl), a)

  slow_down-Ends :
      (fuel left j : ℕ) (results : List (ℕ × ℕ)) (w : W)
      → 4 ≤ fuel
      → speed 0 ≡ 0
      → j < left
      → j < 128
      → Succeeds (λ r. Unit {0}) (slow_down driver fc interval fuel left (2 * j) results w)
  unfolding slow_down
  slow_down-Ends fuel zero j results w h z l b = absurd (omega (arith, l))
  slow_down-Ends fuel (suc left) zero results w h z l b =
      Succeeds-then_run _ _ (set_stabilised_pwm driver fc interval fuel (2 * 0) w) _
        (settled driver fc interval At speed top range steady fuel (2 * 0) w h
          (omega (arith, range)))
        λ cur w' s. rw s.0 (
          if-cases (λ (x : M W (List (ℕ × ℕ))). Succeeds (λ r. Unit {0}) (x w'))
            (speed (2 * 0) == 0) (λ _. tt) (λ n. absurd (ground (arith, n, z))))
  slow_down-Ends fuel (suc left) (suc i) results w h z l b =
      let target : ℕ = 2 * suc i in
      let e : sub32 target 2 ≡ 2 * i =
        sub32-le target 2 (omega arith) (omega (arith, b)) ∙ omega arith in
      Succeeds-then_run _ _ (set_stabilised_pwm driver fc interval fuel target w) _
        (settled driver fc interval At speed top range steady fuel target w h
          (omega (arith, b, range)))
        λ cur w' s. rw s.0 (
          if-cases (λ (x : M W (List (ℕ × ℕ))). Succeeds (λ r. Unit {0}) (x w')) (speed target == 0)
            (λ _. tt)
            (λ n. rw e (
              slow_down-Ends fuel left i (results ++ (target, speed target) ∷ []) w' h z
                (omega (arith, l)) (omega (arith, b)))))

  test_start-Even :
      (fuel : ℕ) (m : List (ℕ × ℕ)) (w : W)
      → 4 ≤ fuel
      → Succeeds
          (λ r. (j : ℕ) × (j < 128) × (r.0.0 ≡ 2 * j))
          (test_start driver fc interval fuel m w)
  unfolding test_start sleep_for_interval record_start
  test_start-Even fuel m w h =
      Succeeds-then_run _ _ (seek_start driver fc interval fuel 128 (some 0) pwm_min w) _
        (seek_start-EvenAt fuel 128 0 0 w h refl (inl (refl, refl)))
        λ cur w' (v, a).
          let ms : ℕ = if ltb 0 interval then interval else fc.update_interval in
          let b : At (2 * a.0) (driver.sleep_for ms w') = steady.sleeps (2 * a.0) ms w' a.2 in
          rw v.1 (a.0, a.1, (steady.holds (2 * a.0) (driver.sleep_for ms w') b).0)

  test_stopped-Ends :
      (fuel : ℕ) (w : W)
      → 4 ≤ fuel
      → Succeeds (λ r. Unit {0}) (test_stopped driver fc interval fuel [] w)
  unfolding test_stopped
  test_stopped-Ends fuel w h =
      Succeeds-then_run _ _ (set_stabilised_pwm driver fc interval fuel pwm_min w) _
        (settled driver fc interval At speed top range steady fuel pwm_min w h (omega arith))
        λ cur w' s. tt

  running_min-Ends :
      (fuel start_pwm : ℕ) (m : List (ℕ × ℕ)) (w : W)
      → 129 ≤ fuel
      → speed 0 ≡ 0
      → (j : ℕ) × (j < 128) × (start_pwm ≡ 2 * j)
      → Succeeds (λ r. Unit {0}) (test_running_min driver fc interval fuel start_pwm m w)
  unfolding test_running_min
  running_min-Ends fuel start_pwm m w h z (j, b, e) = rw e (
      Succeeds-then_run _ _ (slow_down driver fc interval fuel fuel (2 * j) [] w) _
        (slow_down-Ends fuel fuel j [] w (omega (arith, h)) z (omega (arith, h, b)) b)
        λ results w' s. tt)

  measure-Ends :
      (fuel : ℕ) (w : W)
      → 129 ≤ fuel
      → speed 0 ≡ 0
      → Succeeds (λ r. Unit {0}) (measure driver fc fuel interval (pos 0, []) w)
  unfolding measure
  measure-Ends fuel w h z =
      let few : 4 ≤ fuel = omega (arith, h) in
      Succeeds-then_run _ _ (test_stopped driver fc interval fuel [] w) _
        (test_stopped-Ends fuel w few)
        λ stopped w₁ _.
          Succeeds-then_run _ _ (test_start driver fc interval fuel stopped w₁) _
            (test_start-Even fuel stopped w₁ few)
            λ (start_pwm, started) w₂ even.
              Succeeds-then_run _ _ (test_running_min driver fc interval fuel start_pwm started w₂)
                _ (running_min-Ends fuel start_pwm started w₂ h z even)
                λ running w₃ _.
                  Succeeds-then_run _ _ (test_mapping driver fc interval fuel start_pwm running w₃)
                    _
                    (test_mapping-Recorded driver fc interval At speed top range steady fuel
                      start_pwm running w₃ few)
                    λ mapped w₄ _. tt

poll-Ends :
    {W : Type 0} (driver : Driver W) (fc : Settings) (interval left target : ℕ) (w : W)
    → Succeeds (λ r. Unit {0}) (poll driver fc interval left target w)
unfolding poll sleep_for_interval
poll-Ends driver fc interval zero target w = tt
poll-Ends driver fc interval (suc left) target w =
    if-cases (λ (x : M _ Bool). Succeeds (λ r. Unit {0}) (x (driver.get_pwm w).1))
      ((driver.get_pwm w).0 == target) (λ _. tt) (λ _. poll-Ends driver fc interval left target _)

module _ {W : Type 0} (driver : Driver W) (fc : Settings) where
  set_pwm_test-Ends :
      (interval : ℕ) (w : W) → Succeeds (λ r. Unit {0}) (set_pwm_test driver fc interval w)
  unfolding set_pwm_test
  set_pwm_test-Ends interval w =
      let (cur, w₁) = driver.get_pwm w in
      let target : ℕ = if not (cur == pwm_min) then pwm_min else pwm_max in
      let (done, w₂) = driver.set_pwm target w₁ in
      if-cases (λ (x : M W Bool). Succeeds (λ r. Unit {0}) (x w₂)) (not done) (λ _. tt)
        (λ _. poll-Ends driver fc interval 10 target w₂)

  take_control-Ends :
      (interval : ℕ) (w : W) → Succeeds (λ r. Unit {0}) (take_control driver fc interval w)
  unfolding take_control
  take_control-Ends interval w =
      let (enabled, w') = driver.enable_control w in
      if-cases (λ (x : M W Bool). Succeeds (λ r. Unit {0}) (x w')) enabled
        (λ _. set_pwm_test-Ends interval w') (λ _. tt)

  -- With 129 rounds of fuel a test returns, if the fan is steady up to the PWM 255, stands still at
  -- 0 and reports no PWM above 255. Whether control is taken decides how: where it is not, nothing
  -- is changed and -1 is reported; where it is, progress is reported up to 100, and the fan is a
  -- tested one whose map is monotone.
  pub test-Returns :
      (At : ℕ → W → Type 0) (speed : ℕ → ℕ)
      → IsSteady driver At speed pwm_max
      → speed 0 ≡ 0
      → ((w' : W) → (driver.get_pwm w').0 ≤ pwm_max)
      → (fuel : ℕ) (fan : Fan) (w : W) → 129 ≤ fuel
      → (taken : Bool) × (w₁ : W) × (take_control driver fc fan.interval (driver.get_pwm w).1
          ≡ ok (taken, w₁))
        × Succeeds (λ r. Finished driver fc fan taken r.0) (test driver fc fuel fan w)
  unfolding test give_up assigned finish
  test-Returns At speed steady z b fuel fan w h =
      let pre_pwm = (driver.get_pwm w).0 in
      let ((taken, w₁), e) =
        returned (take_control driver fc fan.interval (driver.get_pwm w).1)
          (take_control-Ends fan.interval (driver.get_pwm w).1) in
      (taken, w₁, e, rw e (by_control taken w₁ pre_pwm))
    where
      by_control :
          (taken : Bool) (w' : W) (pre_pwm : ℕ)
          → Succeeds
              (λ r. Finished driver fc fan taken r.0)
              ((if taken then finish driver fc fuel fan pre_pwm else give_up driver fc fan) w')
      by_control false w' pre_pwm = (refl, refl, refl)
      by_control true w' pre_pwm =
          both _ (finish driver fc fuel fan pre_pwm w')
            (Succeeds-then_run _ _ (measure driver fc fuel fan.interval (pos 0, []) w') _
              (measure-Ends driver fc fan.interval At speed pwm_max (omega arith) steady fuel w' h
                z)
              λ m w'' _. tt)
            (finish-Finished driver fc fuel fan pre_pwm w' b)
