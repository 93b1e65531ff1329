-- ===== src/Fan/Testing/Steady.antt =====
-- The loops of a test over PWMs, on a steady fan.
use native.Mathlib.Decide.{dec_lt}
use fancon.Common.{
  ℕ, zero, suc, ◌+◌, ◌-◌, ◌*◌, ◌≤◌, ◌<◌, ◌≡◌, ◌⊎◌, inl, inr, refl, ◌&&◌, Option, some, List, [],
  ◌∷◌, ◌++◌, arith, none, false, ltb, leb, ◌==◌, if◌then◌else◌, if-cases, Elem,
}
use fancon.Common.Words.{sub32}
use fancon.Common.OrdMap.{insert, nat_less}
use fancon.Fan.{Settings, pwm_min, pwm_max}
use fancon.Fan.Driver.{Driver}
use fancon.Fan.World.{ok, stuck, M, then_run-stuck, Succeeds, Succeeds-then_run}
use fancon.Fan.Testing.{
  set_stabilised_pwm, stands_still, seek_start, slow_down, test_running_min, speed_up, test_mapping,
  record_point,
}
use fancon.Fan.Testing.Loops.{IsSteady, set_stabilised_pwm-Settled}

Elem-insert : (k v : ℕ) (m : List (ℕ × ℕ)) → Elem (k, v) (insert k v m)
unfolding insert
Elem-insert k v [] = inl refl
Elem-insert k v ((j, w) ∷ m) =
    if-cases (λ (l : List (ℕ × ℕ)). Elem (k, v) l) (ltb k j) (λ _. inl refl)
      (λ _.
        if-cases (λ (l : List (ℕ × ℕ)). Elem (k, v) l) (ltb j k) (λ _. inr (Elem-insert k v m))
          (λ _. inl refl))

module _ {W : Type 0} (driver : Driver W) (fc : Settings) (interval : ℕ) (At : ℕ → W → Type 0)
    (speed : ℕ → ℕ) (top : ℕ) (range : pwm_max ≤ top) (steady : IsSteady driver At speed top) where
  pub settled :
      (fuel pwm : ℕ) (w : W)
      → 4 ≤ fuel
      → pwm ≤ top
      → Succeeds
          (λ r. (r.0 ≡ some (speed pwm)) × At pwm r.1)
          (set_stabilised_pwm driver fc interval fuel pwm w)
  settled fuel pwm w h t =
      set_stabilised_pwm-Settled driver fc interval At speed top steady pwm fuel w h t

  -- A fan that refuses what is above `top`.
  abbrev pub Refuses : Type 0
  Refuses = (pwm : ℕ) (w : W) → top < pwm → (driver.set_pwm pwm w).0 ≡ false

  refused :
      (fuel pwm : ℕ) (w : W)
      → Refuses
      → top < pwm
      → set_stabilised_pwm driver fc interval fuel pwm w ≡ ok (none, (driver.set_pwm pwm w).1)
  unfolding set_stabilised_pwm
  refused fuel pwm w r t = rw (r pwm w t) refl

  -- A fan that turns at every PWM, as one that cannot stop, is never done with `test_running_min`: the
  -- PWM goes round below 0, to values that the fan refuses, and another round is always to come.
  slow_down-stuck :
      (fuel left target : ℕ) (results : List (ℕ × ℕ)) (w : W)
      → 4 ≤ fuel
      → Refuses
      → ((pwm : ℕ) → 0 < speed pwm)
      → slow_down driver fc interval fuel left target results w ≡ stuck
  unfolding slow_down
  slow_down-stuck fuel zero target results w h r p = refl
  slow_down-stuck fuel (suc left) target results w h r p = elim (dec_lt top target) [
    | yes t ↦
        rw (refused fuel target w r t) (slow_down-stuck fuel left (sub32 target 2) results _ h r p)
    | no t ↦
        then_run-stuck _ (set_stabilised_pwm driver fc interval fuel target w) _
          (settled fuel target w h (omega (arith, t)))
          λ cur w' s. rw s.0 (
            if-cases (λ (x : M W (List (ℕ × ℕ))). x w' ≡ stuck) (speed target == 0)
              (λ e. absurd (ground (arith, p target)))
              (λ e.
                slow_down-stuck fuel left (sub32 target 2) (results ++ (target, speed target) ∷ [])
                  w' h r p))
  ]

  abbrev Recorded : List (ℕ × ℕ) → Type 0
  Recorded m = Elem (pwm_max, speed pwm_max) m

  recorded :
      (target : ℕ) (m : List (ℕ × ℕ))
      → target ≤ pwm_max
      → (target + (if ltb target (pwm_max - 1) then 2 else 1) ≤ pwm_max)
        ⊎ Recorded (insert target (speed target) m)
  recorded target m h = elim (dec_lt target pwm_max) [
    | yes l ↦ inl (ground arith)
    | no g ↦
        let e : target ≡ pwm_max = omega arith in rw e (inr (Elem-insert pwm_max (speed pwm_max) m))
  ]

  speed_up-Recorded :
      (fuel left target : ℕ) (m : List (ℕ × ℕ)) (w : W)
      → 4 ≤ fuel
      → pwm_max + 1 - target ≤ left
      → (target ≤ pwm_max) ⊎ Recorded m
      → Succeeds (λ r. Recorded r.0) (speed_up driver fc interval fuel left target m w)
  unfolding speed_up
  speed_up-Recorded fuel zero target m w h l (inl k) = absurd (omega arith)
  speed_up-Recorded fuel zero target m w h l (inr k) =
      if-cases (λ (x : M W (List (ℕ × ℕ))). Succeeds (λ r. Recorded r.0) (x w)) (leb target pwm_max)
        (λ e. absurd (ground arith)) (λ _. k)
  speed_up-Recorded fuel (suc left) target m w h l k =
      if-cases (λ (x : M W (List (ℕ × ℕ))). Succeeds (λ r. Recorded r.0) (x w)) (leb target pwm_max)
        (λ e.
          Succeeds-then_run _ _ (set_stabilised_pwm driver fc interval fuel target w) _
            (settled fuel target w h (ground (arith, e, range)))
            λ cur w' s. rw s.0 (
              speed_up-Recorded fuel left _ _ w' h (ground arith)
                (unfold record_point in recorded target m (ground arith))))
        (λ e. elim k [ inl j ↦ absurd (ground arith) | inr j ↦ j ])

  -- On a steady fan `test_mapping` ends, from every start PWM, and has recorded the speed at the
  -- highest PWM.
  pub test_mapping-Recorded :
      (fuel start_pwm : ℕ) (m : List (ℕ × ℕ)) (w : W)
      → 4 ≤ fuel
      → Succeeds
          (λ r. Elem (pwm_max, speed pwm_max) r.0)
          (test_mapping driver fc interval fuel start_pwm m w)
  unfolding test_mapping
  test_mapping-Recorded fuel start_pwm m w h =
      speed_up-Recorded fuel 256 _ m w h (omega arith) (inl (omega arith))

  -- On a fan that is steady at the PWMs up to `top`, which is 255 or more, that refuses all above, and
  -- that turns at each, as one that cannot stop, `test_running_min` does not end: no number of rounds
  -- is enough, from whatever start PWM.
  pub test_running_min-stuck :
      (fuel start_pwm : ℕ) (m : List (ℕ × ℕ)) (w : W)
      → 4 ≤ fuel
      → Refuses
      → ((pwm : ℕ) → 0 < speed pwm)
      → test_running_min driver fc interval fuel start_pwm m w ≡ stuck
  unfolding test_running_min
  test_running_min-stuck fuel start_pwm m w h r p =
      rw (slow_down-stuck fuel fuel start_pwm [] w h r p)

  -- What `seek_start` finds: nothing, as the fan turns at no even PWM, or the speed at the first
  -- even PWM at which it turns.
  abbrev pub Starts : Option ℕ → Type 0
  Starts r =
      ((r ≡ some 0) × ((j : ℕ) → j < 128 → speed (2 * j) ≡ 0))
      ⊎ ((k : ℕ) × (k < 128)
          × (r ≡ some (speed (2 * k)))
          × (0 < speed (2 * k))
          × ((j : ℕ) → j < k → speed (2 * j) ≡ 0))

  seek_start_done :
      (fuel left rpm target : ℕ) (w : W)
      → 0 < rpm
      → seek_start driver fc interval fuel left (some rpm) target w ≡ ok (some rpm, w)
  unfolding seek_start
  seek_start_done fuel zero rpm target w h =
      if-cases (λ (x : M W (Option ℕ)). x w ≡ ok (some rpm, w))
        (stands_still (some rpm) && leb target pwm_max) (λ e. absurd (ground arith)) (λ _. refl)
  seek_start_done fuel (suc left) rpm target w h =
      if-cases (λ (x : M W (Option ℕ)). x w ≡ ok (some rpm, w))
        (stands_still (some rpm) && leb target pwm_max) (λ e. absurd (ground arith)) (λ _. refl)

  seek_start-Starts :
      (fuel left k : ℕ) (w : W)
      → 4 ≤ fuel
      → left + k ≡ 128
      → ((j : ℕ) → j < k → speed (2 * j) ≡ 0)
      → Succeeds (λ r. Starts r.0) (seek_start driver fc interval fuel left (some 0) (2 * k) w)
  unfolding seek_start
  seek_start-Starts fuel zero k w h e q =
      if-cases (λ (x : M W (Option ℕ)). Succeeds (λ r. Starts r.0) (x w)) (leb (2 * k) pwm_max)
        (λ l. absurd (ground arith)) (λ _. inl (refl, λ j l. q j (omega arith)))
  seek_start-Starts fuel (suc left) k w h e q =
      if-cases (λ (x : M W (Option ℕ)). Succeeds (λ r. Starts r.0) (x w)) (leb (2 * k) pwm_max)
        (λ l.
          Succeeds-then_run _ _ (set_stabilised_pwm driver fc interval fuel (2 * k) w) _
            (settled fuel (2 * k) w h (ground (arith, l, range)))
            λ cur w' s. rw s.0 (elim (dec_lt 0 (speed (2 * k))) [
              | yes p ↦
                  rw (seek_start_done fuel left (speed (2 * k)) (2 * k + 2) w' p)
                    (inr (k, omega arith, refl, p, q))
              | no z ↦
                  let still : speed (2 * k) ≡ 0 = omega arith in
                  let next : 2 * k + 2 ≡ 2 * (k + 1) = omega arith in
                  rw (still, next)
                    (seek_start-Starts fuel left (k + 1) w' h (omega arith) (upto k still q))
            ]))
        (λ l. absurd (ground arith))
    where
      upto :
          (k : ℕ)
          → speed (2 * k) ≡ 0
          → ((j : ℕ) → j < k → speed (2 * j) ≡ 0)
          → (j : ℕ) → j < k + 1
          → speed (2 * j) ≡ 0
      upto k s q j l = elim (dec_lt j k) [
        | yes p ↦ q j p
        | no g ↦ let e : j ≡ k = omega arith in rw e s
      ]

  -- On a steady fan the loop of `test_start` ends within its 128 rounds, and finds the first even
  -- PWM at which the fan turns, if there is one.
  pub seek_start-first :
      (fuel : ℕ) (w : W)
      → 4 ≤ fuel
      → Succeeds (λ r. Starts r.0) (seek_start driver fc interval fuel 128 (some 0) pwm_min w)
  seek_start-first fuel w h = seek_start-Starts fuel 128 0 w h refl (λ j l. absurd (omega arith))
