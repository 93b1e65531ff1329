-- ===== src/Fan/Testing/Loops.antt =====
-- The loops of a test: which of them end, and when.
use fancon.Common.{
  ℕ, zero, suc, ◌+◌, ◌-◌, ◌%◌, ◌≤◌, ◌<◌, ◌≡◌, true, not, Option, some, arith, ltb, leb, ◌==◌,
  if◌then◌else◌, if-cases,
}
use fancon.Common.Words.{u32_mod, sub32, to_int32}
use fancon.Fan.{Settings}
use fancon.Fan.Driver.{Driver}
use fancon.Fan.World.{M, Succeeds, sleep_for_interval}
use fancon.Fan.Testing.{is_stable, stabilise, set_stabilised_pwm}

-- A driver whose fan holds each PWM up to `top` that is written, `At` it, and turns at a speed for
-- each.
pub record IsSteady {W : Type 0} (driver : Driver W) (At : ℕ → W → Type 0) (speed : ℕ → ℕ) (top : ℕ)
    : Type 0 where
  pub fits : (pwm : ℕ) → speed pwm < u32_mod
  pub accepts :
      (pwm : ℕ) (w : W)
      → pwm ≤ top
      → ((driver.set_pwm pwm w).0 ≡ true) × At pwm (driver.set_pwm pwm w).1
  pub holds :
      (pwm : ℕ) (w : W) → At pwm w → ((driver.get_pwm w).0 ≡ pwm) × At pwm (driver.get_pwm w).1
  pub turns :
      (pwm : ℕ) (w : W)
      → At pwm w
      → ((driver.get_rpm w).0 ≡ speed pwm) × At pwm (driver.get_rpm w).1
  pub sleeps : (pwm ms : ℕ) (w : W) → At pwm w → At pwm (driver.sleep_for ms w)

is_stable_self : (x : ℕ) → x < u32_mod → is_stable x x ≡ true
unfolding is_stable sub32 to_int32
is_stable_self x h =
    let zero_delta : (x + u32_mod - x) % u32_mod ≡ 0 = omega arith in rw zero_delta (ground arith)

module _ {W : Type 0} (driver : Driver W) (fc : Settings) (interval : ℕ) where
  module _ (At : ℕ → W → Type 0) (speed : ℕ → ℕ) (top : ℕ) (steady : IsSteady driver At speed top)
      (pwm : ℕ) where
    -- The fan holds the PWM, and its speed was read.
    abbrev pub Settled : Option ℕ × W → Type 0
    Settled r = (r.0 ≡ some (speed pwm)) × At pwm r.1

    stable : (cur next : ℕ) → cur ≡ speed pwm → next ≡ speed pwm → is_stable cur next ≡ true
    stable cur next e f = rw (e, f) (is_stable_self (speed pwm) (steady.fits pwm))

    stabilise-Settled :
        (fuel cur reached : ℕ) (w : W)
        → cur ≡ speed pwm
        → 4 ≤ fuel + reached
        → At pwm w
        → Succeeds Settled (stabilise driver fc interval fuel pwm cur reached w)
    unfolding stabilise sleep_for_interval
    stabilise-Settled zero cur reached w e h a =
        if-cases (Succeeds Settled) (leb reached 3) (λ l. absurd (ground arith)) (λ l. (rw e, a))
    stabilise-Settled (suc fuel) cur reached w e h a =
        if-cases (Succeeds Settled) (leb reached 3)
          (λ l.
            let slept =
              driver.sleep_for (if ltb 0 interval then interval else fc.update_interval) w in
            let b : At pwm slept =
              steady.sleeps pwm (if ltb 0 interval then interval else fc.update_interval) w a in
            let c = steady.holds pwm slept b in
            let d = steady.turns pwm _ c.1 in
            if-cases (λ (x : M W (Option ℕ)). Succeeds Settled (x (driver.get_pwm slept).1))
              (not ((driver.get_pwm slept).0 == pwm)) (λ n. absurd (ground (arith, c.0)))
              (λ n. stabilise-Settled fuel _ _ _ d.0 (rw (stable cur _ e d.0) (omega arith)) d.1))
          (λ l. (rw e, a))

    -- With fuel for four rounds `set_stabilised_pwm` ends on a steady fan, and returns its speed.
    pub set_stabilised_pwm-Settled :
        (fuel : ℕ) (w : W)
        → 4 ≤ fuel
        → pwm ≤ top
        → Succeeds Settled (set_stabilised_pwm driver fc interval fuel pwm w)
    unfolding set_stabilised_pwm
    set_stabilised_pwm-Settled fuel w h t =
        let a = steady.accepts pwm w t in
        let d = steady.turns pwm _ a.1 in
        if-cases (λ (x : M W (Option ℕ)). Succeeds Settled (x (driver.set_pwm pwm w).1))
          (not (driver.set_pwm pwm w).0) (λ n. absurd (ground (arith, a.0)))
          (λ n. stabilise-Settled fuel _ 0 _ d.0 (omega arith) d.1)
