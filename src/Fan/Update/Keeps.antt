-- ===== src/Fan/Update/Keeps.antt =====
-- The PWMs that an update writes.
use mathlib.Core.List.{nil≢cons}
use fancon.Common.{sym, arith, ◌≢◌, Gives, Gives-bind, List, [], ◌∷◌, ℕ, ◌≤◌, ◌≡◌, refl, some, All}
use fancon.Common.Int.{ℤ}
use fancon.Common.OrdMap.{nat_less, last_entry}
use fancon.Fan.{Fan, Settings, pwm_max}
use fancon.Fan.Driver.{Driver}
use fancon.Fan.Curve.{Doubles, target_rpm}
use fancon.Fan.Smooth.{smooth_rpm}
use fancon.Fan.Closest.{find_closest_pwm}
use fancon.Fan.Smooth.Step.{InRange, smooth_rpm-next_rpm}
use fancon.Fan.Closest.Safe.{closest-Safe}
use fancon.Fan.Update.{sleep, set_rpm, update}

last_entry-ne_nil : (m : List (ℕ × ℕ)) (max : ℕ × ℕ) → last_entry m ≡ some max → m ≢ []
unfolding last_entry
last_entry-ne_nil [] max e = absurd (ground (arith, e))
last_entry-ne_nil (x ∷ m) max e = λ n. nil≢cons (sym n)

module _ {W : Type 0} (driver : Driver W) (fc : Settings)
    -- A property of the world that a PWM from 0 to 255 keeps when it is written, and reading and
    -- sleeping do too.
    (Safe : W → Type 0) (reads : (w : W) → Safe w → Safe (driver.get_rpm w).1)
    (sleeps : (ms : ℕ) (w : W) → Safe w → Safe (driver.sleep_for ms w))
    (writes : (pwm : ℕ) (w : W) → pwm ≤ pwm_max → Safe w → Safe (driver.set_pwm pwm w).1) where
  -- Where the curve asks for an RPM, and smoothing is in range and the map not empty, as for
  -- `smooth_rpm-next_rpm`, an update is defined; if the map and the start PWM are at most 255 it
  -- writes no other PWM: what such writes keep of the world, it keeps, and the fan keeps its map.
  pub update-Safe :
      (fp : Doubles) (fan : Fan) (temp : ℤ) (w : W) (rpm : ℕ) (max : ℕ × ℕ)
      → target_rpm fp fc.dynamic fan.temp_to_rpm temp ≡ some rpm
      → last_entry fan.rpm_to_pwm ≡ some max
      → InRange fc fan.smoothing rpm
      → All (λ (point : ℕ × ℕ). point.1 ≤ pwm_max) fan.rpm_to_pwm
      → fan.start_pwm ≤ pwm_max
      → Safe w
      → Gives
          (λ (r : Fan × W). (r.0.rpm_to_pwm ≡ fan.rpm_to_pwm) × Safe r.1)
          (update driver fc fp fan temp w)
  unfolding update set_rpm sleep
  update-Safe fp fan temp w rpm max e l v a s h = rw e (
      Gives-bind _ _ (smooth_rpm fc fan.rpm_to_pwm fan.smoothing rpm) _
        (smooth_rpm-next_rpm fc fan.rpm_to_pwm max fan.smoothing rpm l v)
        (λ (smoothed, smoothing) _.
          Gives-bind _ _ (find_closest_pwm driver fan.rpm_to_pwm fan.start_pwm smoothed w) _
            (closest-Safe driver Safe reads fan.rpm_to_pwm fan.start_pwm smoothed w
              (last_entry-ne_nil fan.rpm_to_pwm max l) a s h)
            (λ (target, w') (b, k). (refl, sleeps _ _ (writes target w' b k)))))
