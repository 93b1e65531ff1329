-- ===== src/Fan/Examples/Tests.antt =====
-- Tests of fans whose world is the PWM last written.
use fancon.Common.{
  Bool, ℕ, ◌≤◌, ◌<◌, ◌≡◌, refl, true, false, [], ◌∷◌, arith, ltb, leb, if◌then◌else◌,
}
use fancon.Common.Int.{pos, negsuc}
use fancon.Common.Words.{u32_mod, sub32, add32, to_int32}
use fancon.Common.OrdMap.{insert}
use fancon.Fan.{Fan, Settings, pwm_max}
use fancon.Fan.Driver.{Driver}
use fancon.Fan.Mapping.{rpm_to_pwm_from}
use fancon.Fan.World.{ok, stuck, Succeeds, sleep_for_interval}
use fancon.Fan.Testing.{
  is_stable, stabilise, set_stabilised_pwm, poll, set_pwm_test, test_stopped, seek_start,
  test_start, slow_down, test_running_min, speed_up, test_mapping, record_start, record_point,
  measure, test, tested, take_control, give_up, finish, assigned, added,
}
use fancon.Fan.Testing.Result.{Finished}
use fancon.Fan.Testing.Loops.{IsSteady}
use fancon.Fan.Testing.Total.{test-Returns}
use fancon.Fan.Testing.Steady.{Refuses, test_running_min-stuck}

abbrev settings : Settings
settings = record {
  update_interval = 500;
  dynamic = true;
  smoothing_intervals = 4;
  top_stickiness_intervals = 2;
  temp_averaging_intervals = 8;
}

abbrev turning : (ℕ → ℕ) → Driver ℕ
turning speed = record {
  get_pwm = λ w. (w, w);
  get_rpm = λ w. (speed w, w);
  set_pwm = λ pwm w. (leb pwm pwm_max, if leb pwm pwm_max then pwm else w);
  enable_control = λ w. (true, w);
  disable_control = λ w. (true, w);
  sleep_for = λ ms w. w;
}

-- A fan that starts at a PWM of 40, and one that always turns.
abbrev startable : ℕ → ℕ
startable pwm = if ltb pwm 40 then 0 else 500

abbrev unstoppable : ℕ → ℕ
unstoppable pwm = 600

-- A fan whose control cannot be taken.
abbrev locked : Driver ℕ
locked = record {
  get_pwm = λ w. (100, w);
  get_rpm = λ w. (700, w);
  set_pwm = λ pwm w. (true, w);
  enable_control = λ w. (false, w);
  disable_control = λ w. (true, w);
  sleep_for = λ ms w. w;
}

abbrev fresh : Fan
fresh = record {
  ignore = false;
  rpm_to_pwm = [];
  temp_to_rpm = [];
  start_pwm = 0;
  interval = 0;
  smoothing = record {
    just_started = true;
    rem_intervals = pos 0;
    targeted_rpm = 0;
    top_stickiness_rem_intervals = pos 0;
  };
}

functions : Unit {0}
unfolding is_stable stabilise set_stabilised_pwm poll set_pwm_test test_stopped seek_start
    test_start slow_down test_running_min speed_up test_mapping record_start record_point measure
    take_control give_up finish assigned added test tested sleep_for_interval sub32 add32 to_int32
    insert rpm_to_pwm_from
functions = tt

test_runs :
    (test locked settings 9 fresh 100
      ≡ ok (record { fan = fresh; passed = false; statuses = negsuc 0 ∷ [] }, 100))
    × (test_start (turning startable) settings 0 9 [] 0 ≡ ok ((40, (40, 500) ∷ []), 40))
    × (test_running_min (turning startable) settings 0 99 46 [] 46
        ≡ ok ((44, 500) ∷ (46, 500) ∷ [], 38))
unfolding functions
test_runs = (refl, refl, refl)

startable_fits : (pwm : ℕ) → startable pwm < u32_mod
startable_fits pwm = ground arith

unstoppable_fits : (pwm : ℕ) → unstoppable pwm < u32_mod
unstoppable_fits pwm = omega arith

-- A fan that takes the PWMs up to 255, and reports no other.
abbrev capped : (ℕ → ℕ) → Driver ℕ
capped speed = record {
  get_pwm = λ w. (if leb w pwm_max then w else pwm_max, w);
  get_rpm = λ w. (speed w, w);
  set_pwm = λ pwm w. (leb pwm pwm_max, if leb pwm pwm_max then pwm else w);
  enable_control = λ w. (true, w);
  disable_control = λ w. (true, w);
  sleep_for = λ ms w. w;
}

abbrev AtCapped : ℕ → ℕ → Type 0
AtCapped pwm w = (w ≡ pwm) × (w ≤ pwm_max)

capped-IsSteady :
    (speed : ℕ → ℕ)
    → ((pwm : ℕ) → speed pwm < u32_mod)
    → IsSteady (capped speed) AtCapped speed pwm_max
capped-IsSteady speed fits = record {
  fits = fits;
  accepts = λ pwm w t. ground (arith, t);
  holds = λ pwm w a. (ground (arith, a), a);
  turns = λ pwm w a. (rw a.0 refl, a);
  sleeps = λ pwm ms w a. a;
}

capped_below : (w : ℕ) → ((capped startable).get_pwm w).0 ≤ pwm_max
capped_below w = ground arith

test-Returns_example :
    (taken : Bool) × (w₁ : ℕ) × (take_control
        (capped startable)
        settings
        0
        ((capped startable).get_pwm 80).1
      ≡ ok (taken, w₁))
    × Succeeds
        (λ r. Finished (capped startable) settings fresh taken r.0)
        (test (capped startable) settings 129 fresh 80)
test-Returns_example =
    test-Returns (capped startable) settings AtCapped startable
      (capped-IsSteady startable startable_fits) refl capped_below 129 fresh 80 (omega arith)

capped-Refuses :
    Refuses
      (capped unstoppable)
      settings
      0
      AtCapped
      unstoppable
      pwm_max
      (omega arith)
      (capped-IsSteady unstoppable unstoppable_fits)
capped-Refuses pwm w t = ground (arith, t)

test_running_min-stuck_example :
    test_running_min (capped unstoppable) settings 0 1000 40 [] 40 ≡ stuck
test_running_min-stuck_example =
    test_running_min-stuck (capped unstoppable) settings 0 AtCapped unstoppable pwm_max
      (omega arith) (capped-IsSteady unstoppable unstoppable_fits) 1000 40 [] 40 (omega arith)
      capped-Refuses (λ pwm. omega arith)
