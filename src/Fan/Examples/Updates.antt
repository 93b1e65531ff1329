-- ===== src/Fan/Examples/Updates.antt =====
-- An update of a fan whose world is the PWM last written.
use fancon.Common.{Gives, some, ℕ, ◌≤◌, ◌≡◌, refl, true, false, [], ◌∷◌, arith, ltb}
use fancon.Common.Int.{◌+ℤ◌, pos}
use fancon.Fan.{Fan, Settings}
use fancon.Fan.Driver.{Driver}
use fancon.Common.Words.{sub32}
use fancon.Common.OrdMap.{last_entry}
use fancon.Fan.Curve.{target_rpm}
use fancon.Fan.Smooth.Step.{InRange}
use fancon.Fan.Update.{sleep, try_control, recover_control, update}
use fancon.Fan.Update.Keeps.{update-Safe}
use fancon.Fan.Examples.Rationals.{fractions}

abbrev settings : Settings
settings = record {
  update_interval = 500;
  dynamic = true;
  smoothing_intervals = 4;
  top_stickiness_intervals = 2;
  temp_averaging_intervals = 8;
}

abbrev turning : Driver ℕ
turning = record {
  get_pwm = λ w. (w, w);
  get_rpm = λ w. (900, w);
  set_pwm = λ pwm w. (true, pwm);
  enable_control = λ w. (true, w);
  disable_control = λ w. (true, w);
  sleep_for = λ ms w. w;
}

abbrev fan : Fan
fan = record {
  ignore = false;
  rpm_to_pwm = (0, 0) ∷ (800, 60) ∷ (2400, 255) ∷ [];
  temp_to_rpm = (pos 40, 900) ∷ (pos 90, 2400) ∷ [];
  start_pwm = 70;
  interval = 0;
  smoothing = record {
    just_started = true;
    rem_intervals = pos 0;
    targeted_rpm = 0;
    top_stickiness_rem_intervals = pos 0;
  };
}

asked : target_rpm fractions true fan.temp_to_rpm (pos 45) ≡ some 1419
unfolding target_rpm sub32 ◌+ℤ◌
asked = refl

last_point : last_entry fan.rpm_to_pwm ≡ some (2400, 255)
unfolding last_entry
last_point = refl

in_range : InRange settings fan.smoothing 1419
in_range = record {
  rpm_fits = omega arith;
  targeted_fits = omega arith;
  intervals_pos = omega arith;
  intervals_fit = omega arith;
  stickiness_fits = omega arith;
}

update-Safe_example :
    Gives
      (λ (r : Fan × ℕ). (r.0.rpm_to_pwm ≡ (0, 0) ∷ (800, 60) ∷ (2400, 255) ∷ []) × (r.1 ≤ 255))
      (update turning settings fractions fan (pos 45) 0)
update-Safe_example =
    update-Safe turning settings (λ w. w ≤ 255) (λ w h. h) (λ ms w h. h) (λ pwm w p h. p) fractions
      fan (pos 45) 0 1419 (2400, 255) asked last_point in_range
      (omega arith, (omega arith, (omega arith, tt))) (omega arith) (omega arith)

-- A world that counts the tries: control comes back at the fourth.
abbrev lost : Driver ℕ
lost = record {
  get_pwm = λ w. (0, w);
  get_rpm = λ w. (0, w);
  set_pwm = λ pwm w. (false, w);
  enable_control = λ w. (ltb 2 w, 1);
  disable_control = λ w. (true, w);
  sleep_for = λ ms w. 7;
}

second_try : recover_control lost settings 100 0 ≡ (true, 1)
unfolding recover_control try_control sleep
second_try = refl
