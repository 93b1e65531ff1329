-- ===== src/Dell/Examples.antt =====
-- Examples of a Dell fan whose PWM can be written once the first method was sent.
use fancon.Common.{
  ℕ, ◌≤◌, ◌≡◌, ◌⊎◌, Elem, refl, Bool, true, false, some, [], ◌∷◌, ◌==◌, if◌then◌else◌,
}
use fancon.Common.Words.{sub32}
use fancon.Fan.Driver.{Driver}
use fancon.Dell.{
  manual_control_1, manual_control_2, manual_control_3, mode, furthest, try_method, try_methods,
  test_driver_enable_flag,
}
use fancon.Dell.Method.{test_driver_enable_flag-mode}

-- Whether the first method is on, and the PWM.
abbrev dell_fan : Driver (Bool × ℕ)
dell_fan = record {
  get_pwm = λ w. (w.1, w);
  get_rpm = λ w. (w.1, w);
  set_pwm = λ pwm w. (w.0, if w.0 then (w.0, pwm) else w);
  enable_control = λ w. (true, w);
  disable_control = λ w. (true, w);
  sleep_for = λ ms w. w;
}

abbrev send : ℕ → Bool × ℕ → Bool × (Bool × ℕ)
send cmd w = (true, (cmd == manual_control_1, w.1))

first_answers :
    try_methods dell_fan send (manual_control_1 ∷ []) (false, 90)
    ≡ (some manual_control_1, (true, 255))
unfolding try_methods try_method furthest sub32
first_answers = refl

test_driver_enable_flag-mode_example :
    let r = test_driver_enable_flag dell_fan send 0 (false, 90) in
    ((1 ≤ 0) × (0 ≤ 3) × (r ≡ (0, (false, 90))))
    ⊎ ((¬ ((1 ≤ 0) × (0 ≤ 3)))
        × Elem r.0 (2 ∷ manual_control_2 ∷ manual_control_1 ∷ manual_control_3 ∷ [])
        × (mode r.0 true ≡ mode 2 true))
test_driver_enable_flag-mode_example = test_driver_enable_flag-mode dell_fan send 0 (false, 90) true
