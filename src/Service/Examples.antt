-- ===== src/Service/Examples.antt =====
-- Examples of calls to a service with one enabled fan, in a world that holds its PWM.
use Prim.Native.String.{String}
use fancon.Common.{ℕ, ◌≡◌, refl, true, false, some, [], ◌∷◌}
use fancon.Controller.{sys, FanOps, updates, Controller, find, contains}
use fancon.Fan.{Settings}
use fancon.Service.Subscribe.{notified, cancels, subscribe, unobserved, subscribe-before_cancel}

abbrev ops : FanOps String ℕ
ops = record {
  label = λ f. f;
  hw_id = λ f. f;
  dev_type = λ f. sys;
  ignore = λ f. false;
  tested = λ f. true;
  is_configured = λ f. true;
  deep_equal = λ f g. true;
  enable_control = λ f w. (true, w);
  disable_control = λ f w. 255;
  to_file = λ fans w. w;
}

abbrev one_fan : Controller String ℕ
one_fan = record { fans = ("cpu", "cpu") ∷ []; tasks = ("cpu", updates "cpu") ∷ []; world = 80 }

abbrev rpm_of : String → ℕ → ℕ
rpm_of f w = 900

abbrev pwm_of : String → ℕ → ℕ
pwm_of f w = w

no_gpu : contains "gpu" one_fan.fans ≡ false
unfolding contains
no_gpu = refl

the_cpu : find "cpu" one_fan.fans ≡ some "cpu"
unfolding find
the_cpu = refl

-- The file's settings win over those that a client sends.
abbrev sent : Settings
sent = record {
  update_interval = 250;
  dynamic = false;
  smoothing_intervals = 1;
  top_stickiness_intervals = 2;
  temp_averaging_intervals = 3;
}

abbrev in_file : Settings
in_file = record {
  update_interval = 500;
  dynamic = true;
  smoothing_intervals = 4;
  top_stickiness_intervals = 4;
  temp_averaging_intervals = 8;
}

-- What is notified before the registration is lost.
subscribed :
    subscribe {D = ℕ} (1 ∷ 2 ∷ []) (notified 9 ∷ []) (notified 3 ∷ cancels ∷ notified 4 ∷ [])
    ≡ 1 ∷ 2 ∷ 3 ∷ []
unfolding unobserved
subscribed =
    subscribe-before_cancel (1 ∷ 2 ∷ []) (notified 9 ∷ []) (notified 3 ∷ cancels ∷ notified 4 ∷ [])
