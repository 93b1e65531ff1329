-- ===== src/Controller/Observers.antt =====
-- src/Controller.cpp: the calls of the observers, and `is_testing` of a label.
use Prim.Native.String.{String}
use fancon.Common.{◌≡◌, ◌↔◌, Bool, false, Option, none, some, List, [], ◌∷◌, arith}
use fancon.Controller.{
  FanStatus, testing, FanOps, FanTask, Controller, find, is_testing, task_status, status,
}

module _ {A W : Type 0} where
  -- The loop over the observers; one changes the world that it reports to.
  unfoldable pub call_each : List (A → W → W) → A → W → W
  call_each [] a w = w
  call_each (f ∷ fs) a w = call_each fs a (f a w)

module _ {F W : Type 0} (ops : FanOps F W) where
  unfoldable pub notify_devices_observers :
      List (List (String × F) → W → W) → Controller F W → Controller F W
  unfolding call_each
  notify_devices_observers [] c = c
  notify_devices_observers (f ∷ fs) c = record c { world = call_each (f ∷ fs) c.fans c.world }

  -- A fan that is not there is not reported.
  unfoldable pub notify_status_observers :
      List (F × FanStatus → W → W) → String → Controller F W → Controller F W
  unfolding call_each
  notify_status_observers [] flabel c = c
  notify_status_observers (f ∷ fs) flabel c = elim (find flabel c.fans) [
    | none ↦ c
    | some fan ↦ record c { world = call_each (f ∷ fs) (fan, status ops flabel c) c.world }
  ]

  unfoldable pub tests_at : Option (FanTask F) → Bool
  tests_at none = false
  tests_at (some t) = is_testing ops t

  -- `is_testing(flabel)`
  unfoldable pub is_testing_label : String → Controller F W → Bool
  unfolding tests_at
  is_testing_label flabel c = tests_at (find flabel c.tasks)

  -- A fan is testing by `is_testing` just if its status is testing.
  pub is_testing_label-status :
      (flabel : String) (c : Controller F W)
      → (is_testing_label flabel c ≡ Bool.true) ↔ (status ops flabel c ≡ testing)
  unfolding is_testing_label status task_status
  is_testing_label-status flabel c = ground arith
