-- ===== src/Controller/Blocked.antt =====
-- src/Controller.cpp: which calls return. `disable` erases a task under the write lock of its fan, which
-- joins the task's thread; the thread of a test needs that lock for reading before it ends, so the
-- call waits for it forever. A blocking `test` that joins a running test does the same.
-- `none` is a call that never returns; Controller/Threads.antt has the steps of the two threads.
use Prim.Native.String.{String}
use text.Mathlib.Text.{◌==◌}
use fancon.Common.{
  ◌≡◌, ℕ, Bool, true, false, not, ◌&&◌, ◌||◌, Option, none, some, List, [], ◌∷◌, arith,
  if◌then◌else◌,
}
use fancon.Controller.{
  FanOps, FanTask, Controller, find, contains, is_testing, is_dell, status, disabled, FanStatus,
  disable, disable_all,
}
use fancon.Controller.Tasks.{dell_listed, status-disable}
use fancon.Controller.Test.{test, set_devices}

module _ {F W : Type 0} (ops : FanOps F W) where
  unfoldable pub testing_task : Option (FanTask F) → Bool
  testing_task none = false
  testing_task (some t) = is_testing ops t

  unfoldable pub under_test : String → Controller F W → Bool
  unfolding testing_task
  under_test flabel c = testing_task (find flabel c.tasks)

  -- A Dell fan other than `except` is under test.
  unfoldable pub dell_under_test : String → List (String × F) → Controller F W → Bool
  unfolding under_test
  dell_under_test except [] c = false
  dell_under_test except ((fl, f) ∷ fans) c =
      (is_dell ops f && not (fl == except)) && under_test fl c || dell_under_test except fans c

  -- A task that `disable` erases is a test.
  unfoldable pub joins_test : String → Controller F W → Bool
  unfolding under_test dell_under_test
  joins_test flabel c =
      under_test flabel c
      || contains flabel c.tasks && elim (find flabel c.fans) [
        | none ↦ false
        | some f ↦ is_dell ops f && dell_under_test flabel c.fans c
      ]

  unfoldable pub disable_or_hang : String → Controller F W → Option (Controller F W)
  unfolding joins_test
  disable_or_hang flabel c = if joins_test flabel c then none else some (disable ops flabel c)

  unfoldable pub any_test : List (String × FanTask F) → Bool
  any_test [] = false
  any_test ((flabel, t) ∷ tasks) = is_testing ops t || any_test tasks

  unfoldable pub disable_all_or_hang : Controller F W → Option (Controller F W)
  unfolding any_test
  disable_all_or_hang c = if any_test c.tasks then none else some (disable_all ops c)

  unfoldable pub set_devices_or_hang : List (String × F) → Controller F W → Option (Controller F W)
  unfolding any_test
  set_devices_or_hang fans c = if any_test c.tasks then none else some (set_devices ops fans c)

  -- `test(f, forced, blocking, test_status)`, up to where it waits for the end of the test it starts.
  unfoldable pub test_or_hang : Bool → Bool → ℕ → F → Controller F W → Option (Controller F W)
  unfolding under_test
  test_or_hang forced blocking observers f c =
      if not (ops.ignore f || (ops.tested f && not forced))
        && blocking
        && under_test (ops.label f) c
      then none
      else some (test ops forced observers f c)

  -- The status that `disable` leaves.
  abbrev pub disabled_with : String → F → String → Controller F W → FanStatus
  disabled_with flabel f x c =
      if flabel == x || (is_dell ops f && dell_listed ops flabel x c.fans)
      then disabled
      else status ops x c

  -- `disable` of a fan that is enabled, and of whose Dell fans, if it is one, none is under test, returns,
  -- where no observer is called: it ends that fan's task, and if it is a Dell fan those of all other Dell
  -- fans; all other tasks stay.
  pub status-disable_or_hang :
      (flabel : String) (f : F) (c : Controller F W)
      → contains flabel c.tasks ≡ true
      → find flabel c.fans ≡ some f
      → under_test flabel c ≡ false
      → (is_dell ops f && dell_under_test flabel c.fans c) ≡ false
      → (d : Controller F W) × (disable_or_hang flabel c ≡ some d)
        × ((x : String) → status ops x d ≡ disabled_with flabel f x c)
  unfolding disable_or_hang joins_test
  status-disable_or_hang flabel f c h e u v =
      (disable ops flabel c, ground (arith, h, e, u, v), λ x. status-disable ops flabel x f c h e)
