-- ===== src/Controller/Test.antt =====
-- src/Controller.cpp: `test` and what its thread does at the end, `tests_running`, and
-- `set_devices`.
pub mod Status
pub mod Finish
use Prim.Native.String.{String}
use fancon.Common.{
  ℕ, ◌+◌, Bool, true, false, not, ◌&&◌, ◌||◌, Option, none, some, List, [], ◌∷◌, ◌==◌,
  if◌then◌else◌, ◌>>=◌,
}
use fancon.Controller.{
  FanOps, FanTask, tests, Controller, find, contains, emplace, put, is_testing, erase_task, enable,
  disable_all, enable_all,
}

unfoldable pub one_if : Bool → ℕ
one_if true = 1
one_if false = 0

module _ {F W : Type 0} (ops : FanOps F W) where
  unfoldable pub tests_running : List (String × FanTask F) → ℕ
  tests_running [] = 0
  tests_running ((flabel, t) ∷ tasks) = one_if (is_testing ops t) + tests_running tasks

  -- The task of a fan that is to be tested: a running test gets the observers too, any other task is
  -- ended first.
  unfoldable pub start_or_join : ℕ → F → Controller F W → Option (FanTask F) → Controller F W
  start_or_join observers f c (some (tests g (some n))) = record c {
    tasks = put (ops.label f) (tests g (some (n + observers))) c.tasks;
  }
  start_or_join observers f c t =
      let ended = erase_task ops (ops.label f) c in
      record ended { tasks = emplace (ops.label f) (tests f (some observers)) ended.tasks }

  -- `test(f, forced, false, test_status)`; a blocking call is in Controller/Blocked.antt.
  unfoldable pub test : Bool → ℕ → F → Controller F W → Controller F W
  test forced observers f c =
      if ops.ignore f || (ops.tested f && not forced)
      then c
      else start_or_join observers f c (find (ops.label f) c.tasks)

  -- `test_status.reset()` at the fan's task; with no task the iterator has no target.
  unfoldable pub reset_test_status : F → Controller F W → Option (Controller F W)
  reset_test_status f c =
      if contains (ops.label f) c.tasks
      then some (record c { tasks = put (ops.label f) (tests f none) c.tasks })
      else none

  unfoldable pub save_if_last : Controller F W → Controller F W
  save_if_last c =
      if tests_running c.tasks == 0 then record c { world = ops.to_file c.fans c.world } else c

  -- The end of the thread that tests a fan; `f` is the fan as the test leaves it.
  unfoldable pub finish_test : F → Controller F W → Option (Controller F W)
  finish_test f c = reset_test_status f (record c { fans = put (ops.label f) f c.fans }) >>= λ done.
      some (enable ops f (erase_task ops (ops.label f) (save_if_last done)))

  -- `set_devices`, with the fans read from the message.
  unfoldable pub set_devices : List (String × F) → Controller F W → Controller F W
  set_devices fans c =
      let stopped = disable_all ops c in
      enable_all ops (record stopped { fans = fans; world = ops.to_file fans stopped.world })
