-- ===== src/Controller/Examples.antt =====
-- Examples of the controller's operations: a fan on a mainboard and two Dell fans, in a world that
-- counts how often control is taken or given back.
use Prim.Native.String.{String}
use text.Mathlib.Text.{◌==◌}
use text.Mathlib.TextEquality.{eq_iff}
use mathlib.Core.Bool.{false≢true}
use fancon.Common.{
  ℕ, ◌+◌, ◌≡◌, ◌≢◌, refl, inl, inr, Bool, true, false, ◌&&◌, none, some, List, [], ◌∷◌,
  if◌then◌else◌, Gives,
}
use fancon.Controller.{
  DevType, sys, dell, enabled, disabled, FanOps, updates, tests, Controller, find, contains, erase,
  emplace, place, status, is_testing, is_dell, try_enable, enable_with, enable_one,
  enable_each_dell, enable, disable_with, disable_one, disable_each_dell, disable, erase_task,
}
use fancon.Controller.Tasks.{starts}
use fancon.Controller.Blocked.{
  under_test, dell_under_test, testing_task, joins_test, disable_or_hang, disabled_with,
  status-disable_or_hang,
}
use fancon.Controller.Enable.{status-enable_dell}
use fancon.Controller.Test.{test, start_or_join, finish_test}
use fancon.Controller.Test.Finish.{saved, finish_test-status}
use fancon.Controller.Merge.{merge, reload, any_contains}
use fancon.Controller.Merge.Added.{Added, merge-Added}
use fancon.Controller.Merge.Removed.{all_in, reload-all_in}
use fancon.Controller.Threads.{
  updating, a_test, holds_write, Both, calling, locked, joining, returned, working, waiting,
  the_call, the_thread, run_all, call_step, thread_step, work, Stuck, run_all-hangs,
  run_all-returns,
}
use fancon.Controller.Watcher.{watch, any, watch-any}

pub record Device : Type 0 where
  pub name : String
  pub kind : DevType
  pub configured : Bool
  pub was_tested : Bool

abbrev pub ops : FanOps Device ℕ
ops = record {
  label = λ f. f.name;
  hw_id = λ f. f.name;
  dev_type = λ f. f.kind;
  ignore = λ f. false;
  tested = λ f. f.was_tested;
  is_configured = λ f. f.configured;
  deep_equal = λ f g. f.name == g.name;
  enable_control = λ f w. (true, w + 1);
  disable_control = λ f w. w + 1;
  to_file = λ fans w. w;
}

abbrev pub board : Device
board = record { name = "board"; kind = sys; configured = true; was_tested = false }

abbrev pub left : Device
left = record { name = "left"; kind = dell; configured = true; was_tested = true }

abbrev pub right : Device
right = record { name = "right"; kind = dell; configured = true; was_tested = true }

abbrev pub all_fans : List (String × Device)
all_fans = ("board", board) ∷ ("left", left) ∷ ("right", right) ∷ []

abbrev pub idle : Controller Device ℕ
idle = record { fans = all_fans; tasks = []; world = 0 }

-- The board's fan is tested, the two Dell fans are enabled.
abbrev pub busy : Controller Device ℕ
busy = record {
  fans = all_fans;
  tasks = ("board", tests board (some 1)) ∷ ("left", updates left) ∷ ("right", updates right) ∷ [];
  world = 5;
}

both_on : (enable ops left idle).tasks ≡ ("left", updates left) ∷ ("right", updates right) ∷ []
unfolding enable enable_with contains is_dell try_enable enable_each_dell enable_one emplace place
both_on = refl

both_off : (disable ops "right" busy).tasks ≡ ("board", tests board (some 1)) ∷ []
unfolding disable disable_with contains is_dell find erase_task disable_each_dell disable_one erase
both_off = refl

board_tested : (test ops false 2 board idle).tasks ≡ ("board", tests board (some 2)) ∷ []
unfolding test start_or_join find erase_task erase emplace contains place
board_tested = refl

busy_left : contains "left" busy.tasks ≡ true
unfolding contains
busy_left = refl

left_listed : find "left" all_fans ≡ some left
unfolding find
left_listed = refl

left_dell : is_dell ops left ≡ true
unfolding is_dell
left_dell = refl

right_dell : is_dell ops right ≡ true
unfolding is_dell
right_dell = refl

right_left : ◌≢◌ {A = String} "right" "left"
right_left e = false≢true ((eq_iff "right" "left").1 e)

may_start : starts ops left idle ≡ true
unfolding contains try_enable
may_start = refl

status-enable_dell_example :
    (status ops "left" (enable ops left idle) ≡ enabled)
    × (status ops "right" (enable ops left idle) ≢ disabled)
status-enable_dell_example =
    status-enable_dell ops left idle "right" right left_dell may_start (inr (inr (inl refl)))
      right_dell right_left (refl, refl, λ w. refl)

busy_board : contains "board" busy.tasks ≡ true
unfolding contains
busy_board = refl

left_enabled : under_test ops "left" busy ≡ false
unfolding under_test testing_task find is_testing
left_enabled = refl

right_enabled : (is_dell ops left && dell_under_test ops "left" all_fans busy) ≡ false
unfolding is_dell dell_under_test under_test testing_task find is_testing
right_enabled = refl

status-disable_or_hang_example :
    (d : Controller Device ℕ) × (disable_or_hang ops "left" busy ≡ some d)
    × ((x : String) → status ops x d ≡ disabled_with ops "left" left x busy)
status-disable_or_hang_example =
    status-disable_or_hang ops "left" left busy busy_left left_listed left_enabled right_enabled

-- The fan under test cannot be disabled.
board_hangs : disable_or_hang ops "board" busy ≡ none
unfolding disable_or_hang joins_test under_test testing_task find is_testing
board_hangs = refl

board_sys : is_dell ops board ≡ false
unfolding is_dell
board_sys = refl

finish_test-status_example :
    Gives
      (λ d.
        (x : String)
        → status ops x d ≡ (
            if "board" == x
            then (if starts ops board (erase_task ops "board" (saved ops board busy))
                then enabled
                else disabled)
            else status ops x busy))
      (finish_test ops board busy)
finish_test-status_example = finish_test-status ops board busy busy_board board_sys

-- The configuration has no fan on the right.
abbrev configured_fans : List (String × Device)
configured_fans = ("left", left) ∷ []

merge-Added_example : Added ops busy (merge ops false false configured_fans busy)
merge-Added_example = merge-Added ops configured_fans busy

reload-all_in_example : reload ops configured_fans none busy ≡ (
    if all_in ops (configured_fans ∷ []) all_fans
    then some (merge ops false false configured_fans busy)
    else none)
reload-all_in_example = reload-all_in ops configured_fans busy

-- Two of the three fans are not enumerated any more.
unplugged : reload ops configured_fans none busy ≡ none
unfolding any_contains contains
unplugged = reload-all_in ops configured_fans busy

-- The call takes the lock while the test is at work.
abbrev taken : Both
taken = record { call = locked; thread = working; run = true }

taken-Stuck : Stuck a_test taken
unfolding holds_write
taken-Stuck = (refl, inl refl)

run_all-hangs_example :
    (run_all a_test (the_call ∷ the_thread ∷ the_call ∷ the_thread ∷ []) taken).call ≢ returned
run_all-hangs_example =
    run_all-hangs a_test (the_call ∷ the_thread ∷ the_call ∷ the_thread ∷ []) taken taken-Stuck

-- An update that is at its report when the call takes the lock.
observed :
    run_all
      (updating true)
      (the_thread ∷ the_call ∷ the_call ∷ [])
      (record { call = calling; thread = working; run = true })
    ≡ record { call = joining; thread = waiting; run = false }
unfolding run_all call_step thread_step work
observed = refl

run_all-returns_example :
    (run_all (updating false) (the_call ∷ the_call ∷ the_thread ∷ the_call ∷ []) (
      run_all
        (updating false)
        (the_thread ∷ the_call ∷ [])
        (record { call = calling; thread = working; run = true }))).call
    ≡ returned
run_all-returns_example = run_all-returns (the_thread ∷ the_call ∷ [])

watch-any_example :
    watch (false ∷ true ∷ []) false ≡ (if any (false ∷ true ∷ []) then none else some false)
watch-any_example = watch-any (false ∷ true ∷ [])
