-- ===== src/Controller/Test/Finish.antt =====
-- The end of a test: the tests that still run, and the fan's new task.
use Prim.Native.String.{String}
use text.Mathlib.Text.{◌==◌}
use text.Mathlib.TextEquality.{eq_iff}
use text.Mathlib.TextPositions.{eq_refl}
use fancon.Common.{
  ◌≡◌, ◌≢◌, ◌↔◌, refl, true, false, ◌&&◌, none, List, [], ◌∷◌, arith, if◌then◌else◌, Gives,
}
use fancon.Controller.{
  enabled, disabled, testing, FanOps, FanTask, updates, tests, Controller, find, contains, put,
  is_testing, task_status, status, is_dell, erase_task, enable_with, enable,
}
use fancon.Controller.Maps.{Distinct, find-erase, find-none, find-emplace, find-put}
use fancon.Controller.Tasks.{starts}
use fancon.Controller.Test.{one_if, tests_running, reset_test_status, save_if_last, finish_test}

module _ {F W : Type 0} (ops : FanOps F W) where
  none_tests :
      (us : List (String × FanTask F))
      → tests_running ops us ≡ 0
      → (x : String) → task_status ops (find x us) ≢ testing
  unfolding tests_running one_if task_status find
  none_tests [] h x = ground arith
  none_tests ((j, t) ∷ us) h x = ground (arith, λ (e : tests_running ops us ≡ 0). none_tests us e x)

  head_idle :
      (j : String) (t : FanTask F) (us : List (String × FanTask F))
      → task_status ops (find j ((j, t) ∷ us)) ≢ testing
      → is_testing ops t ≡ false
  unfolding task_status find
  head_idle j t us h = ground (arith, eq_refl j)

  tail_idle :
      (x j : String) (t : FanTask F) (us : List (String × FanTask F))
      → contains j us ≡ false
      → task_status ops (find x ((j, t) ∷ us)) ≢ testing
      → task_status ops (find x us) ≢ testing
  unfolding task_status find
  tail_idle x j t us e h = ground (arith, find-none j us e, eq_iff j x)

  all_idle :
      (us : List (String × FanTask F))
      → Distinct us
      → ((x : String) → task_status ops (find x us) ≢ testing)
      → tests_running ops us ≡ 0
  unfolding tests_running one_if
  all_idle [] e h = refl
  all_idle ((j, t) ∷ us) (e, r) h =
      ground (arith, head_idle j t us (h j), all_idle us r (λ x. tail_idle x j t us e (h x)))

  -- The count of the running tests is zero just if no fan has the status testing; with it, the
  -- thread that ends a test decides whether to write the configuration.
  pub tests_running-zero :
      (ts : List (String × FanTask F))
      → Distinct ts
      → (tests_running ops ts ≡ 0) ↔ ((x : String) → task_status ops (find x ts) ≢ testing)
  tests_running-zero ts d = (none_tests ts, all_idle ts d)

  status-enable_alone :
      (x : String) (f : F) (c : Controller F W)
      → is_dell ops f ≡ false
      → status ops x (enable ops f c)
        ≡ (if ops.label f == x && starts ops f c then enabled else status ops x c)
  unfolding status task_status is_testing enable enable_with
  status-enable_alone x f c d =
      ground (arith, find-emplace x (ops.label f) (updates f) c.tasks, eq_iff (ops.label f) x, d)

  abbrev pub saved : F → Controller F W → Controller F W
  saved f c = save_if_last ops (record c {
    fans = put (ops.label f) f c.fans;
    tasks = put (ops.label f) (tests f none) c.tasks;
  })

  pub status-saved :
      (x : String) (f : F) (c : Controller F W)
      → status ops x (erase_task ops (ops.label f) (saved f c))
        ≡ (if ops.label f == x then disabled else status ops x c)
  unfolding status task_status is_testing save_if_last erase_task
  status-saved x f c = ground (
    arith,
    find-erase x (ops.label f) (put (ops.label f) (tests f none) c.tasks),
    find-put x (ops.label f) (tests f none) c.tasks,
    eq_iff (ops.label f) x,
  )

  -- The thread that tests a fan, not a Dell fan, ends with the fan's task replaced: the fan is
  -- enabled if it can take control and is configured, else it is disabled; it never stays testing,
  -- and no other status changes.
  pub finish_test-status :
      (f : F) (c : Controller F W)
      → contains (ops.label f) c.tasks ≡ true
      → is_dell ops f ≡ false
      → Gives
          (λ d.
            (x : String)
            → status ops x d ≡ (
                if ops.label f == x
                then (if starts ops f (erase_task ops (ops.label f) (saved f c))
                    then enabled
                    else disabled)
                else status ops x c))
          (finish_test ops f c)
  unfolding finish_test reset_test_status
  finish_test-status f c h d =
      let cleared : Controller F W = erase_task ops (ops.label f) (saved f c) in
      ground (
        arith,
        λ (x : String). status-enable_alone x f cleared d,
        λ (x : String). status-saved x f c,
        h,
      )
