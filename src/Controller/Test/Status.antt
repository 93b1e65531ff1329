-- ===== src/Controller/Test/Status.antt =====
-- The statuses while fans are tested, and after new devices are set.
use Prim.Native.String.{String}
use text.Mathlib.Text.{◌==◌}
use text.Mathlib.TextEquality.{eq_iff}
use text.Mathlib.TextPositions.{eq_refl}
use fancon.Common.{
  ℕ, ◌≡◌, ◌+◌, refl, Bool, not, ◌&&◌, ◌||◌, Option, none, some, List, arith, if◌then◌else◌,
}
use fancon.Controller.{
  testing, FanOps, FanTask, updates, tests, Controller, find, erase, emplace, is_testing,
  task_status, status, erase_task,
}
use fancon.Controller.Maps.{find-emplace, find-erase, contains-find, find-put}
use fancon.Controller.Test.{start_or_join, test}

module _ {F W : Type 0} (ops : FanOps F W) where
  replaced :
      (x : String) (observers : ℕ) (f : F) (c : Controller F W) (ts : List (String × FanTask F))
      → erase (ops.label f) c.tasks ≡ ts
      → task_status ops (find x (emplace (ops.label f) (tests f (some observers)) ts))
        ≡ (if ops.label f == x then testing else status ops x c)
  unfolding status task_status is_testing
  replaced x observers f c ts e = ground (
    arith,
    find-emplace x (ops.label f) (tests f (some observers)) ts,
    find-erase x (ops.label f) c.tasks,
    find-erase (ops.label f) (ops.label f) c.tasks,
    contains-find (ops.label f) ts,
    eq_iff (ops.label f) x,
    eq_refl (ops.label f),
    e,
  )

  status-start_or_join :
      (x : String) (observers : ℕ) (f : F) (c : Controller F W) (t : Option (FanTask F))
      → find (ops.label f) c.tasks ≡ t
      → status ops x (start_or_join ops observers f c t)
        ≡ (if ops.label f == x then testing else status ops x c)
  unfolding status task_status is_testing start_or_join erase_task
  status-start_or_join x observers f c (some (tests g (some n))) e = ground (
    arith,
    find-put x (ops.label f) (tests g (some (n + observers))) c.tasks,
    contains-find (ops.label f) c.tasks,
    eq_iff (ops.label f) x,
    e,
  )
  status-start_or_join x observers f c (some (tests g none)) e =
      replaced x observers f c (erase (ops.label f) c.tasks) refl
  status-start_or_join x observers f c (some (updates g)) e =
      replaced x observers f c (erase (ops.label f) c.tasks) refl
  status-start_or_join x observers f c none e =
      replaced x observers f c (erase (ops.label f) c.tasks) refl

  -- `test` of a fan that is not ignored, and was not tested before unless it is forced, makes its
  -- status testing, whichever task it had, and no other status changes; else nothing does.
  pub status-test :
      (x : String) (forced : Bool) (observers : ℕ) (f : F) (c : Controller F W)
      → status ops x (test ops forced observers f c) ≡ (
          if ops.label f == x && not (ops.ignore f || (ops.tested f && not forced))
          then testing
          else status ops x c)
  unfolding test
  status-test x forced observers f c =
      ground (arith, status-start_or_join x observers f c (find (ops.label f) c.tasks) refl)
