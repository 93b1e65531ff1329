-- ===== src/Controller/Tasks.antt =====
-- The tasks that enabling and disabling leave.
use Prim.Native.String.{String}
use text.Mathlib.Text.{◌==◌}
use text.Mathlib.TextEquality.{eq_iff}
use fancon.Common.{
  ◌≡◌, ◌∙◌, refl, Bool, true, false, not, ◌&&◌, ◌||◌, none, some, List, [], ◌∷◌, arith,
  if◌then◌else◌,
}
use fancon.Controller.{
  enabled, disabled, FanOps, FanTask, updates, Controller, find, contains, erase, is_testing,
  task_status, status, try_enable, enable_with, enable_one, disable_with, disable_one, is_dell,
  disable_each, disable_all, disable_each_dell, disable, erase_task, end_task,
}
use fancon.Controller.Maps.{find-emplace, find-erase, find-none}

module _ {F W : Type 0} (ops : FanOps F W) where
  -- The fan has no task, takes control, and is configured.
  abbrev pub starts : F → Controller F W → Bool
  starts f c =
      not (contains (ops.label f) c.tasks) && (try_enable ops f c.world).0 && ops.is_configured f

  -- `enable` of one fan adds a task for it just if it has none, takes control and is configured;
  -- all other tasks stay, and so do the devices. Control is taken even if no task is added: a fan
  -- that is not configured keeps it.
  pub status-enable_one :
      (f : F) (c : Controller F W)
      → ((x : String)
          → status ops x (enable_one ops f c)
            ≡ (if ops.label f == x && starts f c then enabled else status ops x c))
        × ((enable_one ops f c).fans ≡ c.fans)
        × ((enable_one ops f c).world
            ≡ (if contains (ops.label f) c.tasks then c.world else (try_enable ops f c.world).1))
  unfolding status task_status is_testing enable_one enable_with
  status-enable_one f c = (
    λ x. ground (arith, find-emplace x (ops.label f) (updates f) c.tasks, eq_iff (ops.label f) x),
    ground arith,
    ground arith,
  )

  -- `disable` of one fan ends its task, and no other; the devices stay. Where there was a task, the
  -- thread that updated the fan gives its control back, and then `disable` does so once more.
  pub status-disable_one :
      (flabel : String) (c : Controller F W)
      → ((x : String)
          → status ops x (disable_one ops flabel c)
            ≡ (if flabel == x then disabled else status ops x c))
        × ((disable_one ops flabel c).fans ≡ c.fans)
  unfolding status task_status is_testing disable_one disable_with erase_task
  status-disable_one flabel c = (
    λ x. ground (arith, find-erase x flabel c.tasks, find-none flabel c.tasks, eq_iff flabel x),
    ground arith,
  )

  status-disable_each :
      (x : String) (ts : List (String × FanTask F)) (c : Controller F W)
      → status ops x (disable_each ops ts c) ≡ (if contains x ts then disabled else status ops x c)
  unfolding disable_each contains
  status-disable_each x [] c = refl
  status-disable_each x ((flabel, t) ∷ ts) c = ground (
    arith,
    status-disable_each x ts (disable_one ops flabel c),
    (status-disable_one flabel c).0 x,
  )

  -- After `disable_all` every status is disabled.
  pub status-disable_all :
      (x : String) (c : Controller F W) → status ops x (disable_all ops c) ≡ disabled
  unfolding disable_all
  status-disable_all x c =
      ground (arith, status-disable_each x c.tasks c, none_left (contains x c.tasks) refl)
    where
      none_left : (b : Bool) → contains x c.tasks ≡ b → b ≡ false → status ops x c ≡ disabled
      none_left b e h =
          let n : find x c.tasks ≡ none = find-none x c.tasks (e ∙ h) in
          unfold status task_status in rw n

  -- A Dell fan under the name `x`, which is not `except`.
  abbrev pub dell_listed : String → String → List (String × F) → Bool
  dell_listed except x [] = false
  dell_listed except x ((fl, f) ∷ fans) =
      (is_dell ops f && not (fl == except)) && fl == x || dell_listed except x fans

  pub status-disable_each_dell :
      (except x : String) (fans : List (String × F)) (c : Controller F W)
      → status ops x (disable_each_dell ops except fans c)
        ≡ (if dell_listed except x fans then disabled else status ops x c)
  unfolding disable_each_dell
  status-disable_each_dell except x [] c = refl
  status-disable_each_dell except x ((fl, f) ∷ fans) c = ground (
    arith,
    status-disable_each_dell except x fans (disable_one ops fl c),
    status-disable_each_dell except x fans c,
    (status-disable_one fl c).0 x,
  )

  -- `disable` of a fan that has a task ends that task, and if the fan is a Dell fan those of all
  -- other Dell fans; all other tasks stay.
  pub status-disable :
      (flabel x : String) (f : F) (c : Controller F W)
      → contains flabel c.tasks ≡ true
      → find flabel c.fans ≡ some f
      → status ops x (disable ops flabel c) ≡ (
          if flabel == x || (is_dell ops f && dell_listed flabel x c.fans)
          then disabled
          else status ops x c)
  unfolding status task_status is_testing disable disable_with erase_task
  status-disable flabel x f c h e = ground (
    arith,
    status-disable_each_dell flabel x c.fans (record c {
      tasks = erase flabel c.tasks;
      world = ops.disable_control f (end_task ops (find flabel c.tasks) c.world);
    }),
    find-erase x flabel c.tasks,
    eq_iff flabel x,
    h,
    e,
  )
