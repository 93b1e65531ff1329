-- ===== src/Controller/Abstract.antt =====
-- What the controller promises of its fans: each is disabled, enabled or under test, and a call moves
-- them only along the edges below. The steps of the controller of src/Controller.cpp are steps of this
-- machine.
pub mod Reloaded
pub mod Refines
use Prim.Native.String.{String}
use text.Mathlib.Text.{◌==◌}
use fancon.Common.{
  ℕ, ◌≡◌, ◌≢◌, ◌⊎◌, Bool, not, ◌&&◌, ◌||◌, Option, none, some, List, [], ◌∷◌, if◌then◌else◌,
}
use fancon.Controller.{
  FanStatus, enabled, disabled, testing, FanOps, Controller, status, enable, enable_all, recover,
}
use fancon.Controller.Blocked.{
  disable_or_hang, disable_all_or_hang, test_or_hang, set_devices_or_hang,
}
use fancon.Controller.Merge.{reload}
use fancon.Controller.Test.{finish_test}

-- A call to the controller, or the end of a test's thread.
pub data Event (F : Type 0) : Type 0 where
  enables : F → Event F
  enables_all : Event F
  disables : String → Event F
  disables_all : Event F
  starts_test : Bool → ℕ → F → Event F
  ends_test : F → Event F
  sets_devices : List (String × F) → Event F
  recovers : Event F
  reloads : List (String × F) → Option (List (String × F)) → Event F

abbrev pub Statuses : Type 0
Statuses = String → FanStatus

-- A fan keeps its status, or it is disabled and becomes enabled.
abbrev pub Raised : FanStatus → FanStatus → Type 0
Raised after before = (after ≡ before) ⊎ ((before ≡ disabled) × (after ≡ enabled))

-- A fan keeps its status, or becomes disabled.
abbrev pub Lowered : FanStatus → FanStatus → Type 0
Lowered after before = (after ≡ disabled) ⊎ (after ≡ before)

-- No fan is under test.
abbrev pub Untested : Statuses → Type 0
Untested s = (x : String) → s x ≢ testing

module _ {F W : Type 0} (ops : FanOps F W) where
  -- The machine: the statuses before an event and after it.
  abbrev pub Allowed : Event F → Statuses → Statuses → Type 0
  Allowed (enables f) s t =
      ((x : String) → Raised (t x) (s x)) × (s (ops.label f) ≢ disabled → (x : String) → t x ≡ s x)
  Allowed enables_all s t = (x : String) → Raised (t x) (s x)
  Allowed (disables flabel) s t = (t flabel ≡ disabled) × ((x : String) → Lowered (t x) (s x))
  Allowed disables_all s t = (x : String) → t x ≡ disabled
  Allowed (starts_test forced observers f) s t =
      (x : String)
      → t x ≡ (
          if ops.label f == x && not (ops.ignore f || (ops.tested f && not forced))
          then testing
          else s x)
  Allowed (ends_test f) s t =
      (x : String) → Raised (t x) (if ops.label f == x then disabled else s x)
  Allowed (sets_devices fans) s t = (x : String) → Raised (t x) disabled
  Allowed recovers s t = (x : String) → t x ≡ s x
  Allowed (reloads enumerated none) s t = (x : String) → t x ≡ s x
  Allowed (reloads enumerated (some conf_devs)) s t = Untested t

  -- A step of the controller: a call that returns and whose behaviour is defined, or the end of a
  -- test, while its fan has a task. A reload with a configuration is a step where no fan is under
  -- test.
  pub data Step (c : Controller F W) : Event F → Controller F W → Type 0 where
    enabling : (f : F) → Step c (enables f) (enable ops f c)
    enabling_all : Step c enables_all (enable_all ops c)
    disabling :
        (flabel : String) {d : Controller F W}
        → disable_or_hang ops flabel c ≡ some d
        → Step c (disables flabel) d
    disabling_all :
        {d : Controller F W} → disable_all_or_hang ops c ≡ some d → Step c disables_all d
    testing_one :
        (forced blocking : Bool) (observers : ℕ) (f : F) {d : Controller F W}
        → test_or_hang ops forced blocking observers f c ≡ some d
        → Step c (starts_test forced observers f) d
    ending : (f : F) {d : Controller F W} → finish_test ops f c ≡ some d → Step c (ends_test f) d
    setting :
        (fans : List (String × F)) {d : Controller F W}
        → set_devices_or_hang ops fans c ≡ some d
        → Step c (sets_devices fans) d
    recovering : Step c recovers (recover ops c)
    reloading :
        (enumerated : List (String × F)) {d : Controller F W}
        → reload ops enumerated none c ≡ some d
        → Step c (reloads enumerated none) d
    reloading_config :
        (enumerated conf_devs : List (String × F)) {d : Controller F W}
        → Untested (λ x. status ops x c)
        → reload ops enumerated (some conf_devs) c ≡ some d
        → Step c (reloads enumerated (some conf_devs)) d

  -- Steps in a row, with what happened.
  pub data Steps (c : Controller F W) : List (Event F) → Controller F W → Type 0 where
    stay : Steps c [] c
    then_step :
        {es : List (Event F)} {e : Event F} {d d' : Controller F W}
        → Steps c es d
        → Step d e d'
        → Steps c (e ∷ es) d'

  -- The runs of the machine, from the last event back.
  pub data Trace (s : Statuses) : List (Event F) → Statuses → Type 0 where
    rest : Trace s [] s
    then_event :
        {es : List (Event F)} {e : Event F} {t t' : Statuses}
        → Trace s es t
        → Allowed e t t'
        → Trace s (e ∷ es) t'
