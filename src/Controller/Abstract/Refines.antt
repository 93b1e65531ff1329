-- ===== src/Controller/Abstract/Refines.antt =====
-- Each step of the controller is one of the machine.
use Prim.Native.String.{String}
use text.Mathlib.TextEquality.{eq_iff}
use text.Mathlib.TextPositions.{eq_refl}
use fancon.Common.{
  ℕ, Bool, sym, ◌∙◌, ◌≡◌, ◌≢◌, inl, inr, refl, true, false, some, List, [], ◌∷◌, arith, All,
  Bool-cases, ap,
}
use fancon.Controller.{
  disabled, testing, FanOps, updates, Controller, find, contains, emplace, status, task_status,
  is_testing, try_enable, enable_with, enable_one, enable, enable_each_dell, enable_each,
  enable_all, disable, disable_all, recover, erase_task,
}
use fancon.Controller.Maps.{find-emplace, contains-find, find-none}
use fancon.Controller.Tasks.{status-enable_one, status-disable_all}
use fancon.Controller.Test.{test, finish_test, reset_test_status, set_devices}
use fancon.Controller.Blocked.{
  disable_or_hang, disable_all_or_hang, test_or_hang, set_devices_or_hang,
}
use mathlib.Core.Path.{subst}
use fancon.Controller.Test.Status.{status-test}
use fancon.Controller.Test.Finish.{saved, status-saved}
use fancon.Controller.Merge.Removed.{status-disable-Lost}
use fancon.Controller.Abstract.Reloaded.{reload-status, reload-Idle}
use fancon.Controller.Abstract.{
  Event, enables, enables_all, disables, disables_all, starts_test, ends_test, sets_devices,
  recovers, reloads, Statuses, Raised, Allowed, Step, enabling, enabling_all, disabling,
  disabling_all, testing_one, ending, setting, recovering, reloading, reloading_config, Steps, stay,
  then_step, Trace, rest, then_event,
}

module _ {F W : Type 0} (ops : FanOps F W) where
  idle_status :
      (x : String) (c : Controller F W) → contains x c.tasks ≡ false → status ops x c ≡ disabled
  unfolding status task_status
  idle_status x c h = ground (arith, find-none x c.tasks h)

  busy_status :
      (x : String) (c : Controller F W) → contains x c.tasks ≡ true → status ops x c ≢ disabled
  unfolding status task_status
  busy_status x c h = ground (arith, contains-find x c.tasks, h)

  one_Raised :
      (x : String) (f : F) (c : Controller F W)
      → Raised (status ops x (enable_one ops f c)) (status ops x c)
  one_Raised x f c =
      ground (arith, (status-enable_one ops f c).0 x, eq_iff (ops.label f) x, idle_status x c)

  each_Raised :
      (x : String) (fans : List (String × F)) (c : Controller F W)
      → Raised (status ops x (enable_each ops fans c)) (status ops x c)
  unfolding enable_each
  each_Raised x [] c = inl refl
  each_Raised x ((fl, f) ∷ fans) c =
      ground (arith, each_Raised x fans (enable_one ops f c), one_Raised x f c)

  dells_Raised :
      (x except : String) (fans : List (String × F)) (c : Controller F W)
      → Raised (status ops x (enable_each_dell ops except fans c)) (status ops x c)
  unfolding enable_each_dell
  dells_Raised x except [] c = inl refl
  dells_Raised x except ((fl, f) ∷ fans) c = ground (
    arith,
    dells_Raised x except fans (enable_one ops f c),
    dells_Raised x except fans c,
    one_Raised x f c,
  )

  -- The fan's own task is added last.
  added_Raised :
      (x : String) (f : F) (c d : Controller F W)
      → contains (ops.label f) c.tasks ≡ false
      → Raised (status ops x d) (status ops x c)
      → Raised
          (task_status ops (find x (emplace (ops.label f) (updates f) d.tasks)))
          (status ops x c)
  unfolding task_status is_testing status
  added_Raised x f c d n h = ground (
    arith,
    find-emplace x (ops.label f) (updates f) d.tasks,
    eq_iff (ops.label f) x,
    idle_status (ops.label f) c n,
    h,
  )

  enable_Raised :
      (x : String) (f : F) (c : Controller F W)
      → Raised (status ops x (enable ops f c)) (status ops x c)
  unfolding enable enable_with status
  enable_Raised x f c =
      let tried : Controller F W = record c { world = (try_enable ops f c.world).1 } in
      ground (
        arith,
        added_Raised x f c tried,
        added_Raised x f c (enable_each_dell ops (ops.label f) c.fans tried),
        dells_Raised x (ops.label f) c.fans tried,
      )

  enable_busy :
      (f : F) (c : Controller F W) → contains (ops.label f) c.tasks ≡ true → enable ops f c ≡ c
  unfolding enable enable_with
  enable_busy f c h = rw h refl

  ended_by :
      (f : F) (c d : Controller F W)
      → finish_test ops f c ≡ some d
      → d ≡ enable ops f (erase_task ops (ops.label f) (saved ops f c))
  unfolding finish_test reset_test_status
  ended_by f c d h = ground (arith, h)

  disabled_by :
      (flabel : String) (c d : Controller F W)
      → disable_or_hang ops flabel c ≡ some d
      → d ≡ disable ops flabel c
  unfolding disable_or_hang
  disabled_by flabel c d h = ground (arith, h)

  all_disabled_by :
      (c d : Controller F W) → disable_all_or_hang ops c ≡ some d → d ≡ disable_all ops c
  unfolding disable_all_or_hang
  all_disabled_by c d h = ground (arith, h)

  tested_by :
      (forced blocking : Bool) (observers : ℕ) (f : F) (c d : Controller F W)
      → test_or_hang ops forced blocking observers f c ≡ some d
      → d ≡ test ops forced observers f c
  unfolding test_or_hang
  tested_by forced blocking observers f c d h = ground (arith, h)

  set_by :
      (fans : List (String × F)) (c d : Controller F W)
      → set_devices_or_hang ops fans c ≡ some d
      → d ≡ set_devices ops fans c
  unfolding set_devices_or_hang
  set_by fans c d h = ground (arith, h)

  set_Raised :
      (x : String) (fans : List (String × F)) (c : Controller F W)
      → Raised (status ops x (set_devices ops fans c)) disabled
  unfolding set_devices enable_all status
  set_Raised x fans c =
      let stopped : Controller F W = disable_all ops c in
      ground (
        arith,
        each_Raised x fans (record stopped { fans = fans; world = ops.to_file fans stopped.world }),
        status-disable_all ops x c,
      )

  -- A step of the controller changes the statuses as the machine allows: an enabling call moves fans
  -- from disabled to enabled only, and none if its fan is not disabled; a disabling call disables its
  -- fan, or all, and enables none; the start of a test changes the status of its fan alone, to
  -- testing, if the fan is not ignored and is untested or forced; the end of a test leaves its fan
  -- disabled or enabled, and may enable other fans that are disabled; new devices leave each fan
  -- disabled or enabled; a recovery and a reload without a configuration change no status; and a
  -- reload with one, while no fan is under test, starts no test.
  pub Step-Allowed :
      {c d : Controller F W} {e : Event F}
      → Step ops c e d
      → Allowed ops e (λ x. status ops x c) (λ x. status ops x d)
  Step-Allowed {c} (enabling f) = (
    λ x. enable_Raised x f c,
    λ h x. elim (Bool-cases (contains (ops.label f) c.tasks)) [
      | inl busy ↦ ap (status ops x) (enable_busy f c busy)
      | inr idle ↦ absurd (h (idle_status (ops.label f) c idle))
    ],
  )
  Step-Allowed {c} enabling_all = unfold enable_all in λ x. each_Raised x c.fans c
  Step-Allowed {c} {d} (disabling flabel h) =
      let e = disabled_by flabel c d h in
      subst (λ d. Allowed ops (disables flabel) (λ x. status ops x c) (λ x. status ops x d)) (sym e)
        (
          ground (arith, status-disable-Lost ops flabel flabel c, eq_refl flabel),
          λ x. ground (arith, status-disable-Lost ops x flabel c),
        )
  Step-Allowed {c} {d} (disabling_all h) =
      λ x. ap (status ops x) (all_disabled_by c d h) ∙ status-disable_all ops x c
  Step-Allowed {c} {d} (testing_one forced blocking observers f h) = λ x.
      ap (status ops x) (tested_by forced blocking observers f c d h)
      ∙ status-test ops x forced observers f c
  Step-Allowed {c} {d} (ending f h) = λ x. ground (
    arith,
    ap (status ops x) (ended_by f c d h),
    status-saved ops x f c,
    enable_Raised x f (erase_task ops (ops.label f) (saved ops f c)),
  )
  Step-Allowed {c} {d} (setting fans h) = λ x.
      subst (λ d. Raised (status ops x d) disabled) (sym (set_by fans c d h)) (set_Raised x fans c)
  Step-Allowed {c} recovering = unfold recover status in λ x. refl
  Step-Allowed {c} {d} (reloading enumerated h) = λ x. reload-status ops x enumerated c d h
  Step-Allowed {c} {d} (reloading_config enumerated conf_devs idle h) =
      reload-Idle ops enumerated conf_devs c d h idle

  -- Any run of the controller, through calls and ends of tests in any order, shows a run of the machine
  -- with the same events. Each call is taken to return and to be defined: none disables a fan under
  -- test, reloads a configuration while one is, or reloads away a device.
  pub Steps-Trace :
      {c d : Controller F W} {es : List (Event F)}
      → Steps ops c es d
      → Trace ops (λ x. status ops x c) es (λ x. status ops x d)
  Steps-Trace stay = rest
  Steps-Trace (then_step r s) = then_event (Steps-Trace r) (Step-Allowed s)

  abbrev pub Harmless : String → Event F → Type 0
  Harmless x (disables flabel) = ⊥
  Harmless x disables_all = ⊥
  Harmless x (sets_devices fans) = ⊥
  Harmless x (reloads enumerated conf) = ⊥
  Harmless x (ends_test f) = ops.label f ≢ x
  Harmless x e = Unit

  Allowed-testing :
      (x : String) (e : Event F) (s t : Statuses)
      → Harmless x e
      → Allowed ops e s t
      → s x ≡ testing
      → t x ≡ testing
  Allowed-testing x (enables f) s t h a k = ground (arith, a.0 x, k)
  Allowed-testing x enables_all s t h a k = ground (arith, a x, k)
  Allowed-testing x (disables flabel) s t h a k = absurd h
  Allowed-testing x disables_all s t h a k = absurd h
  Allowed-testing x (starts_test forced observers f) s t h a k = ground (arith, a x, k)
  Allowed-testing x (sets_devices fans) s t h a k = absurd h
  Allowed-testing x (reloads enumerated conf) s t h a k = absurd h
  Allowed-testing x recovers s t h a k = ground (arith, a x, k)
  Allowed-testing x (ends_test f) s t h a k = ground (arith, a x, k, h, eq_iff (ops.label f) x)

  Trace-testing :
      (x : String) (es : List (Event F)) {s t : Statuses}
      → Trace ops s es t
      → All (Harmless x) es
      → s x ≡ testing
      → t x ≡ testing
  Trace-testing x [] rest h k = k
  Trace-testing x (e ∷ es) (then_event {t} {t'} r a) h k =
      Allowed-testing x e t t' h.0 a (Trace-testing x es r h.1 k)

  -- A fan under test stays under test through any run of the controller that disables no fan, sets no
  -- devices and reloads none, and in which no test of that fan ends, whatever is enabled or tested in
  -- between.
  pub Steps-testing :
      (x : String) {c d : Controller F W} {es : List (Event F)}
      → Steps ops c es d
      → All (Harmless x) es
      → status ops x c ≡ testing
      → status ops x d ≡ testing
  Steps-testing x {c} {d} {es} r h k = Trace-testing x es (Steps-Trace r) h k
