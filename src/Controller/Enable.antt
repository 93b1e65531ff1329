-- ===== src/Controller/Enable.antt =====
-- What `enable` leaves, for the fan and for the other Dell fans.
use Prim.Native.String.{String}
use text.Mathlib.Text.{◌==◌}
use text.Mathlib.TextEquality.{eq_iff}
use text.Mathlib.TextPositions.{eq_refl}
use mathlib.Core.Path.{subst}
use fancon.Common.{
  sym, ◌≡◌, ◌≢◌, ◌⊎◌, inl, inr, ◌↔◌, refl, true, false, not, ◌&&◌, List, [], ◌∷◌, arith,
  if◌then◌else◌, Elem,
}
use fancon.Controller.{
  FanStatus, enabled, disabled, FanOps, updates, Controller, find, contains, emplace, is_testing,
  task_status, status, try_enable, enable_with, enable_one, enable_each_dell, enable, is_dell,
}
use fancon.Controller.Maps.{find-emplace, contains-find}
use fancon.Controller.Tasks.{starts, status-enable_one}

module _ {F W : Type 0} (ops : FanOps F W) where
  abbrev Kept : FanStatus → FanStatus → Type 0
  Kept after before = (after ≡ enabled) ⊎ (after ≡ before)

  one_Kept :
      (x : String) (f : F) (c : Controller F W)
      → Kept (status ops x (enable_one ops f c)) (status ops x c)
  one_Kept x f c = ground (arith, (status-enable_one ops f c).0 x)

  -- Enabling Dell fans ends no task.
  each_Kept :
      (x except : String) (fans : List (String × F)) (c : Controller F W)
      → Kept (status ops x (enable_each_dell ops except fans c)) (status ops x c)
  unfolding enable_each_dell
  each_Kept x except [] c = inr refl
  each_Kept x except ((fl, f) ∷ fans) c = ground (
    arith,
    each_Kept x except fans (enable_one ops f c),
    each_Kept x except fans c,
    one_Kept x f c,
  )

  -- The task that `enable` adds is the fan's, after those of the others.
  emplaced :
      (x : String) (f : F) (c : Controller F W)
      → task_status ops (find x (emplace (ops.label f) (updates f) c.tasks)) ≡ (
          if ops.label f == x && not (contains (ops.label f) c.tasks)
          then enabled
          else status ops x c)
  unfolding status task_status is_testing
  emplaced x f c =
      ground (arith, find-emplace x (ops.label f) (updates f) c.tasks, eq_iff (ops.label f) x)

  has_task :
      (x : String) (c : Controller F W) → (contains x c.tasks ≡ true) ↔ (status ops x c ≢ disabled)
  unfolding status task_status
  has_task x c = ground (arith, contains-find x c.tasks)

  abbrev tried : F → Controller F W → Controller F W
  tried f c = record c { world = (try_enable ops f c.world).1 }

  abbrev dells : F → Controller F W → Controller F W
  dells f c = enable_each_dell ops (ops.label f) c.fans (tried f c)

  status-enable-starts :
      (x : String) (f : F) (c : Controller F W)
      → is_dell ops f ≡ true
      → starts ops f c ≡ true
      → status ops x (enable ops f c) ≡ (
          if ops.label f == x && not (contains (ops.label f) (dells f c).tasks)
          then enabled
          else status ops x (dells f c))
  unfolding status enable enable_with
  status-enable-starts x f c d s = ground (arith, emplaced x f (dells f c), d, s)

  -- The fan can take control, and is configured.
  abbrev pub Ready : F → Type 0
  Ready g =
      (ops.ignore g ≡ false)
      × (ops.is_configured g ≡ true)
      × ((w : W) → (ops.enable_control g w).0 ≡ true)

  one_enabled :
      (g : F) (c : Controller F W)
      → Ready g
      → status ops (ops.label g) (enable_one ops g c) ≢ disabled
  unfolding try_enable
  one_enabled g c (i, k, r) = ground (
    arith,
    (status-enable_one ops g c).0 (ops.label g),
    has_task (ops.label g) c,
    eq_refl (ops.label g),
    r c.world,
    i,
    k,
  )

  first_enabled :
      (except fl : String) (g : F) (fans : List (String × F)) (c : Controller F W)
      → is_dell ops g ≡ true
      → fl ≢ except
      → Ready g
      → status ops (ops.label g) (enable_each_dell ops except ((fl, g) ∷ fans) c) ≢ disabled
  unfolding enable_each_dell
  first_enabled except fl g fans c d n r = ground (
    arith,
    each_Kept (ops.label g) except fans (enable_one ops g c),
    one_enabled g c r,
    eq_iff fl except,
    d,
    n,
  )

  each_enabled :
      (except : String) (fans : List (String × F)) (c : Controller F W) (fl : String) (g : F)
      → Elem (fl, g) fans
      → is_dell ops g ≡ true
      → fl ≢ except
      → Ready g
      → status ops (ops.label g) (enable_each_dell ops except fans c) ≢ disabled
  unfolding enable_each_dell try_enable
  each_enabled except [] c fl g e d n r = absurd e
  each_enabled except ((fl, g) ∷ fans) c fk h (inl e) d n r =
      subst
        (λ p.
          is_dell ops p.1 ≡ true
          → p.0 ≢ except
          → Ready p.1
          → status ops (ops.label p.1) (enable_each_dell ops except ((fl, g) ∷ fans) c) ≢ disabled)
        (sym e) (first_enabled except fl g fans c) d n r
  each_enabled except ((fl, g) ∷ fans) c fk h (inr e) d n r = ground (
    arith,
    each_enabled except fans (enable_one ops g c) fk h e d n r,
    each_enabled except fans c fk h e d n r,
  )

  -- Dell fans are enabled together: where `enable` starts a Dell fan, that fan is enabled, and each
  -- other Dell fan of the devices that is not ignored, always can take control and is configured has
  -- a task afterwards.
  pub status-enable_dell :
      (f : F) (c : Controller F W) (fl : String) (g : F)
      → is_dell ops f ≡ true
      → starts ops f c ≡ true
      → Elem (fl, g) c.fans
      → is_dell ops g ≡ true
      → fl ≢ ops.label f
      → Ready g
      → (status ops (ops.label f) (enable ops f c) ≡ enabled)
        × (status ops (ops.label g) (enable ops f c) ≢ disabled)
  status-enable_dell f c fl g d s e dg n r = (
    ground (
      arith,
      status-enable-starts (ops.label f) f c d s,
      each_Kept (ops.label f) (ops.label f) c.fans (tried f c),
      eq_refl (ops.label f),
      has_task (ops.label f) (tried f c),
      has_task (ops.label f) (dells f c),
      s,
    ),
    ground (
      arith,
      status-enable-starts (ops.label g) f c d s,
      each_enabled (ops.label f) c.fans (tried f c) fl g e dg n r,
    ),
  )
