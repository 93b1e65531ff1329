-- ===== src/Controller/Merge/Removed.antt =====
-- What `disable` and a reload leave, and which reloads are defined.
use Prim.Native.String.{String}
use text.Mathlib.Text.{◌==◌}
use text.Mathlib.TextEquality.{eq_iff}
use fancon.Common.{
  if-cases, ◌∙◌, ◌≡◌, refl, ap, Bool, true, false, not, ◌&&◌, ◌⊎◌, Option, none, some, List, [],
  ◌∷◌, arith, if◌then◌else◌,
}
use fancon.Controller.{
  FanStatus, disabled, FanOps, Controller, find, contains, status, task_status, is_dell, place,
  emplace, disable_with, disable_one, disable_each_dell, disable, erase_task,
}
use fancon.Controller.Maps.{find-erase, find-none}
use fancon.Controller.Tasks.{status-disable_one, status-disable_each_dell}
use fancon.Controller.Merge.{
  any_contains, after_erased, remove_each, remove_devices_not_in, find_hw, merge_one, merge_each,
  merge, reload,
}
use text.Mathlib.TextPositions.{eq_refl}
use fancon.Controller.Merge.Added.{merge-flag}

module _ {F W : Type 0} (ops : FanOps F W) where
  fans-disable_each_dell :
      (except : String) (fans : List (String × F)) (c : Controller F W)
      → (disable_each_dell ops except fans c).fans ≡ c.fans
  unfolding disable_each_dell
  fans-disable_each_dell except [] c = refl
  fans-disable_each_dell except ((fl, f) ∷ fans) c = ground (
    arith,
    fans-disable_each_dell except fans (disable_one ops fl c),
    fans-disable_each_dell except fans c,
    (status-disable_one ops fl c).1,
  )

  -- What holds of the controller before and after the task is erased, and after the loop over the
  -- Dell fans where it held before that loop, holds after `disable`.
  disable_rule :
      (P : Controller F W → Type 0) (flabel : String) (c : Controller F W)
      → (contains flabel c.tasks ≡ false → P c)
      → P (erase_task ops flabel c)
      → ((w : W) → P (record (erase_task ops flabel c) { world = w }))
      → ((d : Controller F W) → P d → P (disable_each_dell ops flabel d.fans d))
      → P (disable ops flabel c)
  unfolding disable disable_with
  disable_rule P flabel c p e w k =
      if-cases P (not (contains flabel c.tasks)) (λ h. p (ground (arith, h)))
        (λ h. rest (find flabel c.fans))
    where
      others : F → Controller F W → Controller F W
      others f d = if is_dell ops f then disable_each_dell ops flabel d.fans d else d

      ended : Controller F W
      ended = erase_task ops flabel c

      rest :
          (o : Option F)
          → P (elim o [
            | none ↦ ended
            | some f ↦ others f (record ended { world = ops.disable_control f ended.world })
          ])
      rest none = e
      rest (some f) = if-cases P (is_dell ops f) (λ h. k _ (w _)) (λ h. w _)

  pub fans-disable : (flabel : String) (c : Controller F W) → (disable ops flabel c).fans ≡ c.fans
  unfolding erase_task
  fans-disable flabel c =
      disable_rule (λ d. d.fans ≡ c.fans) flabel c (λ h. refl) refl (λ w. refl)
        (λ d h. fans-disable_each_dell flabel d.fans d ∙ h)

  -- `disable` starts no task.
  abbrev pub Lost : FanStatus → FanStatus → Type 0
  Lost after before = (after ≡ disabled) ⊎ (after ≡ before)

  status-each_dell :
      (x except : String) (fans : List (String × F)) (c : Controller F W)
      → Lost (status ops x (disable_each_dell ops except fans c)) (status ops x c)
  status-each_dell x except fans c = ground (arith, status-disable_each_dell ops except x fans c)

  pub status-disable-Lost :
      (x flabel : String) (c : Controller F W)
      → Lost
          (status ops x (disable ops flabel c))
          (if flabel == x then disabled else status ops x c)
  unfolding status task_status erase_task
  status-disable-Lost x flabel c =
      disable_rule (λ d. Lost (status ops x d) (if flabel == x then disabled else status ops x c))
        flabel c (λ h. ground (arith, find-none flabel c.tasks h, eq_iff flabel x))
        (ground (arith, find-erase x flabel c.tasks))
        (λ w. ground (arith, find-erase x flabel c.tasks))
        (λ d h. ground (arith, h, status-each_dell x flabel d.fans d))

  -- The labels all stand in one of the lists.
  abbrev pub all_in : List (List (String × F)) → List (String × F) → Bool
  all_in l [] = true
  all_in l ((k, f) ∷ fans) = any_contains ops k l && all_in l fans

  pub remove_each-all_in :
      (l : List (List (String × F))) (fans : List (String × F)) (c : Controller F W)
      → remove_each ops l fans c ≡ (if all_in l fans then some c else none)
  unfolding remove_each after_erased
  remove_each-all_in l [] c = refl
  remove_each-all_in l ((flabel, f) ∷ fans) c = ground (arith, remove_each-all_in l fans c)

  all_in-place :
      (l : List (List (String × F))) (k : String) (f : F) (fans : List (String × F))
      → all_in l (place k f fans) ≡ any_contains ops k l && all_in l fans
  unfolding place
  all_in-place l k f [] = refl
  all_in-place l k f ((j, g) ∷ fans) = ground (arith, all_in-place l k f fans)

  all_in-contains :
      (l : List (List (String × F))) (k : String) (fans : List (String × F))
      → contains k fans ≡ true
      → all_in l fans ≡ true
      → any_contains ops k l ≡ true
  unfolding contains
  all_in-contains l k [] h a = absurd (ground (arith, h))
  all_in-contains l k ((j, g) ∷ fans) h a =
      ground (arith, all_in-contains l k fans, eq_iff j k, h, a)

  -- A merged device has a label that is listed.
  all_in-emplace :
      (l : List (List (String × F))) (k : String) (f : F) (fans : List (String × F))
      → any_contains ops k l ≡ true
      → all_in l (emplace k f fans) ≡ all_in l fans
  unfolding emplace
  all_in-emplace l k f fans h = ground (arith, all_in-place l k f fans, h)

  all_in-merge_each :
      (l : List (List (String × F))) (src : List (String × F)) (c : Controller F W) (b : Bool)
      → all_in l src ≡ true
      → all_in l (merge_each ops false false src (c, b)).0.fans ≡ all_in l c.fans
  unfolding merge_each
  all_in-merge_each l [] c b h = refl
  all_in-merge_each l ((k, f) ∷ src) c b h =
      let o = find_hw ops (ops.hw_id f) c.fans in
      let s = merge_one ops false false k f o (c, b) in
      all_in-merge_each l src s.0 s.1 (ground (arith, h)) ∙ one o
    where
      one :
          (o : Option (String × F))
          → all_in l (merge_one ops false false k f o (c, b)).0.fans ≡ all_in l c.fans
      one none = unfold merge_one in all_in-emplace l k f c.fans (ground (arith, h))
      one (some (j, g)) = unfold merge_one in refl

  all_in_self :
      (fans src : List (String × F))
      → ((x : String) → contains x src ≡ true → contains x fans ≡ true)
      → all_in (fans ∷ []) src ≡ true
  unfolding contains any_contains
  all_in_self fans [] h = refl
  all_in_self fans ((k, f) ∷ src) h =
      ground (arith, h k, eq_refl k, all_in_self fans src (λ x e. h x (ground (arith, e))))

  -- A reload without a configuration is defined only where every device that is there is still
  -- enumerated, by its label: it then merges the enumerated devices and ends. Where a device is not
  -- enumerated any more, its removal is undefined behaviour.
  pub reload-all_in :
      (enumerated : List (String × F)) (c : Controller F W)
      → reload ops enumerated none c ≡ (
          if all_in (enumerated ∷ []) c.fans
          then some (merge ops false false enumerated c)
          else none)
  unfolding reload remove_devices_not_in
  reload-all_in enumerated c =
      let merged = merge ops false false enumerated c in
      let listed = all_in_self enumerated enumerated (λ x h. h) in
      remove_each-all_in (enumerated ∷ []) merged.fans merged
      ∙ ap (λ (b : Bool). if b then some merged else none)
          (ap (λ (d : Controller F W). all_in (enumerated ∷ []) d.fans)
              (merge-flag ops enumerated c)
            ∙ all_in-merge_each (enumerated ∷ []) enumerated c false listed)
