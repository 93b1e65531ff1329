-- ===== src/Controller/Merge/Added.antt =====
-- Merging the devices that are enumerated adds those that are new.
use Prim.Native.String.{String}
use text.Mathlib.TextEquality.{eq_iff}
use fancon.Common.{◌∙◌, ◌≡◌, refl, Bool, false, Option, none, some, List, [], ◌∷◌, arith}
use fancon.Controller.{FanOps, Controller, find}
use fancon.Controller.Maps.{find-emplace, contains-find}
use fancon.Controller.Merge.{find_hw, merge_one, merge_each, merge}

module _ {F W : Type 0} (ops : FanOps F W) where
  -- The devices that are there stay there, and no task changes.
  abbrev pub Added : Controller F W → Controller F W → Type 0
  Added c d =
      ((x : String) (f : F) → find x c.fans ≡ some f → find x d.fans ≡ some f)
      × (d.tasks ≡ c.tasks)
      × (d.world ≡ c.world)

  merge_one-Added :
      (key : String) (dev : F) (o : Option (String × F)) (c : Controller F W) (b : Bool)
      → Added c (merge_one ops false false key dev o (c, b)).0
        × ((merge_one ops false false key dev o (c, b)).1 ≡ b)
  unfolding merge_one
  merge_one-Added key dev none c b = (
    (
      λ x f h.
          ground (arith, find-emplace x key dev c.fans, contains-find key c.fans, h, eq_iff key x),
      refl,
      refl,
    ),
    refl,
  )
  merge_one-Added key dev (some (k, g)) c b = ((λ x f h. h, refl, refl), refl)

  merge_each-Added :
      (src : List (String × F)) (c : Controller F W) (b : Bool)
      → Added c (merge_each ops false false src (c, b)).0
        × ((merge_each ops false false src (c, b)).1 ≡ b)
  unfolding merge_each
  merge_each-Added [] c b = ((λ x f h. h, refl, refl), refl)
  merge_each-Added ((key, dev) ∷ src) c b =
      let o : Option (String × F) = find_hw ops (ops.hw_id dev) c.fans in
      let s : Controller F W × Bool = merge_one ops false false key dev o (c, b) in
      let ((fans₁, tasks₁, world₁), flag₁) = merge_one-Added key dev o c b in
      let ((fans₂, tasks₂, world₂), flag₂) = merge_each-Added src s.0 s.1 in
      ((λ x f h. fans₂ x f (fans₁ x f h), tasks₂ ∙ tasks₁, world₂ ∙ world₁), flag₂ ∙ flag₁)

  -- Merging the enumerated devices leaves each device that is there under its label, and all tasks
  -- and the hardware as they are.
  pub merge-Added :
      (src : List (String × F)) (c : Controller F W) → Added c (merge ops false false src c)
  unfolding merge
  merge-Added src c =
      let ((fans, tasks, world), flag) = merge_each-Added src c false in
      rw flag (fans, tasks, world)

  -- No Dell fan was enabled.
  pub merge-flag :
      (src : List (String × F)) (c : Controller F W)
      → merge ops false false src c ≡ (merge_each ops false false src (c, false)).0
  unfolding merge
  merge-flag src c = rw (merge_each-Added src c false).1 refl
