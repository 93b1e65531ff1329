-- ===== src/Controller/Merge.antt =====
-- src/Controller.cpp: `merge`, `remove_devices_not_in` and `reload`, for the fans.
pub mod Added
pub mod Removed
use Prim.Native.String.{String}
use text.Mathlib.Text.{◌==◌}
use fancon.Common.{
  ℕ, Bool, true, false, not, ◌&&◌, ◌||◌, Option, none, some, List, [], ◌∷◌, if◌then◌else◌,
}
use fancon.Controller.{
  FanStatus, enabled, disabled, testing, FanOps, FanTask, tests, Controller, find, contains, erase,
  emplace, status, is_dell, enable_one, disable_one, disable,
}
use fancon.Controller.Test.{test}

module _ {F W : Type 0} (ops : FanOps F W) where
  -- The first device that has the hardware's name.
  unfoldable pub find_hw : String → List (String × F) → Option (String × F)
  find_hw id [] = none
  find_hw id ((fl, f) ∷ fans) = if ops.hw_id f == id then some (fl, f) else find_hw id fans

  -- The old device is erased; a third device that has the new key already stays there.
  unfoldable pub re_insert : String → String → F → Controller F W → Controller F W
  re_insert old_key new_key dev c = record c { fans = emplace new_key dev (erase old_key c.fans) }

  -- `enable_fan`, with the flag `dell_fan_enabled`.
  unfoldable pub enable_fan : Option F → Controller F W × Bool → Controller F W × Bool
  enable_fan none s = s
  enable_fan (some f) (c, dell) = (enable_one ops f c, dell || is_dell ops f)

  unfoldable pub configured_at : String → Controller F W → Bool
  configured_at key c = elim (find key c.fans) [ none ↦ false | some f ↦ ops.is_configured f ]

  -- The observers of a running test.
  unfoldable pub observers_of : Option (FanTask F) → ℕ
  observers_of (some (tests f (some n))) = n
  observers_of t = 0

  unfoldable pub test_again : Option F → ℕ → Controller F W → Controller F W
  test_again none observers c = c
  test_again (some f) observers c = test ops true observers f c

  -- `on_match`, for each status of the old device. Under test it is what the code does after a call of
  -- `disable` that never returns (Controller/Blocked.antt).
  unfoldable pub on_match :
      FanStatus → String → F → String → F → Controller F W × Bool → Controller F W × Bool
  on_match disabled old_key old new_key dev (c, dell) =
      let c' = re_insert old_key new_key dev c in
      if not (ops.is_configured old) && configured_at new_key c'
      then enable_fan (find new_key c'.fans) (c', dell)
      else (c', dell)
  on_match enabled old_key old new_key dev (c, dell) =
      let c' = re_insert old_key new_key dev (disable_one ops old_key c) in
      enable_fan (find new_key c'.fans) (c', dell)
  on_match testing old_key old new_key dev (c, dell) =
      let observers = observers_of (find old_key c.tasks) in
      let c' = re_insert old_key new_key dev (disable_one ops old_key c) in
      (test_again (find new_key c'.fans) observers c', dell)

  unfoldable pub merge_one :
      Bool → Bool → String → F → Option (String × F) → Controller F W × Bool → Controller F W × Bool
  merge_one replace_on_match deep_cmp key dev none (c, dell) =
      (record c { fans = emplace key dev c.fans }, dell)
  merge_one replace_on_match deep_cmp key dev (some (old_key, old)) (c, dell) =
      if replace_on_match && (not deep_cmp || not (ops.deep_equal dev old))
      then on_match (status ops old_key c) old_key old key dev (c, dell)
      else (c, dell)

  -- The loop over the devices to merge.
  unfoldable pub merge_each :
      Bool → Bool → List (String × F) → Controller F W × Bool → Controller F W × Bool
  merge_each replace_on_match deep_cmp [] s = s
  merge_each replace_on_match deep_cmp ((key, dev) ∷ src) s =
      merge_each replace_on_match deep_cmp src
        (merge_one replace_on_match deep_cmp key dev (find_hw (ops.hw_id dev) s.0.fans) s)

  -- `enable_dell_fans()`, with no exception.
  unfoldable pub enable_dell_fans : List (String × F) → Controller F W → Controller F W
  enable_dell_fans [] c = c
  enable_dell_fans ((fl, f) ∷ fans) c =
      enable_dell_fans fans (if is_dell ops f then enable_one ops f c else c)

  unfoldable pub merge : Bool → Bool → List (String × F) → Controller F W → Controller F W
  merge replace_on_match deep_cmp src c =
      let (c', dell) = merge_each replace_on_match deep_cmp src (c, false) in
      if dell then enable_dell_fans c'.fans c' else c'

  -- A key that stands in any of the devices.
  unfoldable pub any_contains : String → List (List (String × F)) → Bool
  any_contains flabel [] = false
  any_contains flabel (d ∷ l) = contains flabel d || any_contains flabel l

  -- The loop over the fans goes on from an element that its body has erased, which is undefined.
  unfoldable pub after_erased : Controller F W → Option (Controller F W)
  after_erased c = none

  -- The loop of `remove_devices_not_in`.
  unfoldable pub remove_each :
      List (List (String × F)) → List (String × F) → Controller F W → Option (Controller F W)
  unfolding after_erased
  remove_each l [] c = some c
  remove_each l ((flabel, f) ∷ fans) c =
      let stopped = disable ops flabel c in
      let rest = remove_each l fans c in
      if not (any_contains flabel l)
      then after_erased (record stopped { fans = erase flabel stopped.fans })
      else rest

  unfoldable pub remove_devices_not_in :
      List (List (String × F)) → Controller F W → Option (Controller F W)
  remove_devices_not_in l c = remove_each l c.fans c

  -- `reload`, with the fans that are enumerated and those of the configuration, if there is one; `none`
  -- stands for undefined behaviour.
  unfoldable pub reload :
      List (String × F) → Option (List (String × F)) → Controller F W → Option (Controller F W)
  reload enumerated none c =
      remove_devices_not_in (enumerated ∷ []) (merge false false enumerated c)
  reload enumerated (some conf_devs) c =
      remove_devices_not_in (enumerated ∷ conf_devs ∷ [])
        (merge true true conf_devs (merge false false enumerated c))
