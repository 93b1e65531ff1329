-- ===== src/Controller/Sensors.antt =====
-- src/Controller.cpp: what `merge`, `remove_devices_not_in` and `reload` do with the sensors.
pub mod Unique
use Prim.Native.String.{String}
use text.Mathlib.Text.{◌==◌}
use fancon.Common.{
  ◌≡◌, ◌≢◌, Bool, true, false, not, ◌&&◌, ◌||◌, Option, none, some, List, [], ◌∷◌, if◌then◌else◌,
}
use fancon.Controller.{contains, erase, emplace}

-- What the controller asks of a sensor.
pub record SensorOps (S : Type 0) : Type 0 where
  pub hw_id : S → String
  pub deep_equal : S → S → Bool

module _ {S : Type 0} (ops : SensorOps S) where
  -- The first sensor that has the hardware's name.
  unfoldable pub find_sensor : String → List (String × S) → Option (String × S)
  find_sensor id [] = none
  find_sensor id ((l, s) ∷ sensors) =
      if ops.hw_id s == id then some (l, s) else find_sensor id sensors

  unfoldable pub merge_sensor :
      Bool → Bool → String → S → Option (String × S) → List (String × S) → List (String × S)
  merge_sensor replace_on_match deep_cmp key dev none dst = emplace key dev dst
  merge_sensor replace_on_match deep_cmp key dev (some (old_key, old)) dst =
      if replace_on_match && (not deep_cmp || not (ops.deep_equal dev old))
      then emplace key dev (erase old_key dst)
      else dst

  unfoldable pub merge_sensors :
      Bool → Bool → List (String × S) → List (String × S) → List (String × S)
  merge_sensors replace_on_match deep_cmp [] dst = dst
  merge_sensors replace_on_match deep_cmp ((key, dev) ∷ src) dst =
      merge_sensors replace_on_match deep_cmp src
        (merge_sensor replace_on_match deep_cmp key dev (find_sensor (ops.hw_id dev) dst) dst)

  -- `any_of` over the devices.
  unfoldable pub listed : String → List (List (String × S)) → Bool
  listed slabel [] = false
  listed slabel (d ∷ l) = contains slabel d || listed slabel l

  -- The loop over the sensors goes on from an element that its body has erased, which is undefined.
  unfoldable pub after_erased : List (String × S) → Option (List (String × S))
  after_erased dst = none

  -- The loop of `remove_devices_not_in`.
  unfoldable pub remove_sensors :
      List (List (String × S)) → List (String × S) → List (String × S) → Option (List (String × S))
  unfolding after_erased
  remove_sensors l [] dst = some dst
  remove_sensors l ((slabel, s) ∷ sensors) dst =
      let rest = remove_sensors l sensors dst in
      if not (listed slabel l) then after_erased (erase slabel dst) else rest

  -- The sensors after `reload`, with those that are enumerated and those of the configuration, if
  -- there is one; `none` stands for undefined behaviour.
  unfoldable pub reload_sensors :
      List (String × S)
      → Option (List (String × S))
      → List (String × S)
      → Option (List (String × S))
  reload_sensors enumerated none sensors =
      let merged = merge_sensors false false enumerated sensors in
      remove_sensors (enumerated ∷ []) merged merged
  reload_sensors enumerated (some conf_devs) sensors =
      let merged =
        merge_sensors true true conf_devs (merge_sensors false false enumerated sensors) in
      remove_sensors (enumerated ∷ conf_devs ∷ []) merged merged

  -- No sensor has the hardware's name.
  abbrev pub NoHw : String → List (String × S) → Type 0
  NoHw id [] = Unit
  NoHw id ((l, s) ∷ sensors) = (ops.hw_id s ≢ id) × NoHw id sensors

  -- No two sensors have the same label, and none the same hardware.
  abbrev pub OneEach : List (String × S) → Type 0
  OneEach [] = Unit
  OneEach ((l, s) ∷ sensors) =
      (contains l sensors ≡ false) × NoHw (ops.hw_id s) sensors × OneEach sensors
