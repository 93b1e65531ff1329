-- ===== src/Devices/Enumerate.antt =====
-- src/Devices.cpp: `SensorChips::enumerate`, the fans and sensors of the chips that libsensors lists, and
-- `Devices(true)`. The chips, with what libsensors says of their features, are parameters.
pub mod Valid
use Prim.Native.String.{String}
use Prim.Native.String
use fancon.Common.{
  ℕ, ◌≡◌, Bool, true, false, not, ◌&&◌, Option, none, some, List, [], ◌∷◌, if◌then◌else◌, All,
}
use fancon.Common.Words.{u32_mod}
use fancon.Controller.Maps.{Distinct}
use fancon.Util.Text.{codes, postfix_num}
use fancon.Dell.Smm.{is_smm_dell}
use fancon.Devices.{assign}

pub data FeatureType : Type 0 where
  feature_fan feature_temp feature_other : FeatureType

-- A feature, with the flags of its input's subfeature, if there is one.
pub record Feature : Type 0 where
  pub feature_type : FeatureType
  pub name : String
  pub label : Option String
  pub input : Option (Bool × Bool)

pub record Chip : Type 0 where
  pub path : String
  pub filename : String
  pub chip_name : String
  pub features : List Feature

-- The constructors of the devices, and `valid`.
pub record Makers (F S : Type 0) : Type 0 where
  pub fan_dell : String → String → ℕ → F
  pub fan_sysfs : String → String → ℕ → F
  pub sensor_sysfs : String → String → S
  pub valid_fan : F → Bool
  pub valid_sensor : S → Bool

unfoldable pub value_or : {A : Type 0} → Option A → A → A
value_or none a = a
value_or (some b) a = b

unfoldable pub device_label : Chip → Feature → String
unfolding value_or
device_label sc sf = String.◌++◌ sc.filename (String.◌++◌ "/" (value_or sf.label sf.name))

-- Its input is there, can be read and is computed.
unfoldable pub usable : Option (Bool × Bool) → Bool
usable none = false
usable (some (readable, compute_mapping)) = readable && compute_mapping

module _ {F S : Type 0} (make : Makers F S) where
  unfoldable pub add_fan : Bool → Chip → Feature → List (String × F) → List (String × F)
  unfolding device_label value_or
  add_fan is_dell sc sf fans =
      let id = value_or (postfix_num u32_mod (codes sf.name)) 0 in
      let label = device_label sc sf in
      let fan =
        (if is_dell then make.fan_dell label sc.path id else make.fan_sysfs label sc.path id) in
      if make.valid_fan fan then assign label fan fans else fans

  unfoldable pub add_sensor : Chip → Feature → List (String × S) → List (String × S)
  unfolding device_label
  add_sensor sc sf sensors =
      let label = device_label sc sf in
      let sensor = make.sensor_sysfs label (String.◌++◌ sc.path (String.◌++◌ "/" sf.name)) in
      if make.valid_sensor sensor then assign label sensor sensors else sensors

  -- One feature.
  unfoldable pub add_feature :
      Bool
      → Chip
      → Feature
      → List (String × F) × List (String × S)
      → List (String × F) × List (String × S)
  unfolding add_fan add_sensor usable
  add_feature is_dell sc sf (fans, sensors) =
      if not (usable sf.input) then (fans, sensors) else elim sf.feature_type [
        | feature_fan ↦ (add_fan is_dell sc sf fans, sensors)
        | feature_temp ↦ (fans, add_sensor sc sf sensors)
        | feature_other ↦ (fans, sensors)
      ]

  unfoldable pub add_features :
      Bool
      → Chip
      → List Feature
      → List (String × F) × List (String × S)
      → List (String × F) × List (String × S)
  unfolding add_feature
  add_features is_dell sc [] s = s
  add_features is_dell sc (sf ∷ features) s =
      add_features is_dell sc features (add_feature is_dell sc sf s)

  -- The loop over the chips; `found` is the result of `SMM::found`.
  unfoldable pub enumerate :
      Bool
      → List Chip
      → List (String × F) × List (String × S)
      → List (String × F) × List (String × S)
  unfolding add_features
  enumerate found [] s = s
  enumerate found (sc ∷ chips) s =
      enumerate found chips
        (add_features (is_smm_dell (codes "dell_smm") (codes sc.chip_name) found) sc sc.features s)

  -- The devices are valid, and no label stands twice.
  abbrev pub Valid : List (String × F) × List (String × S) → Type 0
  Valid (fans, sensors) =
      (All (λ e. make.valid_fan e.1 ≡ true) fans × Distinct fans)
      × (All (λ e. make.valid_sensor e.1 ≡ true) sensors × Distinct sensors)
