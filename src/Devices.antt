-- ===== src/Devices.antt =====
-- src/Devices.cpp: `Devices::from`, the devices of a configuration.
pub mod Unique
pub mod Enumerate
pub mod Complete
pub mod Message
pub mod RoundTrip
mod Examples
use Prim.Native.String.{String}
use text.Mathlib.Text.{◌==◌}
use fancon.Common.{
  Bool, true, false, not, ◌&&◌, ◌||◌, Option, none, some, List, [], ◌∷◌, if◌then◌else◌,
}
use fancon.Controller.{DevType, sys, dell, nvidia, contains, put, place, emplace}

-- What `from` asks of a device that it has read.
pub record Loader (D : Type 0) : Type 0 where
  pub label : D → String
  pub hw_id : D → String
  pub valid : D → Bool

-- An entry of the configuration: its type, if that is one of the known ones, and the device that its
-- fields give.
pub record Entry (D : Type 0) : Type 0 where
  pub dev_type : Option DevType
  pub device : D

-- The ids that were seen, as a set.
unfoldable pub count : String → List String → Bool
count id [] = false
count id (uid ∷ uids) = uid == id || count id uids

-- The types that are skipped: those that are not known, and NVIDIA where it is not supported.
unfoldable pub skipped : Bool → Option DevType → Bool
skipped nv_supported none = true
skipped nv_supported (some sys) = false
skipped nv_supported (some dell) = false
skipped nv_supported (some nvidia) = not nv_supported

module _ {D : Type 0} where
  -- `insert_or_assign`
  unfoldable pub assign : String → D → List (String × D) → List (String × D)
  assign k v m = if contains k m then put k v m else place k v m

  module _ (load : Loader D) (nv_supported : Bool) where
    -- Whether the entry is added.
    unfoldable pub accepted : Entry D → List String → Bool
    accepted e uids =
        not (skipped nv_supported e.dev_type)
        && load.valid e.device
        && not (count (load.hw_id e.device) uids)

    -- The loop, with what adds a device to the map: `emplace` for sensors, `insert_or_assign` for
    -- fans.
    unfoldable pub load_each :
        (String → D → List (String × D) → List (String × D))
        → List (Entry D)
        → List String × List (String × D)
        → List String × List (String × D)
    load_each add [] s = s
    load_each add (e ∷ es) (uids, m) = load_each add es (
        if accepted e uids
        then (load.hw_id e.device ∷ uids, add (load.label e.device) e.device m)
        else (uids, m))

    unfoldable pub load_sensors : List (Entry D) → List String × List (String × D)
    load_sensors es = load_each emplace es ([], [])

    -- The fans, after the ids of the sensors.
    unfoldable pub load_fans : List (Entry D) → List String → List String × List (String × D)
    load_fans es uids = load_each assign es (uids, [])
