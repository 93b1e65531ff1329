-- ===== src/Sensor/Message.antt =====
-- src/sensor/SensorSysfs.cpp and src/sensor/Sensor.cpp: the paths of a sensor's files, its
-- constructor and its messages; src/nvidia/NvidiaDevices.cpp: the messages of `SensorNV`. Labels and
-- paths are texts.
pub mod RoundTrip
use fancon.Common.{ℕ, Bool, true, false, not, Option, none, some, List, [], ◌++◌, if◌then◌else◌}
use fancon.Common.Int.{ℤ, pos, leb_ℤ}
use fancon.Controller.{DevType, sys, nvidia}
use fancon.Util.Text.{Text, codes, show}
use fancon.Util.Files.{FileSystem, real_path, read_optional, write_optional}
use fancon.Fan.Message.{message_equal}
use fancon.Sensor.Sysfs.{min_temp, max_temp, read, is_faulty}

pub record Paths : Type 0 where
  pub input_path : Option Text
  pub enable_path : Option Text
  pub fault_path : Option Text
  pub min_path : Option Text
  pub max_path : Option Text
  pub crit_path : Option Text

-- What the kinds of sensors have of their own.
pub data Hardware : Type 0 where
  sysfs : Paths → Hardware
  nv : ℕ → Hardware

pub record Device : Type 0 where
  pub label : Text
  pub ignore : Bool
  pub hardware : Hardware

-- `fc_pb::Sensor`
pub record Message : Type 0 where
  pub dev_type : DevType
  pub label : Text
  pub input_path : Text
  pub enable_path : Text
  pub fault_path : Text
  pub min_path : Text
  pub max_path : Text
  pub crit_path : Text
  pub id : ℕ

-- A message with no field set.
abbrev pub empty : Message
empty = record {
  dev_type = sys;
  label = [];
  input_path = [];
  enable_path = [];
  fault_path = [];
  min_path = [];
  max_path = [];
  crit_path = [];
  id = 0;
}

-- Each path of the message is set.
unfoldable pub hardware_from : Message → Hardware → Hardware
hardware_from s (sysfs p) = sysfs (record {
  input_path = some s.input_path;
  enable_path = some s.enable_path;
  fault_path = some s.fault_path;
  min_path = some s.min_path;
  max_path = some s.max_path;
  crit_path = some s.crit_path;
})
hardware_from s (nv id) = nv s.id

unfoldable pub sensor_from : Message → Device → Device
unfolding hardware_from
sensor_from s d = record d { label = s.label; hardware = hardware_from s d.hardware }

-- A path that is there is set.
unfoldable pub set_path : Option Text → Text → Text
set_path none field = field
set_path (some p) field = p

unfoldable pub hardware_to : Hardware → Message → Message
unfolding set_path
hardware_to (sysfs p) s = record s {
  dev_type = sys;
  input_path = set_path p.input_path s.input_path;
  enable_path = set_path p.enable_path s.enable_path;
  fault_path = set_path p.fault_path s.fault_path;
  min_path = set_path p.min_path s.min_path;
  max_path = set_path p.max_path s.max_path;
  crit_path = set_path p.crit_path s.crit_path;
}
hardware_to (nv id) s = record s { dev_type = nvidia; id = id }

unfoldable pub sensor_to : Device → Message → Message
unfolding hardware_to
sensor_to d s = hardware_to d.hardware (record s { label = d.label })

-- With what serialises a message to its bytes.
unfoldable pub deep_equal : (Message → List ℕ) → Device → Device → Bool
unfolding message_equal sensor_to
deep_equal serialise d other = message_equal serialise (sensor_to d empty) (sensor_to other empty)

module _ {W : Type 0} (fs : FileSystem W) where
  -- `enable`, which asks to write only where it must.
  unfoldable pub enable_sensor : Paths → W → Bool × W
  unfolding read_optional write_optional
  enable_sensor p w = elim (read_optional fs p.enable_path w) [
    | none ↦ (true, w)
    | some mode ↦
        if leb_ℤ mode (pos 0) then write_optional fs p.enable_path (pos 1) w else (true, w)
  ]

  -- The constructor of `SensorSysfs`.
  unfoldable pub construct : Text → Text → W → Device × W
  unfolding real_path read_optional is_faulty enable_sensor
  construct label dev_path w =
      let p : Paths = record {
        input_path = real_path fs (dev_path ++ codes "_input") w;
        enable_path = real_path fs (dev_path ++ codes "_enable") w;
        fault_path = real_path fs (dev_path ++ codes "_fault") w;
        min_path = real_path fs (dev_path ++ codes "_min") w;
        max_path = real_path fs (dev_path ++ codes "_max") w;
        crit_path = real_path fs (dev_path ++ codes "_crit") w;
      } in
      let made : Bool → Device =
        λ ignore. record { label = label; ignore = ignore; hardware = sysfs p } in
      if is_faulty (read_optional fs p.fault_path w)
      then (made true, w)
      else let (enabled, w') = enable_sensor p w in (made (not enabled), w')

  -- `nv_read` is the reading of the driver's attribute of a sensor's temperature.
  module _ (nv_read : ℕ → W → Option ℤ) where
    unfoldable pub sensor_read : Hardware → W → Option ℤ
    unfolding read_optional read
    sensor_read (sysfs p) w = read (read_optional fs p.input_path w)
    sensor_read (nv id) w = nv_read id w

    unfoldable pub sensor_min : Hardware → W → Option ℤ
    unfolding read_optional min_temp
    sensor_min (sysfs p) w = min_temp (read_optional fs p.min_path w)
    sensor_min (nv id) w = none

    unfoldable pub sensor_max : Hardware → W → Option ℤ
    unfolding read_optional max_temp
    sensor_max (sysfs p) w =
        max_temp (read_optional fs p.max_path w) (read_optional fs p.crit_path w)
    sensor_max (nv id) w = none

    unfoldable pub valid_sensor : Hardware → W → Bool
    valid_sensor (sysfs p) w = elim p.input_path [ none ↦ false | some i ↦ fs.exists i w ]
    valid_sensor (nv id) w = elim (nv_read id w) [ none ↦ false | some t ↦ true ]

-- `none`: the path is not there and `hw_id` reads it.
unfoldable pub hw_id : Hardware → Option Text
unfolding show
hw_id (sysfs p) = p.input_path
hw_id (nv id) = some (codes "NV:s" ++ show id)

-- The sensor that `Devices::from` makes for a type and reads from the message.
unfoldable pub default_hardware : DevType → Hardware
default_hardware nvidia = nv 0
default_hardware kind = sysfs (record {
  input_path = none;
  enable_path = none;
  fault_path = none;
  min_path = none;
  max_path = none;
  crit_path = none;
})

unfoldable pub load_sensor : Message → Device
unfolding sensor_from default_hardware
load_sensor s =
    sensor_from s (record { label = []; ignore = false; hardware = default_hardware s.dev_type })
