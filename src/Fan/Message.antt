-- ===== src/Fan/Message.antt =====
-- src/fan/Fan.cpp, src/fan/FanSysfs.cpp, src/dell/FanDell.cpp and src/nvidia/NvidiaDevices.cpp: a fan
-- read from its message, written to one, and compared by its message; src/util/Util.cpp:
-- `deep_equal`. `none` stands for undefined behaviour.
pub mod RoundTrip
use Prim.Native.String.{String}
use fancon.Common.{
  ℕ, Bool, ◌&&◌, Option, none, some, List, [], ◌∷◌, ◌==◌, length, ◌>>=◌, false, true,
}
use fancon.Common.Int.{ℤ}
use fancon.Controller.{DevType, sys, dell, nvidia, find}
use fancon.Util.Text.{Text, show, show_ℤ, map_str}
use fancon.Fan.{Fan, clamp_pwm}
use fancon.Fan.Parse.{temp_to_rpm_from, rpm_to_pwm_from}

-- What the kinds of fans have of their own.
pub data Hardware : Type 0 where
  sysfs : String → String → String → ℤ → Hardware
  smm : String → String → String → ℤ → Hardware
  nv : ℕ → Hardware

-- A fan with its label, its sensor and its hardware.
pub record Device (S : Type 0) : Type 0 where
  pub label : String
  pub sensor : Option S
  pub fan : Fan
  pub hardware : Hardware

-- `fc_pb::Fan`
pub record Message : Type 0 where
  pub dev_type : DevType
  pub label : String
  pub sensor : String
  pub temp_to_rpm : Text
  pub rpm_to_pwm : Text
  pub start_pwm : ℕ
  pub interval : ℕ
  pub ignore : Bool
  pub driver_flag : ℤ
  pub pwm_path : String
  pub rpm_path : String
  pub enable_path : String
  pub id : ℕ

-- The overriding functions `from`: a fan keeps its kind.
unfoldable pub hardware_from : Message → Hardware → Hardware
hardware_from f (sysfs pwm rpm enable flag) =
    sysfs f.pwm_path f.rpm_path f.enable_path f.driver_flag
hardware_from f (smm pwm rpm enable flag) = smm f.pwm_path f.rpm_path f.enable_path f.driver_flag
hardware_from f (nv id) = nv f.id

-- The overriding functions `to`.
unfoldable pub hardware_to : Hardware → Message → Message
hardware_to (sysfs pwm rpm enable flag) f = record f {
  dev_type = sys;
  pwm_path = pwm;
  rpm_path = rpm;
  enable_path = enable;
  driver_flag = flag;
}
hardware_to (smm pwm rpm enable flag) f = record f {
  dev_type = dell;
  pwm_path = pwm;
  rpm_path = rpm;
  enable_path = enable;
  driver_flag = flag;
}
hardware_to (nv id) f = record f { dev_type = nvidia; id = id }

-- A sensor that is not in the map leaves the one there is.
unfoldable pub sensor_from : {S : Type 0} → Option S → Option S → Option S
sensor_from none s = s
sensor_from (some found) s = some found

module _ {S : Type 0} (sensor_label : S → String) where
  unfoldable pub sensor_name : Option S → String
  sensor_name none = ""
  sensor_name (some s) = sensor_label s

  unfoldable pub fan_from : List (String × S) → Message → Device S → Option (Device S)
  unfolding clamp_pwm sensor_from hardware_from
  fan_from sensor_map f d = do
    rpm_to_pwm ← rpm_to_pwm_from f.rpm_to_pwm d.fan.rpm_to_pwm
    temp_to_rpm ← temp_to_rpm_from rpm_to_pwm f.temp_to_rpm d.fan.temp_to_rpm
    some (record {
      label = f.label;
      sensor = sensor_from (find f.sensor sensor_map) d.sensor;
      fan = record d.fan {
        rpm_to_pwm = rpm_to_pwm;
        temp_to_rpm = temp_to_rpm;
        start_pwm = clamp_pwm f.start_pwm;
        interval = f.interval;
        ignore = f.ignore;
      };
      hardware = hardware_from f d.hardware;
    })

  -- The message that `to` fills.
  unfoldable pub fan_to : Device S → Message → Message
  unfolding sensor_name hardware_to map_str show show_ℤ
  fan_to d f = hardware_to d.hardware (record f {
    label = d.label;
    sensor = sensor_name d.sensor;
    rpm_to_pwm = map_str show show d.fan.rpm_to_pwm;
    temp_to_rpm = map_str show_ℤ show d.fan.temp_to_rpm;
    start_pwm = d.fan.start_pwm;
    interval = d.fan.interval;
    ignore = d.fan.ignore;
  })

-- A message with no field set.
abbrev pub empty : Message
empty = record {
  dev_type = sys;
  label = "";
  sensor = "";
  temp_to_rpm = [];
  rpm_to_pwm = [];
  start_pwm = 0;
  interval = 0;
  ignore = false;
  driver_flag = ℤ.pos 0;
  pwm_path = "";
  rpm_path = "";
  enable_path = "";
  id = 0;
}

unfoldable pub same_bytes : List ℕ → List ℕ → Bool
same_bytes [] [] = true
same_bytes (a ∷ s) (b ∷ t) = a == b && same_bytes s t
same_bytes s t = false

-- `Util::deep_equal` of the messages, with what serialises one to its bytes.
unfoldable pub message_equal : {M : Type 0} → (M → List ℕ) → M → M → Bool
unfolding same_bytes
message_equal serialise m n =
    length (serialise m) == length (serialise n) && same_bytes (serialise m) (serialise n)

unfoldable pub deep_equal :
    {S : Type 0} → (S → String) → (Message → List ℕ) → Device S → Device S → Bool
unfolding message_equal fan_to
deep_equal sensor_label serialise d other =
    message_equal serialise (fan_to sensor_label d empty) (fan_to sensor_label other empty)
