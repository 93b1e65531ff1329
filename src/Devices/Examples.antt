-- ===== src/Devices/Examples.antt =====
-- Examples of configurations, with devices that are pairs of a label and an id.
use Prim.Native.String.{String}
use fancon.Common.{ℕ, ◌≡◌, refl, true, false, not, ◌==◌, none, some, List, [], ◌∷◌, All, arith}
use fancon.Controller.{sys, nvidia, find, contains, put, place}
use fancon.Controller.Maps.{Distinct}
use fancon.Devices.{
  Loader, Entry, count, skipped, assign, accepted, load_each, load_sensors, load_fans,
}
use fancon.Util.Text.{postfix_num}
use fancon.Dell.Smm.{is_smm_dell}
use fancon.Devices.Enumerate.{feature_fan, feature_temp, Chip, Makers, enumerate, Valid}
use fancon.Devices.Enumerate.Valid.{enumerate-Valid}
use fancon.Devices.Complete.{Good, Fresh}
use fancon.Devices.RoundTrip.{
  kind_of, type_of, fan_hw_id, fan_entries, all_kept, Writable, find-devices_to,
}
use fancon.Fan.Message.{Device, sysfs, fan_to, empty, sensor_name}
use fancon.Fan.Message.RoundTrip.{fresh}
use fancon.Devices.Message.{devices_to}
use fancon.Common.OrdMap.{insert, nat_less, int_less}
use fancon.Common.Int.{pos}
use fancon.Devices.Unique.{Unique, load-Loaded}

abbrev pairs : Loader (String × String)
pairs = record { label = λ d. d.0; hw_id = λ d. d.1; valid = λ d. true }

abbrev fans : List (Entry (String × String))
fans =
    record { dev_type = some sys; device = ("cpu", "pwm1") }
    ∷ record { dev_type = some sys; device = ("again", "pwm1") }
    ∷ record { dev_type = some nvidia; device = ("gpu", "nv0") }
    ∷ record { dev_type = some sys; device = ("cpu", "pwm2") }
    ∷ []

-- The second entry has the id of the first; the last takes the label of the first.
loaded : (load_fans pairs false fans []).1 ≡ ("cpu", ("cpu", "pwm2")) ∷ []
unfolding load_fans load_each accepted skipped count assign contains put place
loaded = refl

load-Loaded_example :
    Distinct (load_sensors pairs false fans).1
    × Unique pairs (load_sensors pairs false fans).1
    × Distinct (load_fans pairs false fans ("pwm2" ∷ [])).1
    × Unique pairs (load_fans pairs false fans ("pwm2" ∷ [])).1
load-Loaded_example = load-Loaded pairs false fans fans ("pwm2" ∷ [])

abbrev makers : Makers (String × ℕ) String
makers = record {
  fan_dell = λ l path id. (l, id);
  fan_sysfs = λ l path id. (l, id);
  sensor_sysfs = λ l path. path;
  valid_fan = λ f. not (f.1 == 0);
  valid_sensor = λ s. true;
}

abbrev board : Chip
board = record {
  path = "/sys/class/hwmon/hwmon2";
  filename = "hwmon2";
  chip_name = "nct6775-isa-0290";
  features =
      record { feature_type = feature_fan; name = "fan1"; label = none; input = some (true, true) }
      ∷ record {
        feature_type = feature_temp;
        name = "temp1";
        label = some "CPU";
        input = some (true, true);
      }
      ∷ record {
        feature_type = feature_fan;
        name = "fan2";
        label = none;
        input = some (false, true);
      }
      ∷ [];
}

on_board : enumerate makers false (board ∷ []) ([], []) ≡ (
  ("hwmon2/fan1", ("hwmon2/fan1", 1)) ∷ [],
  ("hwmon2/CPU", "/sys/class/hwmon/hwmon2/temp1") ∷ [],
)
unfolding enumerate is_smm_dell postfix_num assign contains place
on_board = refl

enumerate-Valid_example : Valid makers (enumerate makers false (board ∷ []) ([], []))
enumerate-Valid_example = enumerate-Valid makers false (board ∷ []) ([], []) ((tt, tt), (tt, tt))

-- Two fans of the kernel's files, of which the second has no map yet.
abbrev cpu_fan : Device String
cpu_fan = record {
  label = "cpu";
  sensor = some "core";
  fan = record fresh {
    rpm_to_pwm = (800, 60) ∷ [];
    temp_to_rpm = (pos 40, 500) ∷ [];
    start_pwm = 60;
    interval = 500;
  };
  hardware = sysfs "pwm1" "fan1_input" "pwm1_enable" (pos 2);
}

abbrev case_fan : Device String
case_fan = record {
  label = "case";
  sensor = none;
  fan = fresh;
  hardware = sysfs "pwm2" "fan2_input" "pwm2_enable" (pos 5);
}

abbrev two_fans : List (String × Device String)
two_fans = ("case", case_fan) ∷ ("cpu", cpu_fan) ∷ []

abbrev core_sensors : List (String × String)
core_sensors = ("core", "core") ∷ []

abbrev fan_loader : Loader (Device String)
fan_loader = record {
  label = λ d. d.label;
  hw_id = λ d. fan_hw_id (λ id. "nv") d.hardware;
  valid = λ d. true;
}

two_fans-Writable : All (Writable (λ s. s) core_sensors false) two_fans
unfolding find sensor_name skipped type_of
two_fans-Writable = ((refl, (omega arith), refl), ((refl, (omega arith), refl), tt))

two_fans_kept : all_kept (λ s. s) core_sensors false two_fans ≡ some two_fans
unfolding insert
two_fans_kept = refl

two_fans-Good : All (Good fan_loader false (kind_of (λ s. s) core_sensors false)) two_fans
unfolding skipped type_of
two_fans-Good = ((refl, refl, refl), ((refl, refl, refl), tt))

two_fans-Distinct : Distinct two_fans
unfolding contains
two_fans-Distinct = (refl, (refl, tt))

two_fans-Unique : Unique fan_loader two_fans
unfolding fan_hw_id
two_fans-Unique = (refl, (refl, tt))

two_fans-Fresh :
    All
      (Fresh fan_loader false (kind_of (λ s. s) core_sensors false) ("temp1_input" ∷ []) [])
      two_fans
unfolding count contains fan_hw_id
two_fans-Fresh = ((refl, refl), ((refl, refl), tt))

find-devices_to_example :
    let d =
      devices_to
        (λ f. fan_to (λ s. s) f empty)
        (λ (s : String). s)
        (two_fans, core_sensors)
        (record { fan = []; sensor = [] }) in
    (es : List (Entry (Device String))) × (fan_entries (λ s. s) core_sensors false d.fan ≡ some es)
    × (find "cpu" (load_fans fan_loader false es ("temp1_input" ∷ [])).1 ≡ find "cpu" two_fans)
find-devices_to_example =
    find-devices_to (λ s. s) core_sensors false fan_loader (λ (s : String). s) "cpu" two_fans
      two_fans core_sensors ("temp1_input" ∷ []) two_fans-Writable two_fans_kept two_fans-Good
      two_fans-Distinct two_fans-Unique two_fans-Fresh
