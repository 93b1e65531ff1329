-- ===== src/Sensor/Examples.antt =====
-- Examples of readings.
use fancon.Common.{◌≡◌, refl, inr, true, false, none, some, [], ◌∷◌, arith}
use fancon.Common.Int.{pos}
use fancon.Sensor.{Sensor, past_end, get_average_temp, readings}
use fancon.Util.Text.{codes}
use fancon.Util.Files.{FileSystem}
use fancon.Sensor.Message.{Device, sysfs, empty, sensor_to, load_sensor}
use fancon.Sensor.Message.RoundTrip.{Same, load_sensor-sensor_to}
use fancon.Sensor.Average.{Between, get_average_temp-Between, readings-past_end}

abbrev half_way : Sensor
half_way = record {
  temp_history = pos 40 ∷ pos 42 ∷ pos 50 ∷ [];
  temp_history_i = 1;
  last_avg_temp = pos 44;
}

get_average_temp-Between_example : Between 40 60 (get_average_temp 3 false (some (pos 60)) half_way)
get_average_temp-Between_example =
    get_average_temp-Between 40 60 3 (pos 60) half_way (omega arith) (omega arith) (omega arith)
      (inr (omega arith))
      ((omega arith, omega arith), ((omega arith, omega arith), ((omega arith, omega arith), tt)))
      (omega arith, omega arith)

readings-past_end_example :
    readings 3
      (pos 40 ∷ pos 41 ∷ pos 42 ∷ pos 43 ∷ pos 44 ∷ [])
      (record { temp_history = []; temp_history_i = 0; last_avg_temp = pos 0 })
    ≡ past_end
readings-past_end_example =
    readings-past_end 3 (pos 40) (pos 41) (pos 42 ∷ pos 43 ∷ pos 44 ∷ []) (omega arith) refl

-- A file system with one file, the input of a sensor.
abbrev one_file : FileSystem Unit
one_file = record {
  absolute = λ p w. p;
  exists = λ p w. elim p [ [] ↦ false | c ∷ s ↦ true ];
  resolve = λ p w. some p;
  read = λ p w. elim p [ [] ↦ none | c ∷ s ↦ some (pos 45000) ];
  write = λ p n w. (false, w);
}

-- A sensor that is ignored and has no limits.
abbrev faulty : Device
faulty = record {
  label = codes "cpu";
  ignore = true;
  hardware = sysfs (record {
    input_path = some (codes "/hwmon0/temp1_input");
    enable_path = none;
    fault_path = some (codes "/hwmon0/temp1_fault");
    min_path = none;
    max_path = none;
    crit_path = none;
  });
}

load_sensor-sensor_to_example :
    Same one_file tt (λ id w. none) (load_sensor (sensor_to faulty empty)) faulty
load_sensor-sensor_to_example = load_sensor-sensor_to one_file tt (λ id w. none) faulty refl refl
