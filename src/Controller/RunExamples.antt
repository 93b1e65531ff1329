-- ===== src/Controller/RunExamples.antt =====
-- Runs of the controller of `Examples`, as the machine of `Abstract` sees them, a reload of two
-- sensors, and a write of the configuration.
use Prim.Native.String.{String}
use text.Mathlib.Text.{◌==◌}
use fancon.Util.Text.{Text}
use fancon.Common.{
  Bool, ltb, length, ◌≡◌, refl, true, false, none, some, arith, Option, List, [], ◌∷◌,
  if◌then◌else◌,
}
use fancon.Controller.{testing, find, contains, is_testing, task_status, status, enable}
use fancon.Controller.Test.{test}
use fancon.Controller.Examples.{ops, board, left, idle, busy}
use fancon.Controller.Abstract.{
  enables, starts_test, Steps, stay, then_step, enabling, testing_one, Trace,
}
use fancon.Controller.Blocked.{test_or_hang, under_test, testing_task}
use fancon.Controller.Watcher.{watch_once}
use fancon.Controller.File.{
  ConfigFile, moved, contents, config_file_modified, to_file, to_file-modified,
}
use fancon.Controller.Sensors.{SensorOps, OneEach, reload_sensors}
use fancon.Controller.Sensors.Unique.{all_listed, sources, merged, reload_sensors-OneEach}
use fancon.Controller.Abstract.Refines.{Steps-Trace, Steps-testing}

-- The client waits for the end of the test that it starts.
board_returns : test_or_hang ops true true 1 board idle ≡ some (test ops true 1 board idle)
unfolding test_or_hang under_test testing_task find
board_returns = refl

run_of_two :
    Steps ops idle
      (enables left ∷ starts_test true 1 board ∷ [])
      (enable ops left (test ops true 1 board idle))
run_of_two =
    then_step (then_step stay (testing_one true true 1 board board_returns)) (enabling left)

Steps-Trace_example :
    Trace ops
      (λ x. status ops x idle)
      (enables left ∷ starts_test true 1 board ∷ [])
      (λ x. status ops x (enable ops left (test ops true 1 board idle)))
Steps-Trace_example = Steps-Trace ops run_of_two

board_tested : status ops "board" busy ≡ testing
unfolding status task_status find is_testing
board_tested = refl

run_of_one : Steps ops busy (enables left ∷ []) (enable ops left busy)
run_of_one = then_step stay (enabling left)

Steps-testing_example : status ops "board" (enable ops left busy) ≡ testing
Steps-testing_example = Steps-testing ops "board" run_of_one (tt, tt) board_tested

abbrev probes : SensorOps String
probes = record { hw_id = λ s. s; deep_equal = λ s t. s == t }

abbrev cpu_only : List (String × String)
cpu_only = ("cpu", "temp1") ∷ []

cpu_alone : OneEach probes cpu_only
unfolding contains
cpu_alone = (refl, tt, tt)

abbrev core_conf : Option (List (String × String))
core_conf = some (("core", "temp1") ∷ [])

reload_sensors-OneEach_example :
    OneEach probes (merged probes cpu_only core_conf cpu_only)
    × (reload_sensors probes cpu_only core_conf cpu_only ≡ (
        if all_listed probes
          (sources probes cpu_only core_conf)
          (merged probes cpu_only core_conf cpu_only)
        then some (merged probes cpu_only core_conf cpu_only)
        else none))
reload_sensors-OneEach_example = reload_sensors-OneEach probes cpu_only cpu_only core_conf cpu_alone

abbrev kept_file : ConfigFile
kept_file = record { file = some (1 ∷ [], 10); config_write_time = 10; backups = [] }

-- A buffer of eight characters.
abbrev small : Text → Bool
small text = ltb (length text) 8

to_file-modified_example :
    let after = to_file small true (2 ∷ 3 ∷ []) true 20 20 21 kept_file in
    (contents after.file ≡ some (2 ∷ 3 ∷ []))
    × (after.backups ≡ (1 ∷ []) ∷ [])
    × (config_file_modified after ≡ true)
    × (watch_once (config_file_modified after) false ≡ none)
unfolding moved
to_file-modified_example = to_file-modified small true 2 (3 ∷ []) 20 20 21 kept_file (omega arith)
