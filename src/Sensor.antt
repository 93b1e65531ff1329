-- ===== src/Sensor.antt =====
-- src/sensor/Sensor.cpp: the average of a sensor's temperatures; src/sensor/SensorSysfs.cpp: the
-- limits of a sensor's range, its fault and its activation.
pub mod Average
pub mod Sysfs
pub mod Message
mod Examples
use fancon.Common.{
  ℕ, ◌-◌, ◌/◌, ◌%◌, suc, Bool, false, Option, none, some, List, [], ◌∷◌, ltb, if◌then◌else◌, length,
  set, replicate,
}
use fancon.Common.Int.{ℤ, pos, negsuc, ◌+ℤ◌}
use fancon.Common.Words.{u32_mod, to_int32}

abbrev pub u64_mod : ℕ
u64_mod = 18446744073709551616

-- The members of `fc::Sensor` that `get_average_temp` reads and writes.
pub record Sensor : Type 0 where
  pub temp_history : List ℤ
  pub temp_history_i : ℕ
  pub last_avg_temp : ℤ

-- A call gives the average, writes past the end of the history, or divides by its length 0.
pub data Reading : Type 0 where
  average : ℤ → Sensor → Reading
  past_end : Reading
  zero_division : Reading

-- The conversion of an int to the `size_t` of the history's size.
unfoldable pub to_size : ℤ → ℕ
to_size (pos n) = n % u64_mod
to_size (negsuc n) = u64_mod - 1 - n % u64_mod

unfoldable pub sum : List ℤ → ℤ
sum [] = pos 0
sum (t ∷ ts) = t +ℤ sum ts

-- The quotient is of unsigned numbers, and its lower 32 bits are the new `Temp`.
unfoldable pub quotient : List ℤ → ℤ
quotient ts = to_int32 (to_size (sum ts) / length ts % u32_mod)

-- The average of the history, if it has entries.
unfoldable pub averaged : List ℤ → Sensor → Reading
averaged [] s = zero_division
averaged (t ∷ ts) s = average (quotient (t ∷ ts)) (record s { last_avg_temp = quotient (t ∷ ts) })

unfoldable pub take_average : Sensor → Reading
take_average s = averaged s.temp_history s

-- A temperature that was read: the first fills the history, each later one replaces an entry.
unfoldable pub recorded : ℕ → ℤ → List ℤ → Sensor → Option Sensor
recorded averaging temp [] s = some (record s { temp_history = replicate averaging temp })
recorded averaging temp (t ∷ ts) s =
    if ltb s.temp_history_i (length (t ∷ ts))
    then some (record s {
      temp_history = set (t ∷ ts) s.temp_history_i temp;
      temp_history_i = suc s.temp_history_i;
    })
    else none

unfoldable pub record_temp : ℕ → ℤ → Sensor → Option Sensor
record_temp averaging temp s = recorded averaging temp s.temp_history s

unfoldable pub average_after : Option Sensor → Reading
average_after none = past_end
average_after (some s) = take_average s

-- `get_average_temp`, with `temp_averaging_intervals`, whether the last reading is fresh, and what
-- `read` gives.
unfoldable pub get_average_temp : ℕ → Bool → Option ℤ → Sensor → Reading
get_average_temp averaging fresh temp s =
    if fresh
    then average s.last_avg_temp s
    else elim temp [ none ↦ take_average s | some t ↦ average_after (record_temp averaging t s) ]

unfoldable pub and_then : Reading → (Sensor → Reading) → Reading
and_then (average a s) k = k s
and_then past_end k = past_end
and_then zero_division k = zero_division

-- Readings one after the other, each when the last is no longer fresh.
unfoldable pub readings : ℕ → List ℤ → Sensor → Reading
readings averaging [] s = average s.last_avg_temp s
readings averaging (t ∷ ts) s =
    and_then (get_average_temp averaging false (some t) s) (readings averaging ts)
