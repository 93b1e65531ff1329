-- ===== src/Controller/Sensors/Unique.antt =====
-- Labels and hardware stay unique among the sensors, through a reload.
use Prim.Native.String.{String}
use text.Mathlib.Text.{◌==◌}
use text.Mathlib.TextEquality.{eq_iff}
use mathlib.Core.Path.{subst}
use fancon.Common.{
  ◌≡◌, ◌≢◌, inl, inr, refl, sym, Bool, true, false, not, ◌&&◌, ◌||◌, Option, none, some, List, [],
  ◌∷◌, arith, if◌then◌else◌, if-cases, Bool-cases,
}
use fancon.Controller.{contains, erase, emplace, place}
use fancon.Controller.Maps.{contains-erase, contains-place}
use fancon.Controller.Sensors.{
  SensorOps, find_sensor, merge_sensor, merge_sensors, listed, remove_sensors, after_erased,
  reload_sensors, NoHw, OneEach,
}

module _ {S : Type 0} (ops : SensorOps S) where
  find_sensor-none :
      (id : String) (sensors : List (String × S))
      → find_sensor ops id sensors ≡ none
      → NoHw ops id sensors
  unfolding find_sensor
  find_sensor-none id [] h = tt
  find_sensor-none id ((l, s) ∷ sensors) h =
      ground (arith, h, find_sensor-none id sensors, eq_iff (ops.hw_id s) id)

  erase-NoHw :
      (id k : String) (sensors : List (String × S))
      → NoHw ops id sensors
      → NoHw ops id (erase k sensors)
  unfolding erase
  erase-NoHw id k [] h = tt
  erase-NoHw id k ((l, s) ∷ sensors) h = ground (arith, h.0, erase-NoHw id k sensors h.1)

  erase-OneEach :
      (k : String) (sensors : List (String × S))
      → OneEach ops sensors
      → OneEach ops (erase k sensors)
  unfolding erase
  erase-OneEach k [] h = tt
  erase-OneEach k ((l, s) ∷ sensors) h = ground (
    arith,
    h.0,
    contains-erase l k sensors,
    erase-NoHw (ops.hw_id s) k sensors h.1,
    erase-OneEach k sensors h.2,
  )

  -- Without the first sensor of a hardware there is none.
  found-NoHw :
      (id k : String) (old : S) (sensors : List (String × S))
      → find_sensor ops id sensors ≡ some (k, old)
      → OneEach ops sensors
      → NoHw ops id (erase k sensors)
  unfolding find_sensor erase
  found-NoHw id k old [] e h = tt
  found-NoHw id k old ((l, s) ∷ sensors) e (d, n, r) = elim (Bool-cases (ops.hw_id s == id)) [
    | inl same ↦
        let here : NoHw ops id sensors =
          subst (λ h. NoHw ops h sensors) ((eq_iff (ops.hw_id s) id).0 same) n in
        ground (arith, same, e, eq_iff l k, erase-NoHw id k sensors here)
    | inr other ↦ ground (arith, other, e, eq_iff (ops.hw_id s) id, found-NoHw id k old sensors, r)
  ]

  place-NoHw :
      (id k : String) (dev : S) (sensors : List (String × S))
      → ops.hw_id dev ≢ id
      → NoHw ops id sensors
      → NoHw ops id (place k dev sensors)
  unfolding place
  place-NoHw id k dev [] n h = (n, tt)
  place-NoHw id k dev ((l, s) ∷ sensors) n h =
      ground (arith, n, h, place-NoHw id k dev sensors n h.1)

  place-OneEach :
      (k : String) (dev : S) (sensors : List (String × S))
      → contains k sensors ≡ false
      → NoHw ops (ops.hw_id dev) sensors
      → OneEach ops sensors
      → OneEach ops (place k dev sensors)
  unfolding place contains
  place-OneEach k dev [] c n h = (refl, tt, tt)
  place-OneEach k dev ((l, s) ∷ sensors) c n h = ground (
    arith,
    c,
    n,
    h,
    contains-place l k dev sensors,
    place-NoHw (ops.hw_id s) k dev sensors (λ e. n.0 (sym e)) h.1,
    place-OneEach k dev sensors,
    eq_iff k l,
    eq_iff l k,
  )

  emplace-OneEach :
      (k : String) (dev : S) (sensors : List (String × S))
      → NoHw ops (ops.hw_id dev) sensors
      → OneEach ops sensors
      → OneEach ops (emplace k dev sensors)
  unfolding emplace
  emplace-OneEach k dev sensors n h = ground (arith, place-OneEach k dev sensors, n, h)

  merge_sensor-OneEach :
      (replace deep : Bool) (key : String) (dev : S) (o : Option (String × S))
      (dst : List (String × S))
      → find_sensor ops (ops.hw_id dev) dst ≡ o
      → OneEach ops dst
      → OneEach ops (merge_sensor ops replace deep key dev o dst)
  unfolding merge_sensor
  merge_sensor-OneEach replace deep key dev none dst e h =
      emplace-OneEach key dev dst (find_sensor-none (ops.hw_id dev) dst e) h
  merge_sensor-OneEach replace deep key dev (some (k, old)) dst e h =
      if-cases (OneEach ops) (replace && (not deep || not (ops.deep_equal dev old)))
        (λ _.
          emplace-OneEach key dev (erase k dst) (found-NoHw (ops.hw_id dev) k old dst e h)
            (erase-OneEach k dst h))
        (λ _. h)

  merge_sensors-OneEach :
      (replace deep : Bool) (src dst : List (String × S))
      → OneEach ops dst
      → OneEach ops (merge_sensors ops replace deep src dst)
  unfolding merge_sensors
  merge_sensors-OneEach replace deep [] dst h = h
  merge_sensors-OneEach replace deep ((key, dev) ∷ src) dst h =
      merge_sensors-OneEach replace deep src _
        (merge_sensor-OneEach replace deep key dev (find_sensor ops (ops.hw_id dev) dst) dst refl h)

  abbrev pub all_listed : List (List (String × S)) → List (String × S) → Bool
  all_listed l [] = true
  all_listed l ((k, s) ∷ sensors) = listed ops k l && all_listed l sensors

  remove_sensors-all_listed :
      (l : List (List (String × S))) (sensors dst : List (String × S))
      → remove_sensors ops l sensors dst ≡ (if all_listed l sensors then some dst else none)
  unfolding remove_sensors after_erased
  remove_sensors-all_listed l [] dst = refl
  remove_sensors-all_listed l ((k, s) ∷ sensors) dst =
      ground (arith, remove_sensors-all_listed l sensors dst)

  -- The enumerated sensors, and the configured ones.
  abbrev pub sources : List (String × S) → Option (List (String × S)) → List (List (String × S))
  sources enumerated none = enumerated ∷ []
  sources enumerated (some conf_devs) = enumerated ∷ conf_devs ∷ []

  -- The sensors once both are merged.
  abbrev pub merged :
      List (String × S) → Option (List (String × S)) → List (String × S) → List (String × S)
  merged enumerated none sensors = merge_sensors ops false false enumerated sensors
  merged enumerated (some conf_devs) sensors =
      merge_sensors ops true true conf_devs (merge_sensors ops false false enumerated sensors)

  -- Where no two sensors share their label or their hardware, none of those that the merges of a reload
  -- leave do; and the reload ends with just these if each of their labels is one of an enumerated or
  -- a configured sensor. If one is not, its removal is undefined behaviour.
  pub reload_sensors-OneEach :
      (enumerated sensors : List (String × S)) (conf : Option (List (String × S)))
      → OneEach ops sensors
      → OneEach ops (merged enumerated conf sensors)
        × (reload_sensors ops enumerated conf sensors ≡ (
            if all_listed (sources enumerated conf) (merged enumerated conf sensors)
            then some (merged enumerated conf sensors)
            else none))
  unfolding reload_sensors
  reload_sensors-OneEach enumerated sensors none h = (
    merge_sensors-OneEach false false enumerated sensors h,
    remove_sensors-all_listed (sources enumerated none) _ (merged enumerated none sensors),
  )
  reload_sensors-OneEach enumerated sensors (some conf_devs) h = (
    merge_sensors-OneEach true true conf_devs _
        (merge_sensors-OneEach false false enumerated sensors h),
    remove_sensors-all_listed (sources enumerated (some conf_devs)) _
        (merged enumerated (some conf_devs) sensors),
  )
