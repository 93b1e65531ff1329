-- ===== src/Fan/Message/RoundTrip.antt =====
-- What a fan keeps when its message is written and read.
use Prim.Native.String.{String}
use mathlib.Core.Path.{fun_ext}
use fancon.Common.{
  ℕ, ◌≤◌, ◌<◌, ◌≡◌, refl, true, false, Option, none, some, List, [], ◌∷◌, arith, ◌>>=◌, All, ◌↔◌,
  ap,
}
use fancon.Common.Int.{ℤ, pos}
use fancon.Common.Words.{u32_mod, i32_top}
use fancon.Common.OrdMap.{insert, nat_less, int_less}
use fancon.Controller.{find}
use fancon.Util.Text.{show, show_ℤ, map_str}
use fancon.Fan.{Fan, clamp_pwm}
use fancon.Fan.Parse.{temp_to_rpm_from, rpm_to_pwm_from}
use fancon.Fan.Parse.Printed.{read_back, rpm_to_pwm_from-map_str}
use fancon.Fan.Parse.Printed.Curve.{magnitude, temp_to_rpm_from-map_str}
use fancon.Fan.Message.{
  Hardware, sysfs, smm, nv, Device, Message, hardware_from, hardware_to, sensor_name, sensor_from,
  fan_from, fan_to, empty, same_bytes, message_equal, deep_equal,
}

-- Two fans of one class.
pub data SameKind : Hardware → Hardware → Type 0 where
  both_sysfs : {a b c a' b' c' : String} {d d' : ℤ} → SameKind (sysfs a b c d) (sysfs a' b' c' d')
  both_smm : {a b c a' b' c' : String} {d d' : ℤ} → SameKind (smm a b c d) (smm a' b' c' d')
  both_nv : {a a' : ℕ} → SameKind (nv a) (nv a')

-- A fan as its constructor leaves it.
abbrev pub fresh : Fan
fresh = record {
  ignore = false;
  rpm_to_pwm = [];
  temp_to_rpm = [];
  start_pwm = 0;
  interval = 0;
  smoothing = record {
    just_started = true;
    rem_intervals = pos 0;
    targeted_rpm = 0;
    top_stickiness_rem_intervals = pos 0;
  };
}

-- The curve is read only after a map of PWMs.
abbrev pub curve_kept : List (ℕ × ℕ) → List (ℤ × ℕ) → Option (List (ℤ × ℕ))
curve_kept [] temps = some []
curve_kept (p ∷ pwms) temps = read_back (λ t. insert (pos (magnitude t))) temps []

abbrev pub Fits : Fan → Type 0
Fits fan =
    (fan.start_pwm ≤ 255)
    × All (λ e. (e.0 < u32_mod) × (e.1 ≤ 255)) fan.rpm_to_pwm
    × All (λ e. (magnitude e.0 < i32_top) × (e.1 < u32_mod)) fan.temp_to_rpm

module _ {S : Type 0} (sensor_label : S → String) where
  abbrev pub kept : Device S → Option (Device S)
  kept d = read_back insert d.fan.rpm_to_pwm [] >>= λ pwms.
      curve_kept pwms d.fan.temp_to_rpm >>= λ temps. some (record d {
        fan = record d.fan { rpm_to_pwm = pwms; temp_to_rpm = temps; smoothing = fresh.smoothing };
      })

  curve_from :
      (pwms : List (ℕ × ℕ)) (m : List (ℤ × ℕ))
      → All (λ e. (magnitude e.0 < i32_top) × (e.1 < u32_mod)) m
      → temp_to_rpm_from pwms (map_str show_ℤ show m) [] ≡ curve_kept pwms m
  unfolding temp_to_rpm_from
  curve_from [] m h = refl
  curve_from (p ∷ pwms) m h = temp_to_rpm_from-map_str p pwms m [] h

  clamped : (p : ℕ) → p ≤ 255 → clamp_pwm p ≡ p
  unfolding clamp_pwm
  clamped p h = ground arith

  sensor_kept : (found new : Option S) → found ≡ new → sensor_from found none ≡ new
  unfolding sensor_from
  sensor_kept none new h = h
  sensor_kept (some s) new h = h

  maps_from :
      {A : Type 0} (fan : Fan) (build : List (ℕ × ℕ) → List (ℤ × ℕ) → Option A)
      → Fits fan
      → (rpm_to_pwm_from (map_str show show fan.rpm_to_pwm) [] >>= λ pwms.
          temp_to_rpm_from pwms (map_str show_ℤ show fan.temp_to_rpm) [] >>= build pwms)
        ≡ (read_back insert fan.rpm_to_pwm [] >>= λ pwms.
            curve_kept pwms fan.temp_to_rpm >>= build pwms)
  maps_from fan build (_, r, t) = rw (rpm_to_pwm_from-map_str fan.rpm_to_pwm [] r) (
      ap (λ (rest : List (ℕ × ℕ) → Option _). read_back insert fan.rpm_to_pwm [] >>= rest)
        (fun_ext (λ pwms. ap (λ temps. temps >>= build pwms) (curve_from pwms fan.temp_to_rpm t))))

  by_parts :
      (sensor_map : List (String × S)) (label : String) (sensor : Option S) (fan : Fan)
      (old new : Hardware)
      → SameKind old new
      → find (sensor_name sensor_label sensor) sensor_map ≡ sensor
      → Fits fan
      → fan_from sensor_label sensor_map
          (fan_to sensor_label
            (record { label = label; sensor = sensor; fan = fan; hardware = new })
            empty)
          (record { label = ""; sensor = none; fan = fresh; hardware = old })
        ≡ kept (record { label = label; sensor = sensor; fan = fan; hardware = new })
  unfolding fan_from fan_to hardware_to hardware_from
  by_parts sensor_map label sensor fan old new both_sysfs s f =
      rw (clamped fan.start_pwm f.0) (rw (sensor_kept _ sensor s) (maps_from fan _ f))
  by_parts sensor_map label sensor fan old new both_smm s f =
      rw (clamped fan.start_pwm f.0) (rw (sensor_kept _ sensor s) (maps_from fan _ f))
  by_parts sensor_map label sensor fan old new both_nv s f =
      rw (clamped fan.start_pwm f.0) (rw (sensor_kept _ sensor s) (maps_from fan _ f))

  -- A fan that is written to a message and read into a new fan of its class keeps its label, sensor,
  -- hardware, start PWM, interval and `ignore`, and a map of PWMs with at most one point. The curve is
  -- lost where the map of PWMs is empty, and else kept without the signs of its temperatures if it
  -- has at most one point. With two points or more in a map that is read the behaviour is undefined.
  pub fan_from-fan_to :
      (sensor_map : List (String × S)) (d : Device S) (hardware : Hardware)
      → SameKind hardware d.hardware
      → find (sensor_name sensor_label d.sensor) sensor_map ≡ d.sensor
      → Fits d.fan
      → fan_from sensor_label sensor_map
          (fan_to sensor_label d empty)
          (record { label = ""; sensor = none; fan = fresh; hardware = hardware })
        ≡ kept d
  fan_from-fan_to sensor_map d hardware k s f =
      by_parts sensor_map d.label d.sensor d.fan hardware d.hardware k s f

same_bytes_iff : (s t : List ℕ) → (same_bytes s t ≡ true) ↔ (s ≡ t)
unfolding same_bytes
same_bytes_iff [] [] = ground arith
same_bytes_iff [] (b ∷ t) = ground arith
same_bytes_iff (a ∷ s) [] = ground arith
same_bytes_iff (a ∷ s) (b ∷ t) = ground (arith, same_bytes_iff s t)

message_equal_lem :
    (serialise : Message → List ℕ) (m n : Message)
    → (serialise m ≡ serialise n → m ≡ n)
    → (message_equal serialise m n ≡ true) ↔ (m ≡ n)
unfolding message_equal
message_equal_lem serialise m n unique = (
  λ h. unique (ground (arith, same_bytes_iff (serialise m) (serialise n), h)),
  λ e. rw e (ground (arith, same_bytes_iff (serialise n) (serialise n))),
)

-- Two fans are deeply equal exactly when their messages are equal, if these do not have the same bytes
-- while they differ.
pub deep_equal-fan_to :
    {S : Type 0} (sensor_label : S → String) (serialise : Message → List ℕ) (d other : Device S)
    → (serialise (fan_to sensor_label d empty) ≡ serialise (fan_to sensor_label other empty)
        → fan_to sensor_label d empty ≡ fan_to sensor_label other empty)
    → (deep_equal sensor_label serialise d other ≡ true)
      ↔ (fan_to sensor_label d empty ≡ fan_to sensor_label other empty)
unfolding deep_equal
deep_equal-fan_to sensor_label serialise d other unique =
    message_equal_lem serialise (fan_to sensor_label d empty) (fan_to sensor_label other empty)
      unique
