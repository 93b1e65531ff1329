-- ===== src/Devices/RoundTrip.antt =====
-- src/Devices.cpp: the fans of the message that `Devices::to` fills, read by `Devices::from`.
use Prim.Native.String.{String}
use fancon.Common.{
  ℕ, ◌≡◌, ◌∙◌, ap, refl, Bool, false, Option, none, some, List, [], ◌∷◌, map, All, ◌>>=◌,
  if◌then◌else◌,
}
use fancon.Common.Int.{ℤ, pos}
use fancon.Common.OrdMap.{insert, nat_less, int_less}
use fancon.Fan.Parse.Printed.{read_back}
use fancon.Controller.{DevType, sys, dell, nvidia, find}
use fancon.Controller.Maps.{Distinct}
use fancon.Fan.{Fan}
use fancon.Fan.Message.{
  Hardware, sysfs, smm, nv, Device, Message, fan_from, fan_to, empty, sensor_name, hardware_to,
}
use fancon.Fan.Message.RoundTrip.{
  fresh, Fits, kept, curve_kept, both_sysfs, both_smm, both_nv, SameKind, fan_from-fan_to,
}
use fancon.Devices.{Loader, Entry, skipped, load_fans}
use fancon.Devices.Unique.{Unique}
use fancon.Devices.Complete.{entries, Good, Fresh, find-load_fans}
use fancon.Devices.Message.{devices_to}

-- A new fan of a type has this hardware until it is read.
unfoldable pub default_hardware : DevType → Hardware
default_hardware sys = sysfs "" "" "" (pos 2)
default_hardware dell = smm "" "" "" (pos 2)
default_hardware nvidia = nv 0

-- `type`
unfoldable pub type_of : Hardware → DevType
type_of (sysfs pwm rpm enable flag) = sys
type_of (smm pwm rpm enable flag) = dell
type_of (nv id) = nvidia

-- `hw_id`, with what prints the id of an NVIDIA fan.
unfoldable pub fan_hw_id : (ℕ → String) → Hardware → String
fan_hw_id nv_id (sysfs pwm rpm enable flag) = pwm
fan_hw_id nv_id (smm pwm rpm enable flag) = pwm
fan_hw_id nv_id (nv id) = nv_id id

module _ {S : Type 0} (sensor_label : S → String) (sensor_map : List (String × S))
    (nv_supported : Bool) where
  abbrev pub kind_of : Device S → Option DevType
  kind_of d = some (type_of d.hardware)

  unfoldable pub new_fan : DevType → Device S
  unfolding default_hardware
  new_fan t = record { label = ""; sensor = none; fan = fresh; hardware = default_hardware t }

  -- The fan of a message: it is made and read, unless its type is skipped. `none` stands for undefined
  -- behaviour.
  unfoldable pub fan_entry : Message → Option (Entry (Device S))
  unfolding new_fan
  fan_entry f =
      if skipped nv_supported (some f.dev_type)
      then some (record { dev_type = some f.dev_type; device = new_fan f.dev_type })
      else fan_from sensor_label sensor_map f (new_fan f.dev_type) >>= λ d.
          some (record { dev_type = some f.dev_type; device = d })

  unfoldable pub fan_entries : List Message → Option (List (Entry (Device S)))
  unfolding fan_entry
  fan_entries [] = some []
  fan_entries (f ∷ fs) = do e ← fan_entry f; es ← fan_entries fs; some (e ∷ es)

  -- The fans as `kept` says that they are read back.
  abbrev pub all_kept : List (String × Device S) → Option (List (String × Device S))
  all_kept [] = some []
  all_kept ((k, d) ∷ m) = kept sensor_label d >>= λ d'. all_kept m >>= λ m'. some ((k, d') ∷ m')

  -- A fan of a supported type, whose sensor is among those that were loaded and whose numbers fit.
  abbrev pub Writable : String × Device S → Type 0
  Writable (k, d) =
      (find (sensor_name sensor_label d.sensor) sensor_map ≡ d.sensor)
      × Fits d.fan
      × (skipped nv_supported (kind_of d) ≡ false)

  -- Two ways on from what is built agree where they agree on it.
  built :
      {X Y A B : Type 0} (o : Option X) (p : X → Option Y) (build : X → Y → A) (f g : A → Option B)
      → ((x : X) (y : Y) → f (build x y) ≡ g (build x y))
      → ((o >>= λ x. p x >>= λ y. some (build x y)) >>= f)
        ≡ ((o >>= λ x. p x >>= λ y. some (build x y)) >>= g)
  built none p build f g h = refl
  built (some x) p build f g h = inner (p x)
    where
      inner :
          (q : Option _)
          → ((q >>= λ y. some (build x y)) >>= f) ≡ ((q >>= λ y. some (build x y)) >>= g)
      inner none = refl
      inner (some y) = h x y

  abbrev entry_of : DevType → Device S → Option (Entry (Device S))
  entry_of t d = some (record { dev_type = some t; device = d })

  read_kept :
      (t : DevType) (d : Device S) (old : Hardware)
      → t ≡ type_of d.hardware
      → SameKind old d.hardware
      → find (sensor_name sensor_label d.sensor) sensor_map ≡ d.sensor
      → Fits d.fan
      → (fan_from sensor_label sensor_map
            (fan_to sensor_label d empty)
            (record { label = ""; sensor = none; fan = fresh; hardware = old })
          >>= entry_of t)
        ≡ (kept sensor_label d >>= λ d'. entry_of (type_of d'.hardware) d')
  read_kept t d old e same s fits =
      let build : List (ℕ × ℕ) → List (ℤ × ℕ) → Device S = λ pwms temps. record d {
        fan = record d.fan { rpm_to_pwm = pwms; temp_to_rpm = temps; smoothing = fresh.smoothing };
      } in
      ap (λ (o : Option (Device S)). o >>= entry_of t)
        (fan_from-fan_to sensor_label sensor_map d old same s fits)
      ∙ built (read_back insert d.fan.rpm_to_pwm []) (λ pwms. curve_kept pwms d.fan.temp_to_rpm)
          build (entry_of t) (λ d'. entry_of (type_of d'.hardware) d')
          (λ x y. ap (λ (u : DevType). entry_of u (build x y)) e)

  by_kind :
      (label : String) (sensor : Option S) (fan : Fan) (h : Hardware)
      → let d : Device S = record { label = label; sensor = sensor; fan = fan; hardware = h } in
        (find (sensor_name sensor_label sensor) sensor_map ≡ sensor)
        → Fits fan
        → skipped nv_supported (kind_of d) ≡ false
        → fan_entry (fan_to sensor_label d empty)
          ≡ (kept sensor_label d >>= λ d'. entry_of (type_of d'.hardware) d')
  unfolding fan_entry fan_to hardware_to type_of new_fan default_hardware skipped
  by_kind label sensor fan (sysfs p r e f) s fits k =
      read_kept sys (record { label = label; sensor = sensor; fan = fan; hardware = sysfs p r e f })
        (sysfs "" "" "" (pos 2)) refl both_sysfs s fits
  by_kind label sensor fan (smm p r e f) s fits k =
      read_kept dell (record { label = label; sensor = sensor; fan = fan; hardware = smm p r e f })
        (smm "" "" "" (pos 2)) refl both_smm s fits
  by_kind label sensor fan (nv id) s fits k = rw k (
      read_kept nvidia (record { label = label; sensor = sensor; fan = fan; hardware = nv id })
        (nv 0) refl both_nv s fits)

  module _ (load : Loader (Device S)) where
    in_step :
        (k : String) (o : Option (Device S)) (q : Option (List (String × Device S)))
        → ((o >>= λ d'. entry_of (type_of d'.hardware) d') >>= λ e.
            (q >>= λ m'. some (entries load nv_supported kind_of m')) >>= λ es. some (e ∷ es))
          ≡ ((o >>= λ d'. q >>= λ m'. some ((k, d') ∷ m')) >>= λ m'.
              some (entries load nv_supported kind_of m'))
    in_step k none q = refl
    in_step k (some d') none = refl
    in_step k (some d') (some m') = refl

    fan_entries-all_kept :
        (m : List (String × Device S))
        → All Writable m
        → fan_entries (map (λ e. fan_to sensor_label (e.1) empty) m)
          ≡ (all_kept m >>= λ m'. some (entries load nv_supported kind_of m'))
    unfolding fan_entries
    fan_entries-all_kept [] w = refl
    fan_entries-all_kept ((k, d) ∷ m) ((s, fits, n), ws) =
        rw (by_kind d.label d.sensor d.fan d.hardware s fits n)
          (rw (fan_entries-all_kept m ws) (in_step k (kept sensor_label d) (all_kept m)))

    -- The fans of the message that `to` fills are read by `from`, each as a message of its fan is, and
    -- are all there again under their labels, and nothing else is: if no map of theirs that is read has
    -- two points or more, which `all_kept` says, if their types are supported, their sensors are loaded
    -- and their numbers fit, if they are valid as they are read back, and if no id is one that was seen
    -- and none stands twice.
    pub find-devices_to :
        {T SM : Type 0} (sensor_to : T → SM) (x : String) (m m' : List (String × Device S))
        (sensors : List (String × T)) (uids : List String)
        → All Writable m
        → all_kept m ≡ some m'
        → All (Good load nv_supported kind_of) m'
        → Distinct m'
        → Unique load m'
        → All (Fresh load nv_supported kind_of uids []) m'
        → let d =
            devices_to
              (λ f. fan_to sensor_label f empty)
              sensor_to
              (m, sensors)
              (record { fan = []; sensor = [] }) in
          (es : List (Entry (Device S))) × (fan_entries d.fan ≡ some es)
          × (find x (load_fans load nv_supported es uids).1 ≡ find x m')
    unfolding devices_to
    find-devices_to sensor_to x m m' sensors uids w e g n u f = (
      entries load nv_supported kind_of m',
      fan_entries-all_kept m w
          ∙ ap (λ o. o >>= λ m'. some (entries load nv_supported kind_of m')) e,
      find-load_fans load nv_supported kind_of x m' uids g n u f,
    )
