-- ===== src/Sensor/Message/RoundTrip.antt =====
-- A sensor that is read back from its message.
use fancon.Common.{◌≡◌, refl, ap, Bool, false, Option, none, some, ℕ, []}
use fancon.Common.Int.{ℤ}
use fancon.Util.Text.{Text}
use fancon.Util.Files.{FileSystem, read_optional}
use fancon.Sensor.Sysfs.{min_temp, read}
use fancon.Sensor.Message.{
  Hardware, sysfs, nv, Device, empty, hardware_from, hardware_to, sensor_from, sensor_to,
  load_sensor, default_hardware, set_path, sensor_read, sensor_min, sensor_max, valid_sensor, hw_id,
}

module _ {W : Type 0} (fs : FileSystem W) (w : W) where
  read_optional-set_path :
      (p : Option Text)
      → fs.read [] w ≡ none
      → read_optional fs (some (set_path p [])) w ≡ read_optional fs p w
  unfolding read_optional set_path
  read_optional-set_path none h = h
  read_optional-set_path (some p) h = refl

  exists-set_path :
      (p : Option Text)
      → fs.exists [] w ≡ false
      → fs.exists (set_path p []) w ≡ elim p [ none ↦ false | some i ↦ fs.exists i w ]
  unfolding set_path
  exists-set_path none e = e
  exists-set_path (some p) e = refl

  abbrev pub Same : (ℕ → W → Option ℤ) → Device → Device → Type 0
  Same nv_read back d =
      (back.label ≡ d.label)
      × (back.ignore ≡ false)
      × (sensor_read fs nv_read back.hardware w ≡ sensor_read fs nv_read d.hardware w)
      × (sensor_min fs nv_read back.hardware w ≡ sensor_min fs nv_read d.hardware w)
      × (sensor_max fs nv_read back.hardware w ≡ sensor_max fs nv_read d.hardware w)
      × (valid_sensor fs nv_read back.hardware w ≡ valid_sensor fs nv_read d.hardware w)
      × (hw_id back.hardware ≡ some (set_path (hw_id d.hardware) []))

  by_kind :
      (nv_read : ℕ → W → Option ℤ) (l : Text) (i : Bool) (k : Hardware)
      → fs.read [] w ≡ none
      → fs.exists [] w ≡ false
      → let d : Device = record { label = l; ignore = i; hardware = k } in
        Same nv_read (load_sensor (sensor_to d empty)) d
  unfolding load_sensor sensor_to hardware_to sensor_from hardware_from default_hardware sensor_read
      sensor_min sensor_max valid_sensor hw_id set_path
  by_kind nv_read l i (sysfs p) h e = (
    refl,
    refl,
    ap read (read_optional-set_path p.input_path h),
    ap min_temp (read_optional-set_path p.min_path h),
    rw (read_optional-set_path p.max_path h, read_optional-set_path p.crit_path h) refl,
    exists-set_path p.input_path e,
    refl,
  )
  by_kind nv_read l i (nv id) h e = (refl, refl, refl, refl, refl, refl, refl)

  -- A sensor that is written to a message and read back has its label, reads the same temperatures
  -- and limits, is valid where it was, and has its id, or an empty one where it had none; but it is
  -- no longer ignored. No file has an empty path.
  pub load_sensor-sensor_to :
      (nv_read : ℕ → W → Option ℤ) (d : Device)
      → fs.read [] w ≡ none
      → fs.exists [] w ≡ false
      → Same nv_read (load_sensor (sensor_to d empty)) d
  load_sensor-sensor_to nv_read d h e = by_kind nv_read d.label d.ignore d.hardware h e
