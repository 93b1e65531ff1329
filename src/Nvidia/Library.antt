-- ===== src/Nvidia/Library.antt =====
-- src/nvidia/NvidiaUtil.cpp: the choice of the display, whether NVIDIA control is supported, and `init`;
-- src/nvidia/NvidiaDevices.cpp: the control of a fan. X11 and libXNVCtrl are parameters.
use Prim.Native.String.{String}
use text.Mathlib.Text.{◌==◌}
use fancon.Common.{ℕ, ◌≡◌, Bool, true, false, not, ◌&&◌, Option, none, some, arith, if◌then◌else◌}
use fancon.Nvidia.{pwm_to_percent, percent_to_pwm}

-- What `$DISPLAY`, `$XAUTHORITY` and the running X server tell: the two variables, and the two parts
-- of the line that the command prints, if it has a comma.
pub record Environment : Type 0 where
  pub display : Option String
  pub xauthority : Option String
  pub running : Option (String × String)

unfoldable pub or_empty : Option String → String
or_empty none = ""
or_empty (some s) = s

unfoldable pub is_set : Option String → Bool
is_set none = false
is_set (some s) = true

-- The display that is opened, if it is known, and `$XAUTHORITY` from then on. A variable that is there
-- but empty counts as a display that is not known, and as an authority that is.
unfoldable pub found_display : Environment → String
unfolding or_empty
found_display env =
    if or_empty env.display == ""
    then elim env.running [ none ↦ "" | some (dsp, auth) ↦ dsp ]
    else or_empty env.display

unfoldable pub init_display : Environment → Option String × Option String
unfolding is_set or_empty found_display
init_display env = (
  if found_display env == "" then none else some (found_display env),
  if is_set env.xauthority
      then env.xauthority
      else elim env.running [ none ↦ none | some (dsp, auth) ↦ some auth ],
)

-- The answers that `check_support` asks for. The version is only warned about.
pub record Answers : Type 0 where
  pub available : Bool
  pub connected : Bool
  pub query_extension : Bool
  pub query_version : Option (ℕ × ℕ)
  pub is_atty : Bool
  pub enables_coolbit : Bool

unfoldable pub check_support : Answers → Bool
check_support a =
    if not a.available
    then false
    else if not a.connected
    then false
    else if not a.query_extension
    then false
    else elim a.query_version [
      | none ↦ false
      | some version ↦ if a.is_atty && a.enables_coolbit then false else true
    ]

-- `get_num_GPUs`
unfoldable pub get_num_gpus : Bool → Option ℕ → ℕ
get_num_gpus supported none = 0
get_num_gpus supported (some n) = if not supported then 0 else n

-- `NV::init`: the library that is there stays, unless it is loaded anew.
unfoldable pub init : {L : Type 0} → Bool → L → Option L → Option L
init force loaded none = some loaded
init force loaded (some there) = if force then some loaded else some there

-- The attributes of a fan, over the world behind the library.
pub record Attributes (W : Type 0) : Type 0 where
  pub read_rpm : W → Option ℕ
  pub read_percent : W → Option ℕ
  pub write_percent : ℕ → W → Bool × W
  pub write_mode : Bool → W → Bool × W

module _ {W : Type 0} (nv : Attributes W) where
  unfoldable pub or_zero : Option ℕ → ℕ
  or_zero none = 0
  or_zero (some n) = n

  unfoldable pub get_rpm : W → ℕ
  unfolding or_zero
  get_rpm w = or_zero (nv.read_rpm w)

  unfoldable pub get_pwm : W → ℕ
  unfolding or_zero percent_to_pwm
  get_pwm w = percent_to_pwm (or_zero (nv.read_percent w))

  unfoldable pub valid : W → Bool
  unfolding is_set
  valid w = elim (nv.read_percent w) [ none ↦ false | some n ↦ true ]

  -- With what `recover_control` does.
  unfoldable pub set_pwm : (W → Bool × W) → ℕ → W → Bool × W
  unfolding pwm_to_percent
  set_pwm recover_control pwm w =
      let (written, w') = nv.write_percent (pwm_to_percent pwm) w in
      if written then (true, w') else recover_control w'

  -- Whether it succeeds, and `enabled` after it.
  unfoldable pub enable_control : Bool → W → (Bool × Bool) × W
  enable_control enabled w =
      let (written, w') = nv.write_mode true w in
      if not written then ((false, enabled), w') else ((true, true), w')

  unfoldable pub disable_control : Bool → W → (Bool × Bool) × W
  disable_control enabled w =
      let (written, w') = nv.write_mode false w in
      if not written then ((false, enabled), w') else ((true, false), w')

  -- The destructor.
  unfoldable pub destroy : Bool → W → W
  unfolding disable_control
  destroy enabled w = if enabled then (disable_control enabled w).1 else w

  -- The mode that was written last with success, and the flag.
  abbrev pub Follows : (W → Option Bool) → Bool → W → Type 0
  Follows mode enabled w = mode w ≡ some enabled

  -- If a write of the mode that succeeds sets the mode and one that fails leaves it, `enabled` tells the
  -- mode of the device after each change of control, whether it succeeds or not; a destroyed fan whose
  -- mode can be written leaves the device in automatic control.
  pub control-Follows :
      (mode : W → Option Bool)
      (written : (on : Bool) (w : W)
        → mode (nv.write_mode on w).1 ≡ (if (nv.write_mode on w).0 then some on else mode w))
      (enabled : Bool) (w : W)
      → Follows mode enabled w
      → Follows mode (enable_control enabled w).0.1 (enable_control enabled w).1
        × Follows mode (disable_control enabled w).0.1 (disable_control enabled w).1
        × (mode (destroy enabled w)
            ≡ (if enabled && (nv.write_mode false w).0 then some false else mode w))
  unfolding enable_control disable_control destroy
  control-Follows mode written enabled w h = (
    ground (arith, written true w, h),
    ground (arith, written false w, h),
    ground (arith, written false w, h),
  )
