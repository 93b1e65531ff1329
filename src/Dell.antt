-- ===== src/Dell.antt =====
-- src/dell/FanDell.cpp: the commands of the control of a Dell fan, and the test of its method;
-- src/dell/DellSmm.cpp: the commands' codes, and the search for the system's signature.
pub mod Method
pub mod Smm
mod Examples
use fancon.Common.{
  ℕ, Bool, true, false, not, ◌&&◌, Option, none, some, List, [], ◌∷◌, ltb, leb, ◌==◌, if◌then◌else◌,
}
use fancon.Common.Words.{sub32}
use fancon.Fan.{pwm_min, pwm_max}
use fancon.Fan.Driver.{Driver}

-- 0x30a3 to 0x35a3
abbrev pub manual_control_1 : ℕ
manual_control_1 = 12451

abbrev pub auto_control_1 : ℕ
auto_control_1 = 12707

abbrev pub manual_control_3 : ℕ
manual_control_3 = 12963

abbrev pub auto_control_3 : ℕ
auto_control_3 = 13219

abbrev pub manual_control_2 : ℕ
manual_control_2 = 13475

abbrev pub auto_control_2 : ℕ
auto_control_2 = 13731

-- The command that takes the control or gives it back, by the method of the flag.
unfoldable pub mode : ℕ → Bool → ℕ
mode driver_flag on =
    if driver_flag == 1
    then (if on then manual_control_1 else auto_control_1)
    else if driver_flag == 3
    then (if on then manual_control_3 else auto_control_3)
    else (if on then manual_control_2 else auto_control_2)

-- The PWM, least or greatest, that is furthest from the current one.
unfoldable pub furthest : ℕ → ℕ
furthest cur = if ltb (sub32 pwm_max cur) (sub32 cur pwm_min) then pwm_min else pwm_max

unfoldable pub or_default : Option ℕ → ℕ
or_default none = 2
or_default (some m) = m

module _ {W : Type 0} (d : Driver W) (smm_send : ℕ → W → Bool × W) where
  -- One method: whether the fan took the PWM.
  unfoldable pub try_method : ℕ → W → Bool × W
  try_method m w =
      let (sent, w₁) = smm_send m w in
      if not sent
      then (false, w₁)
      else let (cur, w₂) = d.get_pwm w₁ in
        let (set, w₃) = d.set_pwm (furthest cur) w₂ in
        let (now, w₄) = d.get_pwm (d.sleep_for 1000 w₃) in (now == furthest cur, w₄)

  -- The loop over the methods.
  unfoldable pub try_methods : List ℕ → W → Option ℕ × W
  try_methods [] w = (none, w)
  try_methods (m ∷ ms) w =
      let rest = try_methods ms in
      let (took, w') = try_method m w in if took then (some m, w') else rest w'

  -- `FanDell::test_driver_enable_flag`, the new flag
  unfoldable pub test_driver_enable_flag : ℕ → W → ℕ × W
  test_driver_enable_flag driver_flag w =
      if leb 1 driver_flag && leb driver_flag 3
      then (driver_flag, w)
      else let (m, w') =
          try_methods (manual_control_2 ∷ manual_control_1 ∷ manual_control_3 ∷ []) w in
        (or_default m, w')

  -- `FanDell::enable_control` and `FanDell::disable_control`, with the flag `enabled`.
  unfoldable pub enable_control : ℕ → Bool → W → (Bool × Bool) × W
  enable_control driver_flag enabled w =
      let (sent, w') = smm_send (mode driver_flag true) w in
      if not sent then ((false, enabled), w') else ((true, true), w')

  unfoldable pub disable_control : ℕ → Bool → W → (Bool × Bool) × W
  disable_control driver_flag enabled w =
      let (sent, w') = smm_send (mode driver_flag false) w in
      if not sent then ((false, enabled), w') else ((true, false), w')

-- `SMM::found`: what a signature's command leaves in eax and edx, if it succeeds.
unfoldable pub found : (ℕ → Option (ℕ × ℕ)) → List ℕ → Bool
found i8k_smm [] = false
found i8k_smm (sig ∷ sigs) = elim (i8k_smm sig) [
  | none ↦ false
  | some (eax, edx) ↦ if eax == 1145651527 && edx == 1145392204 then true else found i8k_smm sigs
]
