-- ===== src/Dell/Smm.antt =====
-- src/dell/DellSmm.cpp: the calls to the firmware; src/dell/FanDell.cpp: `valid`. The instructions that
-- enter the firmware are a parameter. `none` stands for undefined behaviour, as the value of an empty
-- optional is.
use fancon.Common.{
  ℕ, ◌%◌, Bool, true, false, not, ◌&&◌, Option, none, some, [], ◌∷◌, ◌==◌, if◌then◌else◌, ◌>>=◌,
}
use fancon.Common.Words.{sub32}
use fancon.Util.Text.{Text}

-- `smm_regs`
pub record Registers : Type 0 where
  pub eax : ℕ
  pub ebx : ℕ
  pub ecx : ℕ
  pub edx : ℕ
  pub esi : ℕ
  pub edi : ℕ

abbrev pub cleared : Registers
cleared = record { eax = 0; ebx = 0; ecx = 0; edx = 0; esi = 0; edi = 0 }

-- 0x00a3
abbrev pub get_fan : ℕ
get_fan = 163

abbrev pub fan_not_found : ℕ
fan_not_found = 255

-- `*io_initialized`; the assignment to the value of an empty optional leaves it empty.
unfoldable pub init_ioperms : Option Bool → Option Bool
init_ioperms io_initialized = io_initialized

-- The firmware is given the registers, and leaves them with a carry.
module _ (firmware : Registers → Registers × Bool) where
  unfoldable pub entered : Registers → Bool × Registers
  entered regs =
      let (out, carry) = firmware regs in
      (not carry && not (out.eax % 65536 == 65535) && not (out.eax == regs.eax), out)

  unfoldable pub i8k_smm : Option Bool → Registers → Option (Bool × Registers)
  unfolding init_ioperms entered
  i8k_smm io regs = do
    permitted ← init_ioperms io
    some (if not permitted then (false, regs) else entered regs)

  unfoldable pub fan_status : Option Bool → ℕ → Option ℕ
  unfolding i8k_smm
  fan_status io fan = do
    (success, regs) ← i8k_smm io (record cleared { eax = get_fan; ebx = fan % 256 })
    some (if not success then fan_not_found else regs.eax % 256)

  unfoldable pub smm_send : Option Bool → ℕ → Option Bool
  unfolding i8k_smm
  smm_send io cmd = do (success, regs) ← i8k_smm io (record cleared { eax = cmd }); some success

  -- `FanDell::valid`, with the results of `FanSysfs::valid`, `postfix_num` of the path of the PWM and
  -- `SMM::found`.
  unfoldable pub dell_valid : Option Bool → Bool → Option ℕ → Bool → Option Bool
  unfolding fan_status
  dell_valid io sysfs_valid id found = if not sysfs_valid then some false else elim id [
    | none ↦ some false
    | some n ↦
        let status = fan_status io (sub32 n 1) in
        if not found then some false else (status >>= λ s. some (not (s == fan_not_found)))
  ]

-- `is_smm_dell`: the name of the chip, and the result of `SMM::found`.
unfoldable pub starts_with : Text → Text → Bool
starts_with [] s = true
starts_with (a ∷ prefix) [] = false
starts_with (a ∷ prefix) (b ∷ s) = a == b && starts_with prefix s

unfoldable pub is_smm_dell : Text → Text → Bool → Bool
unfolding starts_with
is_smm_dell prefix name found = if not (starts_with prefix name) then false else found
