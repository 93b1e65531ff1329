-- ===== src/Client/Output/Table.antt =====
-- The columns of the status table.
use mathlib.Core.Path.{ap₂}
use fancon.Common.{
  ℕ, ◌+◌, ◌-◌, ◌≤◌, ◌<◌, ◌≡◌, refl, List, [], ◌∷◌, ◌++◌, length, length-append, length-replicate,
  replicate, map, All, arith,
}
use fancon.Controller.{FanStatus, enabled, disabled, testing}
use fancon.Util.Text.{Text, codes, show}
use fancon.Util.Text.Decimal.{length-show, length-show_four}
use fancon.Client.Output.{FanMessage, pad, extras, text_of, longest, row, table}

length-pad : (w : ℕ) (s : Text) → length s ≤ w → length (pad w s) ≡ w
unfolding pad
length-pad w s h = omega (
  arith,
  length-append (replicate (w - length s) 32) s,
  length-replicate {A = ℕ} (w - length s) 32,
)

-- How wide the columns are between the label and the status.
abbrev pub between : FanStatus → ℕ
between disabled = 3
between enabled = 18
between testing = 18

shown :
    (rpm pwm : ℕ)
    → rpm < 10000
    → pwm < 1000
    → length (pad 4 (show rpm) ++ (codes "rpm, " ++ (pad 3 (show pwm) ++ codes "pwm"))) ≡ 15
shown rpm pwm r p = omega (
  arith,
  length-append (pad 4 (show rpm)) (codes "rpm, " ++ (pad 3 (show pwm) ++ codes "pwm")),
  length-append (pad 3 (show pwm)) (codes "pwm"),
  length-pad 4 (show rpm) (length-show_four rpm r),
  length-pad 3 (show pwm) (length-show pwm p),
)

length-extras :
    (s : FanStatus) (rpm pwm : ℕ)
    → rpm < 10000
    → pwm < 1000
    → length (extras s rpm pwm) + 3 ≡ between s
unfolding extras
length-extras disabled rpm pwm r p = refl
length-extras enabled rpm pwm r p = omega (arith, shown rpm pwm r p)
length-extras testing rpm pwm r p = omega (arith, shown rpm pwm r p)

length-row :
    (l m : ℕ) (s : FanMessage)
    → length s.label ≤ l
    → length (text_of s.fan_status) ≤ m
    → s.rpm < 10000
    → s.pwm < 1000
    → length (row l m s) ≡ l + between s.fan_status + m
unfolding row
length-row l m s h k r p =
    let status : Text = pad m (text_of s.fan_status) in
    let more : Text = extras s.fan_status s.rpm s.pwm in
    omega (
      arith,
      length-append (pad l s.label) (codes ": " ++ (more ++ (codes " " ++ status))),
      length-append more (codes " " ++ status),
      length-pad l s.label h,
      length-pad m (text_of s.fan_status) k,
      length-extras s.fan_status s.rpm s.pwm r p,
    )

-- A message with at most four digits of RPM and three of PWM.
abbrev pub Short : FanMessage → Type 0
Short s = (s.rpm < 10000) × (s.pwm < 1000)

rows_lem :
    (l m : ℕ) (ss : List FanMessage)
    → All Short ss
    → longest (λ s. s.label) ss ≤ l
    → longest (λ s. text_of s.fan_status) ss ≤ m
    → map length (map (row l m) ss) ≡ map (λ s. l + between s.fan_status + m) ss
unfolding longest
rows_lem l m [] a h k = refl
rows_lem l m (s ∷ ss) a h k =
    ap₂ (λ (n : ℕ) ns. n ∷ ns)
      (length-row l m s (omega arith) (omega arith) (omega arith) (omega arith))
      (rows_lem l m ss a.1 (omega arith) (omega arith))

-- The columns of the status table are aligned: where each RPM has at most four digits and each PWM at
-- most three, the rows of fans that are not disabled all have the length of the longest label, that of
-- the longest status and 18 characters more, and those of disabled fans 15 fewer.
pub table-aligned :
    (statuses : List FanMessage)
    → All Short statuses
    → map length (table statuses)
      ≡ map
          (λ s.
            longest (λ t. t.label) statuses
            + between s.fan_status
            + longest (λ t. text_of t.fan_status) statuses)
          statuses
unfolding table
table-aligned statuses a =
    rows_lem (longest (λ s. s.label) statuses) (longest (λ s. text_of s.fan_status) statuses)
      statuses a (omega arith) (omega arith)
