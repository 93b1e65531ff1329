-- ===== src/Client/Output.antt =====
-- src/Client.cpp: what the commands print, from the service's replies.
pub mod Table
mod Examples
use Prim.Native.Nat.{max}
use fancon.Common.{
  ℕ, ◌-◌, Bool, true, false, not, ◌&&◌, List, [], ◌∷◌, ◌++◌, ◌==◌, length, replicate, map,
  if◌then◌else◌,
}
use fancon.Common.Int.{ℤ, negsuc, leb_ℤ}
use fancon.Controller.{FanStatus, enabled, disabled, testing}
use fancon.Util.Text.{Text, codes, show, show_ℤ}
use fancon.Client.{status_text}

-- A line, by its stream or its level.
pub data Line : Type 0 where
  out info error fatal : Text → Line

-- `grpc::Status`, with its message and details.
pub data Status : Type 0 where
  ok unavailable : Status
  not_found : Text → Status
  other : Text → Text → Status

unfoldable pub is_ok : Status → Bool
is_ok ok = true
is_ok s = false

abbrev pub log_service_unavailable : Line
log_service_unavailable = fatal (codes "Unable to connect to service")

-- What `check` prints.
unfoldable pub check : Status → List Line
check ok = []
check unavailable = log_service_unavailable ∷ []
check (not_found message) = error (message ++ codes ": not found") ∷ []
check (other message details) = error (message ++ (codes ": " ++ details)) ∷ []

-- `fc_pb::FanStatus`
pub record FanMessage : Type 0 where
  pub label : Text
  pub fan_status : FanStatus
  pub rpm : ℕ
  pub pwm : ℕ

-- `setw(width) << s`
unfoldable pub pad : ℕ → Text → Text
pad width s = replicate (width - length s) 32 ++ s

unfoldable pub extras : FanStatus → ℕ → ℕ → Text
unfolding pad
extras disabled rpm pwm = []
extras enabled rpm pwm = pad 4 (show rpm) ++ (codes "rpm, " ++ (pad 3 (show pwm) ++ codes "pwm"))
extras testing rpm pwm = pad 4 (show rpm) ++ (codes "rpm, " ++ (pad 3 (show pwm) ++ codes "pwm"))

unfoldable pub text_of : FanStatus → Text
text_of s = codes (status_text s)

-- The greatest length, of the labels and of the statuses.
unfoldable pub longest : (FanMessage → Text) → List FanMessage → ℕ
longest column [] = 0
longest column (s ∷ statuses) = max (length (column s)) (longest column statuses)

unfoldable pub row : ℕ → ℕ → FanMessage → Text
unfolding pad extras text_of
row longest_label longest_status s =
    pad longest_label s.label
    ++ (codes ": "
        ++ (extras s.fan_status s.rpm s.pwm
            ++ (codes " " ++ pad longest_status (text_of s.fan_status))))

unfoldable pub table : List FanMessage → List Text
unfolding longest row text_of
table statuses =
    map (row (longest (λ s. s.label) statuses) (longest (λ s. text_of s.fan_status) statuses))
      statuses

-- The replies of `GetFanStatus`, with what `check` prints of those that fail.
unfoldable pub collect : List (Status × FanMessage) → List Line × List FanMessage
unfolding check
collect [] = ([], [])
collect ((s, message) ∷ replies) =
    let (lines, statuses) = collect replies in
    elim (is_ok s) [ true ↦ (lines, message ∷ statuses) | false ↦ (check s ++ lines, statuses) ]

-- `status`: the reply of `GetDevices`, and those for its fans.
unfoldable pub status : Status → List (Status × FanMessage) → List Line
unfolding collect table check
status devices [] = check devices ++ (info (codes "No devices found") ∷ [])
status devices (r ∷ replies) =
    if not (is_ok devices)
    then check devices ++ (info (codes "No devices found") ∷ [])
    else (let (lines, statuses) = collect (r ∷ replies) in lines ++ map out (table statuses))

-- `enable()` and `disable()`: the status is printed where the call succeeds.
unfoldable pub then_status : Status → List Line → List Line
unfolding check
then_status s printed = if is_ok s then printed else check s

-- `enable(flabel)` and `disable(flabel)`
unfoldable pub done : Text → Text → Status → List Line
unfolding check
done flabel word s = if is_ok s then info (flabel ++ word) ∷ [] else check s

-- `reload`, `stop_service`, `recover` and `nv_init`: a line for a success and one for a failure.
unfoldable pub report : List Line → Text → Status → List Line
unfolding check
report success failure s = if is_ok s then success else check s ++ (error failure ∷ [])

-- The loop of `test(flabel, forced)` over the responses.
unfoldable pub read_responses : Text → List ℤ → List Line
unfolding show_ℤ
read_responses flabel [] = []
read_responses flabel (r ∷ responses) =
    let rest = read_responses flabel responses in
    if leb_ℤ r (negsuc 0) && leb_ℤ (negsuc 0) r
    then error (flabel ++ codes ": test failed") ∷ []
    else info (flabel ++ (codes ": " ++ (show_ℤ r ++ codes "%"))) ∷ rest

unfoldable pub test_one : Text → List ℤ → Status → List Line
unfolding read_responses report
test_one flabel responses finished =
    read_responses flabel responses ++ report [] (flabel ++ codes ": test failed") finished

-- One message of `monitor`; of an empty label all fans are shown.
unfoldable pub same_text : Text → Text → Bool
same_text [] [] = true
same_text (a ∷ s) (b ∷ t) = a == b && same_text s t
same_text s t = false

unfoldable pub monitor_line : FanMessage → Text
monitor_line r =
    r.label
    ++ (codes ": " ++ elim r.fan_status [
      | disabled ↦ []
      | enabled ↦ show r.rpm ++ (codes "rpm, " ++ (show r.pwm ++ codes "pwm"))
      | testing ↦
          show r.rpm
          ++ (codes "rpm, " ++ (show r.pwm ++ (codes "pwm(" ++ (text_of testing ++ codes ")"))))
    ])

unfoldable pub monitor : Text → List FanMessage → List Line
unfolding monitor_line same_text text_of
monitor flabel [] = []
monitor flabel (r ∷ rs) =
    let rest = monitor flabel rs in
    if not (same_text flabel []) && not (same_text flabel r.label)
    then rest
    else out (monitor_line r) ∷ rest
