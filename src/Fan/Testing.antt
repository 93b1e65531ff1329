-- ===== src/Fan/Testing.antt =====
-- `fc::Fan::test` and the functions that it calls. A loop whose end rests on the hardware, or on
-- the wrap-around of `uint`, takes fuel.
pub mod Result
pub mod Loops
pub mod Steady
pub mod Total
pub mod Interval
use Prim.Native.Nat.{min}
use fancon.Common.{
  ℕ, zero, suc, ◌+◌, ◌-◌, ◌*◌, ◌%◌, Bool, true, false, not, ◌&&◌, Option, none, some, List, [], ◌∷◌,
  ◌++◌, ltb, leb, ◌==◌, if◌then◌else◌, length,
}
use fancon.Common.Int.{ℤ, pos, negsuc, pos_part, neg_part, ◌+ℤ◌}
use fancon.Common.Words.{sub32, add32, to_int32}
use fancon.Common.OrdMap.{insert, nat_less}
use fancon.Fan.{Fan, Settings, pwm_min, pwm_max}
use fancon.Fan.Driver.{Driver}
use fancon.Fan.Mapping.{rpm_to_pwm_from}
use fancon.Fan.World.{
  Outcome, ok, undefined, stuck, M, ◌>>=◌, ◌>>◌, return, diverge, call, sleep_for_interval,
}

-- `std::abs`
abbrev pub abs : ℤ → ℕ
abs a = pos_part a + neg_part a

-- The speed changed by a tenth of the new one at most.
unfoldable pub is_stable : ℕ → ℕ → Bool
is_stable prev cur = leb (10 * abs (to_int32 (sub32 cur prev))) cur

-- `!cur_rpm || *cur_rpm == 0`
abbrev pub stands_still : Option ℕ → Bool
stands_still none = true
stands_still (some rpm) = rpm == 0

-- The loop that saves the first `last_i` results.
abbrev pub save_first : ℕ → List (ℕ × ℕ) → List (ℕ × ℕ) → List (ℕ × ℕ)
save_first zero results pwm_to_rpm = pwm_to_rpm
save_first (suc n) [] pwm_to_rpm = pwm_to_rpm
save_first (suc n) ((pwm, rpm) ∷ results) pwm_to_rpm =
    save_first n results (insert pwm rpm pwm_to_rpm)

-- `pwm_to_rpm[pwm] = *cur_rpm`, which is undefined if there is no RPM.
unfoldable pub record_start : {W : Type 0} → Option ℕ → ℕ → List (ℕ × ℕ) → M W (ℕ × List (ℕ × ℕ))
record_start none start_pwm pwm_to_rpm = λ w. undefined
record_start (some rpm) start_pwm pwm_to_rpm = return (start_pwm, insert start_pwm rpm pwm_to_rpm)

-- `if (cur_rpm) pwm_to_rpm[target] = *cur_rpm`
unfoldable pub record_point : Option ℕ → ℕ → List (ℕ × ℕ) → List (ℕ × ℕ)
record_point none target pwm_to_rpm = pwm_to_rpm
record_point (some rpm) target pwm_to_rpm = insert target rpm pwm_to_rpm

module _ {W : Type 0} (driver : Driver W) (fc : Settings) (interval : ℕ) where
  abbrev rest_interval : M W (Unit {0})
  rest_interval = sleep_for_interval driver fc interval

  -- The loop of `set_stabilised_pwm`.
  unfoldable pub stabilise : ℕ → ℕ → ℕ → ℕ → M W (Option ℕ)
  stabilise zero pwm cur reached w = if leb reached 3 then stuck else ok (some cur, w)
  stabilise (suc fuel) pwm cur reached w =
      let round : Outcome (Option ℕ × W) =
        (do
          rest_interval
          p ← call driver.get_pwm
          if not (p == pwm) then return none else do
            next ← call driver.get_rpm
            stabilise fuel pwm next (if is_stable cur next then reached + 1 else 0))
          w in
      if leb reached 3 then round else ok (some cur, w)

  unfoldable pub set_stabilised_pwm : ℕ → ℕ → M W (Option ℕ)
  set_stabilised_pwm fuel pwm = do
    done ← call (driver.set_pwm pwm)
    if not done then return none else do cur ← call driver.get_rpm; stabilise fuel pwm cur 0

  -- The loop of `set_pwm_test`, with the rounds that are left.
  unfoldable pub poll : ℕ → ℕ → M W Bool
  poll zero target = return false
  poll (suc left) target = do
    p ← call driver.get_pwm
    if p == target then return true else do rest_interval; poll left target

  unfoldable pub set_pwm_test : M W Bool
  set_pwm_test = do
    cur ← call driver.get_pwm
    let target = if not (cur == pwm_min) then pwm_min else pwm_max
    done ← call (driver.set_pwm target)
    if not done then return false else poll 10 target

  -- `pwm_to_rpm[get_pwm()] = get_rpm()`: the right side is evaluated first.
  unfoldable pub test_stopped : ℕ → List (ℕ × ℕ) → M W (List (ℕ × ℕ))
  test_stopped fuel pwm_to_rpm = do
    cur ← set_stabilised_pwm fuel pwm_min
    rpm ← call driver.get_rpm
    pwm ← call driver.get_pwm
    return (insert pwm rpm pwm_to_rpm)

  -- The loop of `test_start`, with the rounds that are left.
  unfoldable pub seek_start : ℕ → ℕ → Option ℕ → ℕ → M W (Option ℕ)
  seek_start fuel zero cur_rpm target =
      if stands_still cur_rpm && leb target pwm_max then diverge else return cur_rpm
  seek_start fuel (suc left) cur_rpm target =
      let round : M W (Option ℕ) = (do
        cur ← set_stabilised_pwm fuel target
        seek_start fuel left cur (target + 2)) in
      if stands_still cur_rpm && leb target pwm_max then round else return cur_rpm

  -- The new value of `target_pwm` is not used. `*cur_rpm` is undefined if the last PWM was refused.
  unfoldable pub test_start : ℕ → List (ℕ × ℕ) → M W (ℕ × List (ℕ × ℕ))
  test_start fuel pwm_to_rpm = do
    cur_rpm ← seek_start fuel 128 (some 0) pwm_min
    rest_interval
    start_pwm ← call driver.get_pwm
    record_start cur_rpm start_pwm pwm_to_rpm

  -- The loop of `test_running_min`. `target_pwm >= PWM_MIN` holds of every `uint`.
  unfoldable pub slow_down : ℕ → ℕ → ℕ → List (ℕ × ℕ) → M W (List (ℕ × ℕ))
  slow_down fuel zero target results = diverge
  slow_down fuel (suc left) target results = do
    cur_rpm ← set_stabilised_pwm fuel target
    elim cur_rpm [
      | none ↦ slow_down fuel left (sub32 target 2) results
      | some rpm ↦
          let faster = slow_down fuel left (sub32 target 2) (results ++ (target, rpm) ∷ []) in
          if rpm == 0 then return results else faster
    ]

  unfoldable pub test_running_min : ℕ → ℕ → List (ℕ × ℕ) → M W (List (ℕ × ℕ))
  test_running_min fuel start_pwm pwm_to_rpm = do
    results ← slow_down fuel fuel start_pwm []
    return
        (save_first (if ltb 2 (length results) then length results - 2 else 0) results pwm_to_rpm)

  -- The loop of `test_mapping`, with the rounds that are left.
  unfoldable pub speed_up : ℕ → ℕ → ℕ → List (ℕ × ℕ) → M W (List (ℕ × ℕ))
  speed_up fuel zero target pwm_to_rpm = if leb target pwm_max then diverge else return pwm_to_rpm
  speed_up fuel (suc left) target pwm_to_rpm =
      let round : M W (List (ℕ × ℕ)) = (do
        cur_rpm ← set_stabilised_pwm fuel target
        speed_up fuel left (target + (if ltb target (pwm_max - 1) then 2 else 1))
            (record_point cur_rpm target pwm_to_rpm)) in
      if leb target pwm_max then round else return pwm_to_rpm

  unfoldable pub test_mapping : ℕ → ℕ → List (ℕ × ℕ) → M W (List (ℕ × ℕ))
  test_mapping fuel start_pwm =
      speed_up fuel 256 (min (add32 start_pwm (if not (start_pwm % 2 == 0) then 1 else 2)) pwm_max)

-- The fan after the test, whether it passed, and the values that `status` was given, in order.
pub record Tested : Type 0 where
  pub fan : Fan
  pub passed : Bool
  pub statuses : List ℤ

-- `status = v` and `status += v`, over the value and those that were given out.
unfoldable pub assigned : ℤ → ℤ × List ℤ → ℤ × List ℤ
assigned v (value, given) = (v, given ++ v ∷ [])

unfoldable pub added : ℤ → ℤ × List ℤ → ℤ × List ℤ
unfolding assigned
added v (value, given) = assigned (value +ℤ v) (value, given)

module _ {W : Type 0} (driver : Driver W) (fc : Settings) where
  -- The four tests, between the first two `if`s and the write of the old PWM, with the status after
  -- each: it is set before the first and after the last, and added to after the others.
  unfoldable pub measure : ℕ → ℕ → ℤ × List ℤ → M W ((ℕ × List (ℕ × ℕ)) × (ℤ × List ℤ))
  unfolding assigned added
  measure fuel interval status = do
    stopped ← test_stopped driver fc interval fuel []
    (start_pwm, started) ← test_start driver fc interval fuel stopped
    running ← test_running_min driver fc interval fuel start_pwm started
    mapped ← test_mapping driver fc interval fuel start_pwm running
    return (
      (start_pwm, mapped),
      assigned (pos 100)
          (added (pos 25) (added (pos 30) (added (pos 20) (assigned (pos 0) status)))),
    )

  unfoldable pub take_control : ℕ → M W Bool
  take_control interval = do
    enabled ← call driver.enable_control
    if enabled then set_pwm_test driver fc interval else return false

  unfoldable pub give_up : Fan → M W Tested
  unfolding assigned
  give_up fan = do
    done ← call driver.disable_control
    return (record { fan = fan; passed = false; statuses = (assigned (negsuc 0) (pos 0, [])).1 })

  unfoldable pub finish : ℕ → Fan → ℕ → M W Tested
  finish fuel fan pre_pwm = do
    ((start_pwm, pwm_to_rpm), status) ← measure fuel fan.interval (pos 0, [])
    restored ← call (driver.set_pwm pre_pwm)
    return (record {
      fan = record fan { start_pwm = start_pwm; rpm_to_pwm = rpm_to_pwm_from pwm_to_rpm };
      passed = true;
      statuses = status.1;
    })

  unfoldable pub test : ℕ → Fan → M W Tested
  unfolding take_control give_up finish
  test fuel fan = do
    pre_pwm ← call driver.get_pwm
    taken ← take_control fan.interval
    if taken then finish fuel fan pre_pwm else give_up fan

-- `fc::Fan::tested`
unfoldable pub tested : Fan → Bool
tested fan =
    (leb pwm_min fan.start_pwm && leb fan.start_pwm pwm_max)
    && not (elim fan.rpm_to_pwm [ [] ↦ true | ◌∷◌ x m ↦ false ])
