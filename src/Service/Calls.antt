-- ===== src/Service/Calls.antt =====
-- What the calls answer, and what a client sees after them.
use Prim.Native.String.{String}
use text.Mathlib.TextPositions.{eq_refl}
use fancon.Common.{ℕ, ◌≡◌, refl, Bool, true, false, none, some, arith}
use fancon.Controller.{disabled, FanOps, Controller, find, contains, status, disable}
use fancon.Controller.Maps.{contains-find, find-none}
use fancon.Controller.Merge.Removed.{status-disable-Lost, fans-disable}
use fancon.Service.{
  ok, not_found, enable_found, enable_call, disable_call, test_found, test_call, status_message,
  get_fan_status_call, answered,
}
use fancon.Controller.Blocked.{disable_or_hang}

module _ {F W : Type 0} (ops : FanOps F W) where
  -- Of a label that no device has, each call that names a fan answers NOT_FOUND with the label, and
  -- changes nothing.
  pub calls-not_found :
      (get_rpm get_pwm : F → W → ℕ) (l : String) (c : Controller F W)
      → contains l c.fans ≡ false
      → (enable_call ops l c ≡ (not_found l, c))
        × (disable_call ops l c ≡ some (not_found l, c))
        × ((forced : Bool) → test_call ops l forced c ≡ some (not_found l, c))
        × (get_fan_status_call ops get_rpm get_pwm l c ≡ (not_found l, none))
  unfolding enable_call enable_found disable_call test_call test_found get_fan_status_call
      status_message
  calls-not_found get_rpm get_pwm l c h =
      let n : find l c.fans ≡ none = find-none l c.fans h in
      (rw n refl, rw h refl, λ forced. rw n refl, rw n refl)

  -- After a call that disables a fan, and returns, the service reports it as disabled, with the label
  -- and what the fan's RPM and PWM then are.
  pub disable_call-status :
      (get_rpm get_pwm : F → W → ℕ) (l : String) (f : F) (c d : Controller F W)
      → find l c.fans ≡ some f
      → disable_or_hang ops l c ≡ some d
      → (disable_call ops l c ≡ some (ok, d))
        × (get_fan_status_call ops get_rpm get_pwm l d ≡ (
          ok,
          some (record {
            label = l;
            fan_status = disabled;
            rpm = get_rpm f d.world;
            pwm = get_pwm f d.world;
          }),
        ))
  unfolding disable_call get_fan_status_call status_message disable_or_hang answered
  disable_call-status get_rpm get_pwm l f c d h e =
      let same : d ≡ disable ops l c = ground (arith, e) in
      let present : contains l c.fans ≡ true = ground (arith, contains-find l c.fans, h) in
      let off : status ops l (disable ops l c) ≡ disabled =
        ground (arith, status-disable-Lost ops l l c, eq_refl l) in
      (rw (present, e) refl, rw same (ground (arith, off, fans-disable ops l c, h)))
