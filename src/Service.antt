-- ===== src/Service.antt =====
-- src/Service.cpp: the calls of the service that change the tasks or report on them, over the
-- controller.
pub mod Calls
pub mod Settings
pub mod Daemon
pub mod Subscribe
mod Examples
use Prim.Native.String.{String}
use fancon.Common.{ℕ, Bool, true, not, Option, none, some, List, if◌then◌else◌}
use fancon.Controller.{
  FanStatus, FanOps, Controller, find, contains, status, enable, enable_all, recover,
}
use fancon.Controller.Blocked.{
  disable_or_hang, disable_all_or_hang, test_or_hang, set_devices_or_hang,
}
use fancon.Controller.Merge.{reload}

-- `grpc::Status`, with the message of an error.
pub data RpcStatus : Type 0 where
  ok : RpcStatus
  not_found : String → RpcStatus

-- `fc_pb::FanStatus`
pub record StatusMessage : Type 0 where
  pub label : String
  pub fan_status : FanStatus
  pub rpm : ℕ
  pub pwm : ℕ

module _ {F W : Type 0} (ops : FanOps F W) where
  unfoldable pub enable_found : String → Option F → Controller F W → RpcStatus × Controller F W
  enable_found l none c = (not_found l, c)
  enable_found l (some f) c = (ok, enable ops f c)

  -- `Service::Enable`
  unfoldable pub enable_call : String → Controller F W → RpcStatus × Controller F W
  enable_call l c = enable_found l (find l c.fans) c

  unfoldable pub enable_all_call : Controller F W → RpcStatus × Controller F W
  enable_all_call c = (ok, enable_all ops c)

  -- The answer of a call that returns.
  unfoldable pub answered : Option (Controller F W) → Option (RpcStatus × Controller F W)
  answered none = none
  answered (some c) = some (ok, c)

  -- `Service::Disable`; in this call and the others below `none` stands for a call that never returns
  -- or is undefined.
  unfoldable pub disable_call : String → Controller F W → Option (RpcStatus × Controller F W)
  unfolding answered
  disable_call l c =
      if not (contains l c.fans) then some (not_found l, c) else answered (disable_or_hang ops l c)

  unfoldable pub disable_all_call : Controller F W → Option (RpcStatus × Controller F W)
  unfolding answered
  disable_all_call c = answered (disable_all_or_hang ops c)

  unfoldable pub test_found :
      String → Bool → Option F → Controller F W → Option (RpcStatus × Controller F W)
  unfolding answered
  test_found l forced none c = some (not_found l, c)
  test_found l forced (some f) c = answered (test_or_hang ops forced true 1 f c)

  -- `Service::Test`, up to where it waits for the end of a test that it starts; the client is the one
  -- observer.
  unfoldable pub test_call : String → Bool → Controller F W → Option (RpcStatus × Controller F W)
  test_call l forced c = test_found l forced (find l c.fans) c

  unfoldable pub set_devices_call :
      List (String × F) → Controller F W → Option (RpcStatus × Controller F W)
  unfolding answered
  set_devices_call fans c = answered (set_devices_or_hang ops fans c)

  unfoldable pub reload_call :
      List (String × F)
      → Option (List (String × F))
      → Controller F W
      → Option (RpcStatus × Controller F W)
  unfolding answered
  reload_call enumerated conf c = answered (reload ops enumerated conf c)

  -- `Controller::nv_init`, with whether the driver was started.
  unfoldable pub nv_init :
      Bool
      → List (String × F)
      → Option (List (String × F))
      → Controller F W
      → Option (Controller F W)
  nv_init started enumerated conf c = if started then reload ops enumerated conf c else some c

  unfoldable pub nv_init_call :
      Bool
      → List (String × F)
      → Option (List (String × F))
      → Controller F W
      → Option (RpcStatus × Controller F W)
  unfolding nv_init answered
  nv_init_call started enumerated conf c = answered (nv_init started enumerated conf c)

  unfoldable pub recover_call : Controller F W → RpcStatus × Controller F W
  recover_call c = (ok, recover ops c)

  -- The message of a fan, with what reads its RPM and PWM.
  unfoldable pub status_message :
      (F → W → ℕ)
      → (F → W → ℕ)
      → String
      → Option F
      → Controller F W
      → RpcStatus × Option StatusMessage
  status_message get_rpm get_pwm l none c = (not_found l, none)
  status_message get_rpm get_pwm l (some f) c = (
    ok,
    some (record {
      label = l;
      fan_status = status ops l c;
      rpm = get_rpm f c.world;
      pwm = get_pwm f c.world;
    }),
  )

  -- `Service::GetFanStatus`
  unfoldable pub get_fan_status_call :
      (F → W → ℕ) → (F → W → ℕ) → String → Controller F W → RpcStatus × Option StatusMessage
  get_fan_status_call get_rpm get_pwm l c = status_message get_rpm get_pwm l (find l c.fans) c
