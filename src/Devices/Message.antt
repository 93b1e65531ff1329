-- ===== src/Devices/Message.antt =====
-- src/Devices.cpp: `Devices::to`; src/Service.cpp: the calls that give the devices.
use Prim.Native.String.{String}
use fancon.Common.{Bool, List, [], ◌++◌, map}
use fancon.Service.{RpcStatus, ok}
use fancon.Devices.Enumerate.{Chip, Makers, enumerate}

-- `fc_pb::Devices`, over the messages of fans and sensors.
pub record Devices (FM SM : Type 0) : Type 0 where
  pub fan : List FM
  pub sensor : List SM

module _ {F S FM SM : Type 0} (fan_to : F → FM) (sensor_to : S → SM) where
  -- The messages are added to those that are there.
  unfoldable pub devices_to : List (String × F) × List (String × S) → Devices FM SM → Devices FM SM
  devices_to (fans, sensors) d = record {
    fan = d.fan ++ map (λ e. fan_to (e.1)) fans;
    sensor = d.sensor ++ map (λ e. sensor_to (e.1)) sensors;
  }

  unfoldable pub get_devices_call :
      List (String × F) × List (String × S) → RpcStatus × Devices FM SM
  unfolding devices_to
  get_devices_call devices = (ok, devices_to devices (record { fan = []; sensor = [] }))

  -- `nvidia_devices` adds the devices of the NVIDIA driver.
  unfoldable pub get_enumerated_devices_call :
      Makers F S
      → Bool
      → List Chip
      → (List (String × F) × List (String × S) → List (String × F) × List (String × S))
      → RpcStatus × Devices FM SM
  unfolding enumerate get_devices_call
  get_enumerated_devices_call make found chips nvidia_devices =
      get_devices_call (nvidia_devices (enumerate make found chips ([], [])))
