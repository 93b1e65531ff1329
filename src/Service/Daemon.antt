-- ===== src/Service/Daemon.antt =====
-- src/Service.cpp: `daemonize`, `run`, `shutdown` and `StopService`; src/main.cpp: the choice between
-- the service and the client, and the handler of signals. The calls of the system and of gRPC are
-- parameters: what they return.
use Prim.Native.String.{String}
use fancon.Common.{ℕ, ◌≡◌, Bool, true, false, not, ◌&&◌, arith, if◌then◌else◌}
use fancon.Common.Int.{ℤ, pos, negsuc, leb_ℤ, ltb_ℤ, ◌≤ℤ◌}
use fancon.Controller.{FanOps, Controller, enable_all, disable_all}
use fancon.Service.{RpcStatus, ok}

-- How a process goes on: it exits, with a success or not, or runs behind.
pub data Process : Type 0 where
  exits : Bool → Process
  goes_on : Process

-- `fork_thread`, in either process, with what `fork` returns there.
unfoldable pub fork_thread : ℤ → Process
fork_thread pid =
    if leb_ℤ (pos 0) pid
    then exits true
    else if leb_ℤ pid (negsuc 0) && leb_ℤ (negsuc 0) pid
    then exits false
    else goes_on

unfoldable pub then_on : Process → Process → Process
then_on (exits success) next = exits success
then_on goes_on next = next

unfoldable pub new_session : ℤ → Process
new_session sid = if ltb_ℤ sid (pos 0) then exits false else goes_on

unfoldable pub daemonize : ℤ → ℤ → ℤ → Process
unfolding fork_thread then_on new_session
daemonize first sid second =
    then_on (fork_thread first) (then_on (new_session sid) (fork_thread second))

-- Whatever `fork` returns, a process id in the parent, 0 in the child, or -1, the process exits: no
-- daemon is left, with success exactly where the fork succeeds.
pub daemonize-exits :
    (first sid second : ℤ)
    → negsuc 0 ≤ℤ first
    → daemonize first sid second ≡ exits (leb_ℤ (pos 0) first)
unfolding daemonize
daemonize-exits first sid second h = ground (arith, h)

-- The server: not built, or running until it is shut down.
pub data Server : Type 0 where
  no_server running shut_down : Server

unfoldable pub shutdown : Server → Server
shutdown no_server = no_server
shutdown running = shut_down
shutdown shut_down = shut_down

unfoldable pub stop_service_call : Server → RpcStatus × Server
unfolding shutdown
stop_service_call s = (ok, shutdown s)

module _ {F W : Type 0} (ops : FanOps F W) where
  -- `run`, up to its wait: the fans are enabled where the server starts.
  unfoldable pub run : Bool → Controller F W → Server × Controller F W
  run builds c = if builds then (running, enable_all ops c) else (no_server, c)

  -- The destructors: of the service, then of its controller.
  unfoldable pub destroy : Server × Controller F W → Server × Controller F W
  unfolding shutdown
  destroy (s, c) = (shutdown s, disable_all ops c)

-- What `main` does, with its exit code for an end of its own.
pub data Start : Type 0 where
  ends : ℕ → Start
  serves : String → Bool → Start
  client : Start

unfoldable pub main : Bool → Bool → Bool → String → Bool → Start
main service is_root service_running config_path daemon =
    if service
    then (if not is_root
        then ends 1
        else if service_running
        then ends 0
        else serves config_path daemon)
    else client

-- The signals that are handled, and one that is registered and only warned about.
pub data Signal : Type 0 where
  sigint sigquit sigterm sigusr1 : Signal

unfoldable pub signal_handler : Signal → Server → Server
unfolding stop_service_call shutdown
signal_handler sigint s = (stop_service_call s).1
signal_handler sigquit s = (stop_service_call s).1
signal_handler sigterm s = (stop_service_call s).1
signal_handler sigusr1 s = s
