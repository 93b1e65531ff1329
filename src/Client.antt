-- ===== src/Client.antt =====
-- src/Client.cpp: the choice of the command in `run`, and the text of a status.
pub mod Choice
pub mod Output
pub mod Sysinfo
use Prim.Native.String.{String}
use fancon.Common.{Bool, true, not, ◌&&◌, ◌||◌, if◌then◌else◌}
use fancon.Controller.{FanStatus, enabled, disabled, testing}
use fancon.Arguments.{Arg, has_value}

-- The arguments that `run` reads.
pub record CliArgs : Type 0 where
  pub help : Arg
  pub status : Arg
  pub enable : Arg
  pub disable : Arg
  pub test : Arg
  pub force : Arg
  pub monitor : Arg
  pub reload : Arg
  pub config : Arg
  pub stop_service : Arg
  pub sysinfo : Arg
  pub recover : Arg
  pub nv_init : Arg

-- What the client does: a command with the label or the flag that it is given.
pub data Command : Type 0 where
  unavailable print_help status : Command
  enable_all disable_all : Command
  enable disable monitor sysinfo : String → Command
  test : String → Bool → Command
  test_all : Bool → Command
  reload stop_service recover nv_init : Command
  nothing : Command

-- The arguments whose commands are not given without a connection.
unfoldable pub needs_connection : CliArgs → Bool
needs_connection args =
    args.status.triggered || args.disable.triggered || args.test.triggered || args.reload.triggered
    || args.stop_service.triggered || args.nv_init.triggered || args.sysinfo.triggered

-- The chain of conditions; `offer` tells whether a terminal without a configuration is there, and
-- `answer` whether the user accepts the offer of a test.
unfoldable pub command : CliArgs → Bool → Bool → Command
command args offer answer =
    if args.help.triggered
    then print_help
    else if args.status.triggered
    then status
    else if args.enable.triggered
    then (if has_value args.enable then enable args.enable.value else enable_all)
    else if args.disable.triggered
    then (if has_value args.disable then disable args.disable.value else disable_all)
    else if args.test.triggered
    then (if has_value args.test then test args.test.value true else test_all args.force.triggered)
    else if args.monitor.triggered
    then monitor args.monitor.value
    else if args.reload.triggered
    then reload
    else if args.stop_service.triggered
    then stop_service
    else if args.recover.triggered
    then recover
    else if args.nv_init.triggered
    then nv_init
    else if args.sysinfo.triggered
    then sysinfo args.sysinfo.value
    else if offer
    then (if answer then test_all args.force.triggered else nothing)
    else print_help

unfoldable pub run : CliArgs → Bool → Bool → Bool → Command
run args connected offer answer =
    if needs_connection args && not connected then unavailable else command args offer answer

unfoldable pub status_text : FanStatus → String
status_text enabled = "enabled"
status_text disabled = "disabled"
status_text testing = "testing"
