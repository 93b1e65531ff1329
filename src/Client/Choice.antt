-- ===== src/Client/Choice.antt =====
-- The commands that are given without a connection.
use fancon.Common.{◌≢◌, Bool, false, arith}
use fancon.Client.{
  CliArgs, status, reload, stop_service, nv_init, disable_all, needs_connection, command, run,
}

-- Without a connection no status is asked for, and neither a reload, the end of the service, the
-- start of NVIDIA's control, nor the end of the control of all fans.
pub run-connected :
    (args : CliArgs) (offer answer : Bool)
    → let c = run args false offer answer in
      (c ≢ status) × (c ≢ reload) × (c ≢ stop_service) × (c ≢ nv_init) × (c ≢ disable_all)
unfolding run command needs_connection
run-connected args offer answer =
    (ground arith, ground arith, ground arith, ground arith, ground arith)
