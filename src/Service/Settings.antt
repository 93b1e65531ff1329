-- ===== src/Service/Settings.antt =====
-- src/Service.cpp: `GetControllerConfig` and `SetControllerConfig`, with the settings that
-- `Controller::reload` takes from the file.
use fancon.Common.{◌≡◌, refl, Option, none, some, arith, ltb, if◌then◌else◌}
use fancon.Fan.{Settings}
use fancon.Controller.Config.{config_from, config_to}
use fancon.Service.{RpcStatus, ok}

unfoldable pub get_controller_config_call : Settings → RpcStatus × Settings
get_controller_config_call fc = (ok, config_to fc)

-- `reload` reads the settings again, if there is a file.
unfoldable pub reload_settings : Option Settings → Settings → Settings
reload_settings none fc = fc
reload_settings (some file) fc = config_from file fc

unfoldable pub set_controller_config_call :
    Settings → Option Settings → Settings → RpcStatus × Settings
unfolding reload_settings
set_controller_config_call config file fc = (ok, reload_settings file (config_from config fc))

-- Settings that a client sets hold only where there is no file of the configuration: with a file, the
-- reload puts back the file's settings, and of those sent only a positive update interval is kept,
-- where the file has none.
pub set_controller_config_call-file :
    (config file fc : Settings)
    → ((set_controller_config_call config none fc).1 ≡ config_from config fc)
      × ((set_controller_config_call config (some file) fc).1 ≡ record file {
        update_interval =
            if ltb 0 file.update_interval
            then file.update_interval
            else (config_from config fc).update_interval;
      })
unfolding set_controller_config_call config_from
set_controller_config_call-file config file fc = (refl, ground arith)
