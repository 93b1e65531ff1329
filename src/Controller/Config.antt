-- ===== src/Controller/Config.antt =====
-- src/Controller.cpp: the settings read from a message, `from`, and written to one, `to`. The
-- message has the fields of the settings, each below 2 ^ 32.
use fancon.Common.{◌%◌, ◌<◌, ◌≡◌, ltb, if◌then◌else◌, arith}
use fancon.Common.Words.{u32_mod}
use fancon.Fan.{Settings}

-- An interval of 0 leaves the one there is.
unfoldable pub config_from : Settings → Settings → Settings
config_from message fc = record {
  update_interval =
      if ltb 0 message.update_interval then message.update_interval else fc.update_interval;
  dynamic = message.dynamic;
  smoothing_intervals = message.smoothing_intervals;
  top_stickiness_intervals = message.top_stickiness_intervals;
  temp_averaging_intervals = message.temp_averaging_intervals;
}

unfoldable pub config_to : Settings → Settings
config_to fc = record fc { update_interval = fc.update_interval % u32_mod }

-- Settings whose interval is positive and fits in the message are read back as they were written,
-- whatever the settings were before.
pub config_from-to :
    (fc before : Settings)
    → 0 < fc.update_interval
    → fc.update_interval < u32_mod
    → config_from (config_to fc) before ≡ fc
unfolding config_from config_to
config_from-to fc before p b = ground (arith, p, b)
