-- ===== src/Client/Sysinfo/Examples.antt =====
-- A directory whose link leads back to it.
use fancon.Common.{◌≡◌, false, none, some, List, [], ◌∷◌, map}
use fancon.Util.Text.{Text, codes}
use fancon.Client.Sysinfo.{Item, item_line, enumerate_directory}
use fancon.Client.Sysinfo.Links.{enumerate_directory-again}

abbrev loop : Text → List Item
loop dir =
    record {
      path = codes "/sys/class/hwmon/hwmon0";
      shown = codes "\"/sys/class/hwmon/hwmon0\"";
      is_regular_file = false;
      first_line = none;
      target = some (codes "/sys/class/hwmon");
    }
    ∷ []

abbrev hwmon : Text
hwmon = codes "/sys/class/hwmon"

enumerate_directory-again_example :
    (lines all : List Text) × (enumerate_directory 2 loop hwmon 0 [] ≡ some (lines, all))
    × (enumerate_directory 5 loop hwmon 0 [] ≡ some (lines, all))
    × (enumerate_directory 2 loop hwmon 0 all ≡ some (map item_line (loop hwmon), all))
enumerate_directory-again_example = enumerate_directory-again loop hwmon 3 []
