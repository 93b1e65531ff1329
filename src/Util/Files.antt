-- ===== src/Util/Files.antt =====
-- src/util/Util.cpp and src/util/Util.hpp: `real_path`, `read_line`, and the overloads of `read` and
-- `write` for a path that may be absent.
use fancon.Common.{Bool, false, Option, none, some, if◌then◌else◌}
use fancon.Common.Int.{ℤ}
use fancon.Util.Text.{Text}

-- The file system, with `Util::read<int>`, and `Util::write` of a number.
pub record FileSystem (W : Type 0) : Type 0 where
  pub absolute : Text → W → Text
  pub exists : Text → W → Bool
  pub resolve : Text → W → Option Text
  pub read : Text → W → Option ℤ
  pub write : Text → ℤ → W → Bool × W

module _ {W : Type 0} (fs : FileSystem W) where
  -- `resolve` stands for `realpath`.
  unfoldable pub real_path : Text → W → Option Text
  real_path p w = let abs = fs.absolute p w in if fs.exists abs w then fs.resolve abs w else none

  unfoldable pub read_optional : Option Text → W → Option ℤ
  read_optional none w = none
  read_optional (some p) w = fs.read p w

  unfoldable pub write_optional : Option Text → ℤ → W → Bool × W
  write_optional none n w = (false, w)
  write_optional (some p) n w = fs.write p n w

-- What one try of `read_line` comes to: the file was not opened, no line was read, or a line was.
pub data LineResult : Type 0 where
  closed_file no_line : LineResult
  line : Text → LineResult

unfoldable pub line_of : LineResult → Option Text
line_of closed_file = none
line_of no_line = none
line_of (line s) = some s

-- A file that is not opened is not tried again.
unfoldable pub read_line : {W : Type 0} → (W → LineResult × W) → (W → Bool) → W → Option Text × W
unfolding line_of
read_line attempt exists w =
    let (first, w') = attempt w in
    let (second, w'') = attempt w' in
    elim first [
      | closed_file ↦ (none, w')
      | no_line ↦ if exists w' then (line_of second, w'') else (none, w')
      | line s ↦ (some s, w')
    ]
