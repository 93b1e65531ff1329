-- ===== src/Controller/File.antt =====
-- src/Controller.cpp: the configuration's file. `to_file` opens it, writes to the stream, whose
-- buffer may take the text, notes the time of the last write, and lets the stream write the buffer out when it is destroyed at
-- the end of the function; `config_file_modified` compares the times.
use fancon.Common.{
  ℕ, ◌≡◌, ◌≢◌, Bool, true, false, not, ◌&&◌, Option, none, some, List, [], ◌∷◌, ◌==◌, arith,
  if◌then◌else◌,
}
use fancon.Util.Text.{Text}
use fancon.Controller.Watcher.{watch_once, reload_config, read_config, lock_config}

-- The file, with the time of its last write, if it exists; the time that the controller knows; and
-- what earlier files were moved to.
pub record ConfigFile : Type 0 where
  pub file : Option (Text × ℕ)
  pub config_write_time : ℕ
  pub backups : List Text

unfoldable pub exists : Option (Text × ℕ) → Bool
exists none = false
exists (some f) = true

unfoldable pub time_of : Option (Text × ℕ) → ℕ → ℕ
time_of none known = known
time_of (some (text, time)) known = time

unfoldable pub update_config_write_time : ConfigFile → ConfigFile
unfolding time_of
update_config_write_time s = record s { config_write_time = time_of s.file s.config_write_time }

unfoldable pub differs : Option (Text × ℕ) → ℕ → Bool
differs none known = false
differs (some (text, time)) known = not (known == time)

unfoldable pub config_file_modified : ConfigFile → Bool
unfolding differs
config_file_modified s = differs s.file s.config_write_time

-- `fs::rename` of the file to its backup.
unfoldable pub moved : Option (Text × ℕ) → List Text → List Text
moved none backups = backups
moved (some (text, time)) backups = text ∷ backups

unfoldable pub back_up : Bool → ConfigFile → ConfigFile
unfolding exists moved
back_up backup s =
    if backup && exists s.file
    then record s { file = none; backups = moved s.file s.backups }
    else s

-- The stream's buffer, written out at its end.
unfoldable pub closed : Text → ℕ → Option (Text × ℕ) → Option (Text × ℕ)
closed [] time file = file
closed (c ∷ text) time file = some (c ∷ text, time)

-- `to_file`, where the file opens or does not, with the times of its opening, of `<<` and of its end.
-- `buffered` tells of a text whether the stream's buffer takes it whole; a longer one is written by
-- `<<` itself. A stream that does not open throws nothing, since `exceptions()` only reads which
-- errors would.
unfoldable pub to_file : (Text → Bool) → Bool → Text → Bool → ℕ → ℕ → ℕ → ConfigFile → ConfigFile
unfolding back_up update_config_write_time closed
to_file buffered backup text opens opened printed ended s =
    let kept = back_up backup s in
    let held = buffered text in
    if opens
    then (let noted =
          update_config_write_time
            (record kept { file = some (if held then ([], opened) else (text, printed)) }) in
        record noted { file = if held then closed text ended noted.file else noted.file })
    else update_config_write_time kept

-- What `read_config` parses, if the file exists.
unfoldable pub contents : Option (Text × ℕ) → Option Text
contents none = none
contents (some (text, time)) = some text

-- A configuration that `to_file` writes is the content of the file, and the file that was there is
-- kept where a backup was asked for. The controller takes its own write for a modification just where
-- the stream's buffer takes the whole text, if the stream ends at another time than it opened: the
-- thread that watches the file then waits forever.
pub to_file-modified :
    (buffered : Text → Bool) (backup : Bool) (c : ℕ) (text : Text) (opened printed ended : ℕ)
    (s : ConfigFile)
    → opened ≢ ended
    → let after = to_file buffered backup (c ∷ text) true opened printed ended s in
      (contents after.file ≡ some (c ∷ text))
      × (after.backups ≡ (if backup then moved s.file s.backups else s.backups))
      × (config_file_modified after ≡ buffered (c ∷ text))
      × (watch_once (config_file_modified after) false
          ≡ (if buffered (c ∷ text) then none else watch_once false false))
unfolding to_file config_file_modified contents watch_once reload_config read_config lock_config
    moved
to_file-modified buffered backup c text opened printed ended s h = ground (arith, h)
