-- ===== src/Client/Sysinfo.antt =====
-- src/Client.cpp: `sysinfo` and `enumerate_directory`, the lines of the file. The listing of a
-- directory, `fs::recursive_directory_iterator`, is a parameter.
pub mod Links
mod Examples
use fancon.Common.{
  ℕ, zero, suc, Bool, false, not, ◌&&◌, ◌||◌, ◌==◌, Option, none, some, List, [], ◌∷◌, ◌++◌, ◌>>=◌,
  if◌then◌else◌,
}
use fancon.Util.Text.{Text, codes}
use fancon.Client.Output.{Status, Line, info, error, is_ok, check, same_text}

-- An entry of a directory: its path, how it is printed, the first line of a regular file, if it can
-- be read, and where a link points to.
pub record Item : Type 0 where
  pub path : Text
  pub shown : Text
  pub is_regular_file : Bool
  pub first_line : Option Text
  pub target : Option Text

-- The symlinks that were searched.
unfoldable pub seen : Text → List Text → Bool
unfolding same_text
seen t [] = false
seen t (s ∷ searched) = same_text t s || seen t searched

unfoldable pub contents : Option Text → Text
contents none = codes "unreadable"
contents (some s) = s

unfoldable pub item_line : Item → Text
unfolding contents
item_line e =
    if e.is_regular_file then e.shown ++ (codes ": " ++ contents e.first_line) else e.shown

-- The lines, and the symlinks that were searched; `none` is the end of the fuel.
abbrev pub Listed : Type 0
Listed = Option (List Text × List Text)

-- Only the links at depth 0 are followed, each target once.
unfoldable pub follow_link : (Text → List Text → Listed) → ℕ → Item → List Text → Listed
unfolding seen
follow_link follow depth e searched = elim e.target [
  | none ↦ some ([], searched)
  | some p ↦
      if depth == 0 && not (seen p searched)
      then follow e.path (p ∷ searched)
      else some ([], searched)
]

unfoldable pub enumerate_items : (Text → List Text → Listed) → ℕ → List Item → List Text → Listed
unfolding follow_link item_line
enumerate_items follow depth [] searched = some ([], searched)
enumerate_items follow depth (e ∷ es) searched = do
  (linked, now) ← follow_link follow depth e searched
  (lines, all) ← enumerate_items follow depth es now
  some (item_line e ∷ (linked ++ lines), all)

-- The set of the searched symlinks outlives the call.
unfoldable pub enumerate_directory : ℕ → (Text → List Item) → Text → ℕ → List Text → Listed
unfolding enumerate_items
enumerate_directory zero list dir depth searched = none
enumerate_directory (suc fuel) list dir depth searched =
    enumerate_items (λ p s. enumerate_directory fuel list p (suc depth) s) depth (list dir) searched

-- A reply with devices: their print, or "Failed".
unfoldable pub devices_text : Status → Text → Text
devices_text s printed = if is_ok s then printed else codes "Failed"

-- The lines that are written, with the replies and the prints of their devices.
unfoldable pub sysinfo_lines : Status → Text → Status → Text → List Text → List Text
unfolding devices_text
sysinfo_lines enumerated enumerated_text user user_text directory =
    codes "Enumerated:"
    ∷ devices_text enumerated enumerated_text
    ∷ codes "User:"
    ∷ devices_text user user_text
    ∷ codes "/sys/class/hwmon:"
    ∷ directory

-- What the command prints; `written` tells whether the stream has not failed.
unfoldable pub sysinfo : Status → Status → Bool → Text → List Line
unfolding check
sysinfo enumerated user written p =
    check enumerated
    ++ (check user
        ++ ((if written
              then info (codes "Sysinfo written to: " ++ p)
              else error (codes "Failed to write sysinfo to: " ++ p))
            ∷ []))
