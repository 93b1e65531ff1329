-- ===== src/Sysfs/Paths/Names.antt =====
-- The id of a fan in the names of its files.
use mathlib.Core.List.{reverse, reverse-append, append_assoc, append-nil}
use mathlib.Core.Path.{subst}
use fancon.Common.{ℕ, ◌<◌, ◌≡◌, ◌∙◌, ap, sym, refl, some, [], ◌++◌, arith}
use fancon.Common.Words.{u32_mod}
use fancon.Util.Text.{Text, codes, show, postfix_num}
use fancon.Util.Text.Decimal.{Stops}
use fancon.Util.Text.Postfix.{postfix_num-show}
use fancon.Util.Files.{FileSystem, real_path}
use fancon.Sysfs.Paths.{or_no_path, under, get_pwm_path, dell_id}

-- The name ends in no digit before the id.
stem-Stops : (dir : Text) → Stops (reverse (dir ++ codes "/pwm"))
stem-Stops dir = subst Stops (sym (reverse-append dir (codes "/pwm"))) refl

postfix_num-pwm :
    (dir : Text) (id : ℕ)
    → id < u32_mod
    → postfix_num u32_mod (dir ++ (codes "/pwm" ++ show id)) ≡ some id
postfix_num-pwm dir id h =
    let name : (dir ++ codes "/pwm") ++ (show id ++ []) ≡ dir ++ (codes "/pwm" ++ show id) =
      ap (λ (t : Text). (dir ++ codes "/pwm") ++ t) (append-nil (show id))
      ∙ append_assoc dir (codes "/pwm") (show id) in
    ap (postfix_num u32_mod) (sym name)
    ∙ postfix_num-show u32_mod id (dir ++ codes "/pwm") [] (stem-Stops dir) tt
    ∙ ground (arith, h)

-- The id that a fan is constructed with is the one that is read off the path of its PWM, wherever its
-- real path keeps the name of the file in some directory.
pub get_pwm_path-dell_id :
    {W : Type 0} (fs : FileSystem W) (adapter_path dir : Text) (id : ℕ) (w : W)
    → id < u32_mod
    → real_path fs (under adapter_path (codes "pwm" ++ show id)) w
      ≡ some (dir ++ (codes "/pwm" ++ show id))
    → dell_id (get_pwm_path fs adapter_path id w) ≡ some id
unfolding get_pwm_path dell_id or_no_path
get_pwm_path-dell_id fs adapter_path dir id w h e = rw e (postfix_num-pwm dir id h)
