-- ===== src/Controller/Abstract/Reloaded.antt =====
-- What a reload does to the statuses of the fans.
use Prim.Native.String.{String}
use fancon.Common.{
  ap, sym, ◌∙◌, ◌≡◌, ◌≢◌, refl, Bool, true, false, Option, none, some, List, [], ◌∷◌, arith,
  if-cases, not, ◌&&◌, ◌||◌,
}
use fancon.Controller.{
  FanStatus, enabled, disabled, testing, FanOps, Controller, status, find, is_dell, enable_one,
  disable_one,
}
use fancon.Controller.Tasks.{status-enable_one, status-disable_one}
use fancon.Controller.Merge.{
  find_hw, re_insert, enable_fan, on_match, merge_one, merge_each, enable_dell_fans, merge,
  remove_each, configured_at, remove_devices_not_in, reload,
}
use fancon.Controller.Merge.Added.{merge-Added}
use fancon.Controller.Merge.Removed.{remove_each-all_in}
use mathlib.Core.Path.{subst}
use fancon.Controller.Abstract.{Untested}

module _ {F W : Type 0} (ops : FanOps F W) where
  status-tasks :
      (x : String) (c d : Controller F W) → d.tasks ≡ c.tasks → status ops x d ≡ status ops x c
  unfolding status
  status-tasks x c d e = rw e refl

  -- A reload that is defined removes nothing.
  remove_each-same :
      (l : List (List (String × F))) (fans : List (String × F)) (c d : Controller F W)
      → remove_each ops l fans c ≡ some d
      → d ≡ c
  remove_each-same l fans c d h = ground (arith, h, remove_each-all_in ops l fans c)

  -- Without a configuration each fan keeps its status.
  pub reload-status :
      (x : String) (enumerated : List (String × F)) (c d : Controller F W)
      → reload ops enumerated none c ≡ some d
      → status ops x d ≡ status ops x c
  unfolding reload remove_devices_not_in
  reload-status x enumerated c d h =
      let merged = merge ops false false enumerated c in
      ap (status ops x) (remove_each-same (enumerated ∷ []) merged.fans merged d h)
      ∙ status-tasks x c merged ((merge-Added ops enumerated c).1)

  -- No fan is under test.
  abbrev Idle : Controller F W → Type 0
  Idle c = Untested (λ x. status ops x c)

  Idle-enable_one : (f : F) (c : Controller F W) → Idle c → Idle (enable_one ops f c)
  Idle-enable_one f c h x = ground (arith, (status-enable_one ops f c).0 x, h x)

  Idle-disable_one :
      (flabel : String) (c : Controller F W) → Idle c → Idle (disable_one ops flabel c)
  Idle-disable_one flabel c h x = ground (arith, (status-disable_one ops flabel c).0 x, h x)

  Idle-enable_fan :
      (o : Option F) (c : Controller F W) (dell : Bool)
      → Idle c
      → Idle (enable_fan ops o (c, dell)).0
  unfolding enable_fan
  Idle-enable_fan none c dell h = h
  Idle-enable_fan (some f) c dell h = Idle-enable_one f c h

  Idle-enable_dell_fans :
      (fans : List (String × F)) (c : Controller F W) → Idle c → Idle (enable_dell_fans ops fans c)
  unfolding enable_dell_fans
  Idle-enable_dell_fans [] c h = h
  Idle-enable_dell_fans ((fl, f) ∷ fans) c h =
      Idle-enable_dell_fans fans _
        (if-cases Idle (is_dell ops f) (λ _. Idle-enable_one f c h) (λ _. h))

  Idle-re_insert :
      (old_key new_key : String) (dev : F) (c : Controller F W)
      → Idle c
      → Idle (re_insert ops old_key new_key dev c)
  unfolding re_insert status
  Idle-re_insert old_key new_key dev c h = h

  Idle-on_match :
      (s : FanStatus) (old_key : String) (old : F) (new_key : String) (dev : F) (c : Controller F W)
      (dell : Bool)
      → s ≢ testing
      → Idle c
      → Idle (on_match ops s old_key old new_key dev (c, dell)).0
  unfolding on_match
  Idle-on_match disabled old_key old new_key dev c dell n h =
      let put = re_insert ops old_key new_key dev c in
      let kept = Idle-re_insert old_key new_key dev c h in
      if-cases (λ (s : Controller F W × Bool). Idle (s.0))
        (not (ops.is_configured old) && configured_at ops new_key put)
        (λ _. Idle-enable_fan (find new_key put.fans) put dell kept) (λ _. kept)
  Idle-on_match enabled old_key old new_key dev c dell n h =
      let put = re_insert ops old_key new_key dev (disable_one ops old_key c) in
      Idle-enable_fan (find new_key put.fans) put dell (
        Idle-re_insert old_key new_key dev (disable_one ops old_key c)
          (Idle-disable_one old_key c h))
  Idle-on_match testing old_key old new_key dev c dell n h = absurd (n refl)

  Idle-merge_one :
      (replace deep : Bool) (key : String) (dev : F) (o : Option (String × F)) (c : Controller F W)
      (dell : Bool)
      → Idle c
      → Idle (merge_one ops replace deep key dev o (c, dell)).0
  unfolding merge_one status
  Idle-merge_one replace deep key dev none c dell h = h
  Idle-merge_one replace deep key dev (some (old_key, old)) c dell h =
      if-cases (λ (s : Controller F W × Bool). Idle (s.0))
        (replace && (not deep || not (ops.deep_equal dev old)))
        (λ _. Idle-on_match (status ops old_key c) old_key old key dev c dell (h old_key) h)
        (λ _. h)

  Idle-merge_each :
      (replace deep : Bool) (src : List (String × F)) (s : Controller F W × Bool)
      → Idle (s.0)
      → Idle (merge_each ops replace deep src s).0
  unfolding merge_each
  Idle-merge_each replace deep [] s h = h
  Idle-merge_each replace deep ((key, dev) ∷ src) s h =
      Idle-merge_each replace deep src _
        (Idle-merge_one replace deep key dev (find_hw ops (ops.hw_id dev) s.0.fans) (s.0) (s.1) h)

  Idle-merge :
      (replace deep : Bool) (src : List (String × F)) (c : Controller F W)
      → Idle c
      → Idle (merge ops replace deep src c)
  unfolding merge
  Idle-merge replace deep src c h =
      let s = merge_each ops replace deep src (c, false) in
      let k = Idle-merge_each replace deep src (c, false) h in
      if-cases Idle (s.1) (λ _. Idle-enable_dell_fans s.0.fans (s.0) k) (λ _. k)

  -- A reload tests a fan again only where one was under test.
  pub reload-Idle :
      (enumerated conf_devs : List (String × F)) (c d : Controller F W)
      → reload ops enumerated (some conf_devs) c ≡ some d
      → Idle c
      → Idle d
  unfolding reload remove_devices_not_in
  reload-Idle enumerated conf_devs c d e h =
      let merged = merge ops true true conf_devs (merge ops false false enumerated c) in
      subst Idle (sym (remove_each-same (enumerated ∷ conf_devs ∷ []) merged.fans merged d e))
        (Idle-merge true true conf_devs _ (Idle-merge false false enumerated c h))
