-- ===== src/Fan/Smooth/Repeat.antt =====
-- `smooth_rpm` called once in each interval: the stickiness of the top speed, and convergence.
use fancon.Common.{
  ℕ, zero, suc, ◌-◌, ◌<◌, ◌≡◌, refl, false, Option, some, List, [], ◌∷◌, ◌++◌, arith, ◌>>=◌, All,
  length, replicate,
}
use fancon.Common.Int.{pos, ◌-ℤ◌}
use fancon.Common.Words.{i32_top}
use fancon.Common.OrdMap.{last_entry}
use fancon.Fan.{Settings, Smoothing}
use fancon.Fan.Smooth.{smooth_rpm}
use fancon.Fan.Smooth.Step.{delta-down, adjust-down}

module _ (fc : Settings) (m : List (ℕ × ℕ)) where
  -- The results of `smooth_rpm` for a row of requests.
  unfoldable pub smooth_all : Smoothing → List ℕ → Option (List ℕ × Smoothing)
  smooth_all s [] = some ([], s)
  smooth_all s (rpm ∷ rpms) = do
    (x, s') ← smooth_rpm fc m s rpm
    (xs, s'') ← smooth_all s' rpms
    some (x ∷ xs, s'')

  smooth_rpm-hold :
      (s : Smoothing) (rpm k : ℕ)
      → rpm < s.targeted_rpm
      → s.targeted_rpm < i32_top
      → s.just_started ≡ false
      → s.top_stickiness_rem_intervals ≡ pos (suc k)
      → smooth_rpm fc m s rpm
        ≡ some (s.targeted_rpm, record s { top_stickiness_rem_intervals = pos k })
  unfolding smooth_rpm ◌-ℤ◌
  smooth_rpm-hold s rpm k h l j e = rw (delta-down rpm s.targeted_rpm h l) (ground arith)

  smooth_rpm-drop :
      (s : Smoothing) (rpm : ℕ) (max : ℕ × ℕ)
      → last_entry m ≡ some max
      → rpm < s.targeted_rpm
      → s.targeted_rpm < i32_top
      → s.just_started ≡ false
      → s.top_stickiness_rem_intervals ≡ pos 0
      → smooth_rpm fc m s rpm ≡ some (rpm, record s { targeted_rpm = rpm })
  unfolding smooth_rpm
  smooth_rpm-drop s rpm max f h l j e =
      rw (delta-down rpm s.targeted_rpm h l)
        (ground (arith, adjust-down fc m max s rpm (s.targeted_rpm - rpm - 1) f))

  -- A fan that is sticky for `k` intervals answers `k` requests below its speed, whatever they
  -- are, with that speed; the next such request it follows at once and in full.
  pub smooth_all-sticky :
      (s : Smoothing) (k : ℕ) (rpms : List ℕ) (rpm : ℕ) (max : ℕ × ℕ)
      → last_entry m ≡ some max
      → s.targeted_rpm < i32_top
      → s.just_started ≡ false
      → s.top_stickiness_rem_intervals ≡ pos k
      → length rpms ≡ k
      → All (λ r. r < s.targeted_rpm) rpms
      → rpm < s.targeted_rpm
      → smooth_all s (rpms ++ rpm ∷ [])
        ≡ some (
          replicate k s.targeted_rpm ++ rpm ∷ [],
          record s { targeted_rpm = rpm; top_stickiness_rem_intervals = pos 0 },
        )
  unfolding smooth_all
  smooth_all-sticky s zero [] rpm max f l j e n a h =
      rw (smooth_rpm-drop s rpm max f h l j e) (ground arith)
  smooth_all-sticky s zero (r ∷ rpms) rpm max f l j e n a h = absurd (omega arith)
  smooth_all-sticky s (suc k) [] rpm max f l j e n a h = absurd (omega arith)
  smooth_all-sticky s (suc k) (r ∷ rpms) rpm max f l j e n a h =
      rw (smooth_rpm-hold s r k a.0 l j e) (
        rw (
          smooth_all-sticky (record s { top_stickiness_rem_intervals = pos k }) k rpms rpm max f l j
            refl (omega arith) a.1 h))

  -- `n` calls with one and the same request.
  unfoldable pub smooth_times : ℕ → ℕ → Smoothing → Option Smoothing
  smooth_times zero rpm s = some s
  smooth_times (suc n) rpm s = do (x, s') ← smooth_rpm fc m s rpm; smooth_times n rpm s'
