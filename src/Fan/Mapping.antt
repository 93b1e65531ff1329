-- ===== src/Fan/Mapping.antt =====
-- `fc::Fan::rpm_to_pwm_from(const Pwm_to_Rpm_Map &)`: the map that the test of a fan leaves.
pub mod Monotone
use fancon.Common.{ℕ, List, [], ◌∷◌}
use fancon.Common.OrdMap.{insert, values, nat_less}
use fancon.Common.Sort.{sort}
use fancon.Fan.{clamp_pwm}

-- The last loop, over the sorted RPMs and the PWMs at once.
unfoldable pub pair_up : List ℕ → List (ℕ × ℕ) → List (ℕ × ℕ) → List (ℕ × ℕ)
unfolding insert clamp_pwm
pair_up [] pwms rpm_to_pwm = rpm_to_pwm
pair_up (rpm ∷ rpms) [] rpm_to_pwm = rpm_to_pwm
pair_up (rpm ∷ rpms) ((pwm, r) ∷ pwms) rpm_to_pwm =
    pair_up rpms pwms (insert rpm (clamp_pwm pwm) rpm_to_pwm)

unfoldable pub rpm_to_pwm_from : List (ℕ × ℕ) → List (ℕ × ℕ)
unfolding pair_up sort
rpm_to_pwm_from pwm_to_rpm = pair_up (sort (values pwm_to_rpm)) pwm_to_rpm []
