-- ===== src/Fan/Testing/Result.antt =====
-- What a test of a fan leaves behind.
use fancon.Common.{
  ℕ, zero, suc, ◌≤◌, ◌≡◌, ◌≢◌, inl, refl, Bool, true, false, Option, none, some, List, [], ◌∷◌,
  arith, leb, if-cases,
}
use fancon.Common.Int.{ℤ, pos, negsuc, ◌+ℤ◌}
use fancon.Common.OrdMap.{insert, insert-IsAscending, nat_less, IsAscending}
use fancon.Fan.{Fan, Settings, pwm_min, pwm_max}
use fancon.Fan.Driver.{Driver}
use fancon.Fan.Mapping.{rpm_to_pwm_from}
use fancon.Fan.Mapping.Monotone.{IsMonotone, rpm_to_pwm_from-IsMonotone, keys-rpm_to_pwm_from}
use fancon.Fan.World.{M, Returns, Returns-then_run, Returns-after, sleep_for_interval}
use fancon.Fan.Testing.{
  Tested, set_stabilised_pwm, test_stopped, seek_start, test_start, slow_down, save_first,
  record_start, record_point, test_running_min, speed_up, test_mapping, measure, finish, tested,
  assigned, added,
}

abbrev pub Filled : List (ℕ × ℕ) → Type 0
Filled m = IsAscending m × (m ≢ [])

insert-ne-nil : (k v : ℕ) (m : List (ℕ × ℕ)) → insert k v m ≢ []
unfolding insert
insert-ne-nil k v [] e = cc
insert-ne-nil k v ((j, w) ∷ m) e = ground (arith, e)

insert-Filled : (k v : ℕ) (m : List (ℕ × ℕ)) → IsAscending m → Filled (insert k v m)
insert-Filled k v m a = (insert-IsAscending k v m a, insert-ne-nil k v m)

save_first-Filled : (n : ℕ) (results m : List (ℕ × ℕ)) → Filled m → Filled (save_first n results m)
save_first-Filled zero results m h = h
save_first-Filled (suc n) [] m h = h
save_first-Filled (suc n) ((pwm, rpm) ∷ results) m h =
    save_first-Filled n results (insert pwm rpm m) (insert-Filled pwm rpm m h.0)

rpm_to_pwm_from-ne-nil : (m : List (ℕ × ℕ)) → m ≢ [] → rpm_to_pwm_from m ≢ []
rpm_to_pwm_from-ne-nil [] n e = n refl
rpm_to_pwm_from-ne-nil ((k, v) ∷ m) n e =
    let key = (keys-rpm_to_pwm_from v ((k, v) ∷ m)).1 (inl refl) in rw e at key

record_start-Filled :
    {W : Type 0} (cur_rpm : Option ℕ) (start_pwm : ℕ) (m : List (ℕ × ℕ)) (w : W)
    → start_pwm ≤ pwm_max
    → IsAscending m
    → Returns
        (λ (r : (ℕ × List (ℕ × ℕ)) × W). (r.0.0 ≤ pwm_max) × Filled r.0.1)
        (record_start cur_rpm start_pwm m w)
unfolding record_start
record_start-Filled none start_pwm m w h a = tt
record_start-Filled (some rpm) start_pwm m w h a = (h, insert-Filled start_pwm rpm m a)

record_point-Filled :
    (cur_rpm : Option ℕ) (target : ℕ) (m : List (ℕ × ℕ))
    → Filled m
    → Filled (record_point cur_rpm target m)
unfolding record_point
record_point-Filled none target m h = h
record_point-Filled (some rpm) target m h = insert-Filled target rpm m h.0

module _ {W : Type 0} (driver : Driver W) (fc : Settings) where
  module _ (interval fuel : ℕ) where
    test_stopped-Filled :
        (m : List (ℕ × ℕ)) (w : W)
        → IsAscending m
        → Returns (λ r. Filled r.0) (test_stopped driver fc interval fuel m w)
    unfolding test_stopped
    test_stopped-Filled m w a =
        Returns-after _ (set_stabilised_pwm driver fc interval fuel pwm_min w) _
          λ cur w'. insert-Filled _ _ m a

    test_start-Filled :
        (m : List (ℕ × ℕ)) (w : W)
        → ((w' : W) → (driver.get_pwm w').0 ≤ pwm_max)
        → IsAscending m
        → Returns (λ r. (r.0.0 ≤ pwm_max) × Filled r.0.1) (test_start driver fc interval fuel m w)
    unfolding test_start sleep_for_interval
    test_start-Filled m w h a =
        Returns-after _ (seek_start driver fc interval fuel 128 (some 0) pwm_min w) _
          λ cur w'. record_start-Filled cur _ m _ (h _) a

    test_running_min-Filled :
        (start_pwm : ℕ) (m : List (ℕ × ℕ)) (w : W)
        → Filled m
        → Returns (λ r. Filled r.0) (test_running_min driver fc interval fuel start_pwm m w)
    unfolding test_running_min
    test_running_min-Filled start_pwm m w h =
        Returns-after _ (slow_down driver fc interval fuel fuel start_pwm [] w) _
          λ results w'. save_first-Filled _ results m h

    speed_up-Filled :
        (left target : ℕ) (m : List (ℕ × ℕ)) (w : W)
        → Filled m
        → Returns (λ r. Filled r.0) (speed_up driver fc interval fuel left target m w)
    unfolding speed_up
    speed_up-Filled zero target m w h =
        if-cases (λ (x : M W (List (ℕ × ℕ))). Returns (λ r. Filled r.0) (x w)) (leb target pwm_max)
          (λ _. tt) (λ _. h)
    speed_up-Filled (suc left) target m w h =
        if-cases (λ (x : M W (List (ℕ × ℕ))). Returns (λ r. Filled r.0) (x w)) (leb target pwm_max)
          (λ _.
            Returns-after _ (set_stabilised_pwm driver fc interval fuel target w) _
              λ cur w'. speed_up-Filled left _ _ w' (record_point-Filled cur target m h))
          (λ _. h)

  abbrev pub progress : List ℤ
  progress = pos 0 ∷ pos 20 ∷ pos 50 ∷ pos 75 ∷ pos 100 ∷ []

  measure-Filled :
      (fuel interval : ℕ) (w : W)
      → ((w' : W) → (driver.get_pwm w').0 ≤ pwm_max)
      → Returns
          (λ r. ((r.0.0.0 ≤ pwm_max) × Filled r.0.0.1) × (r.0.1.1 ≡ progress))
          (measure driver fc fuel interval (pos 0, []) w)
  unfolding measure test_mapping assigned added ◌+ℤ◌
  measure-Filled fuel interval w h =
      Returns-then_run (λ r. Filled r.0) _ (test_stopped driver fc interval fuel [] w) _
        (test_stopped-Filled interval fuel [] w tt)
        λ m w1 a.
          Returns-then_run (λ r. (r.0.0 ≤ pwm_max) × Filled r.0.1) _
            (test_start driver fc interval fuel m w1) _ (test_start-Filled interval fuel m w1 h a.0)
            λ s w2 b.
              Returns-then_run (λ r. Filled r.0) _
                (test_running_min driver fc interval fuel s.0 s.1 w2) _
                (test_running_min-Filled interval fuel s.0 s.1 w2 b.1)
                λ n w3 c.
                  Returns-then_run (λ r. Filled r.0) _
                    (test_mapping driver fc interval fuel s.0 n w3) _
                    (speed_up-Filled interval fuel 256 _ n w3 c) λ o w4 d. ((b.0, d), refl)

  -- The fan of a finished test. Where control was taken: progress from 0 to 100, and a tested fan with
  -- a monotone map and the curve that it had. Where it was not: nothing changed and -1 reported.
  abbrev pub Finished : Fan → Bool → Tested → Type 0
  Finished fan false t = (t.passed ≡ false) × (t.fan ≡ fan) × (t.statuses ≡ negsuc 0 ∷ [])
  Finished fan true t =
      (t.passed ≡ true)
      × (t.statuses ≡ progress)
      × (tested t.fan ≡ true)
      × IsMonotone t.fan.rpm_to_pwm
      × (t.fan.temp_to_rpm ≡ fan.temp_to_rpm)

  tested-eq : (fan : Fan) → fan.start_pwm ≤ pwm_max → fan.rpm_to_pwm ≢ [] → tested fan ≡ true
  unfolding tested
  tested-eq fan h n = ground (arith, n)

  -- Whatever the hardware does, as long as it reports no PWM above 255, a test that has taken control
  -- and returns leaves a fan as `Finished` says.
  pub finish-Finished :
      (fuel : ℕ) (fan : Fan) (pre_pwm : ℕ) (w : W)
      → ((w' : W) → (driver.get_pwm w').0 ≤ pwm_max)
      → Returns (λ r. Finished fan true r.0) (finish driver fc fuel fan pre_pwm w)
  unfolding finish
  finish-Finished fuel fan pre_pwm w h =
      Returns-then_run (λ r. ((r.0.0.0 ≤ pwm_max) × Filled r.0.0.1) × (r.0.1.1 ≡ progress)) _
        (measure driver fc fuel fan.interval (pos 0, []) w) _ (measure-Filled fuel fan.interval w h)
        λ s w' (b, e). (
          refl,
          e,
          tested-eq _ b.0 (rpm_to_pwm_from-ne-nil s.0.1 b.1.1),
          rpm_to_pwm_from-IsMonotone s.0.1 b.1.0,
          refl,
        )
