-- ===== src/Fan/Closest/Nearest.antt =====
-- The point that `find_closest_pwm` chooses is the closest of all.
use fancon.Common.{
  lt→ltb, ◌≢◌, if-cases, ℕ, ◌+◌, ◌-◌, ◌≤◌, ◌<◌, ◌≡◌, refl, ◌⊎◌, inl, inr, true, false, Option, none,
  some, List, [], ◌∷◌, arith, Bool-cases, ltb, leb, Elem, Gives, Gives-imp,
}
use fancon.Common.Words.{u32_mod, sub32, sub32-le}
use fancon.Common.OrdMap.{lower_bound, lower_bound-before, nat_less, IsAscending, Above}
use fancon.Fan.Driver.{Driver}
use fancon.Fan.Closest.{nearest_point, settle, find_closest_pwm}

abbrev pub dist : ℕ → ℕ → ℕ
dist a b = (a - b) + (b - a)

-- No point of the map is closer to `rpm` than one at `s`.
abbrev pub NoneCloser : ℕ → ℕ → List (ℕ × ℕ) → Type 0
NoneCloser rpm s [] = Unit
NoneCloser rpm s ((r, p) ∷ m) = (dist rpm s ≤ dist rpm r) × NoneCloser rpm s m

abbrev pub Closest : ℕ → List (ℕ × ℕ) → ℕ × ℕ → Type 0
Closest rpm m (s, p) = Elem (s, p) m × NoneCloser rpm s m

abbrev pub AllRpm : List (ℕ × ℕ) → Type 0
AllRpm [] = Unit
AllRpm ((r, p) ∷ m) = (r < u32_mod) × AllRpm m

Above-NoneCloser :
    (rpm s r : ℕ) (m : List (ℕ × ℕ))
    → rpm ≤ r
    → dist rpm s ≤ dist rpm r
    → Above r m
    → IsAscending m
    → NoneCloser rpm s m
Above-NoneCloser rpm s r [] h k a b = tt
Above-NoneCloser rpm s r ((j, q) ∷ m) h k a b =
    let less : r < j = ground (arith, a.0) in
    (omega arith, Above-NoneCloser rpm s j m (omega arith) (omega arith) b.0 b.1)

after-Closest :
    (rpm r p : ℕ) (m : List (ℕ × ℕ))
    → rpm < u32_mod
    → r < rpm
    → AllRpm m
    → Above r m
    → IsAscending m
    → Gives (Closest rpm ((r, p) ∷ m)) (nearest_point rpm (lower_bound rpm (some (r, p)) m))
unfolding lower_bound
after-Closest rpm r p [] w h k a b = unfold nearest_point in (inl refl, (omega arith, tt))
after-Closest rpm r p ((s, q) ∷ m) w h k a b = elim (Bool-cases (ltb s rpm)) [
  | inl e ↦ rw e (
      Gives-imp (Closest rpm ((s, q) ∷ m)) _ _ (λ x c. (inr c.0, (ground (arith, a.0), c.1)))
        (after-Closest rpm s q m w (ground arith) k.1 b.0 b.1))
  | inr e ↦
      rw e
        (unfold nearest_point in if-cases (Closest rpm ((r, p) ∷ (s, q) ∷ m)) _ (left e) (right e))
]
  where
    below : sub32 rpm r ≡ rpm - r
    below = sub32-le rpm r (omega arith) w

    above : rpm ≤ s → sub32 s rpm ≡ s - rpm
    above l = sub32-le s rpm l k.0

    rest : (x : ℕ) → rpm ≤ s → dist rpm x ≤ dist rpm s → NoneCloser rpm x m
    rest x l d = Above-NoneCloser rpm x s m l d b.0 b.1

    left :
        ltb s rpm ≡ false
        → leb (sub32 rpm r) (sub32 s rpm) ≡ true
        → Closest rpm ((r, p) ∷ (s, q) ∷ m) (r, p)
    left e c =
        let near : rpm - r ≤ s - rpm = ground (arith, below, above) in
        (inl refl, (omega arith, (ground arith, rest r (ground arith) (ground arith))))

    right :
        ltb s rpm ≡ false
        → leb (sub32 rpm r) (sub32 s rpm) ≡ false
        → Closest rpm ((r, p) ∷ (s, q) ∷ m) (s, q)
    right e c =
        let near : s - rpm < rpm - r = ground (arith, below, above) in
        (inr (inl refl), (ground arith, (omega arith, rest s (ground arith) (omega arith))))

nearest_point-Closest :
    (rpm : ℕ) (m : List (ℕ × ℕ))
    → rpm < u32_mod
    → m ≢ []
    → AllRpm m
    → IsAscending m
    → Gives (Closest rpm m) (nearest_point rpm (lower_bound rpm none m))
unfolding lower_bound
nearest_point-Closest rpm [] w n k b = absurd (n refl)
nearest_point-Closest rpm ((r, p) ∷ m) w n k b = elim (Bool-cases (ltb r rpm)) [
  | inl e ↦ rw e (after-Closest rpm r p m w (ground arith) k.1 b.0 b.1)
  | inr e ↦ rw e (
      unfold nearest_point in
      (inl refl, (omega arith, Above-NoneCloser rpm r r m (ground arith) (omega arith) b.0 b.1)))
]

module _ {W : Type 0} (driver : Driver W) where
  -- The PWM of a point of the map that is closest to `rpm`, or the start PWM above it, if the fan
  -- stands still.
  abbrev pub Chosen : List (ℕ × ℕ) → ℕ → ℕ → W → ℕ → Type 0
  Chosen m start_pwm rpm w pwm =
      (point : ℕ × ℕ) × Closest rpm m point
      × ((pwm ≡ point.1)
          ⊎ ((pwm ≡ start_pwm)
              × (0 < point.1)
              × (point.1 < start_pwm)
              × ((driver.get_rpm w).0 ≡ 0)))

  settle-cases :
      (start_pwm : ℕ) (le : Option (ℕ × ℕ)) (pwm : ℕ) (w : W)
      → let x = (settle driver start_pwm le pwm w).0 in
        (x ≡ pwm) ⊎ ((x ≡ start_pwm) × (0 < pwm) × (pwm < start_pwm) × ((driver.get_rpm w).0 ≡ 0))
  unfolding settle
  settle-cases start_pwm none pwm w = inl refl
  settle-cases start_pwm (some le) pwm w = ground arith

  settle-starts :
      (start_pwm : ℕ) (le : ℕ × ℕ) (pwm : ℕ) (w : W)
      → (driver.get_rpm w).0 ≡ 0
      → let x = (settle driver start_pwm (some le) pwm w).0 in (x ≡ 0) ⊎ (start_pwm ≤ x)
  unfolding settle
  settle-starts start_pwm le pwm w h = ground arith

  choose : List (ℕ × ℕ) → ℕ → ℕ → W → Option (ℕ × ℕ) → Option (ℕ × W)
  choose m start_pwm rpm w o = elim o [
    | none ↦ none
    | some point ↦ some (settle driver start_pwm (lower_bound rpm none m).0 point.1 w)
  ]

  choose-Chosen :
      (m : List (ℕ × ℕ)) (start_pwm rpm : ℕ) (w : W) (o : Option (ℕ × ℕ))
      → Gives (Closest rpm m) o
      → Gives (λ r. Chosen m start_pwm rpm w r.0) (choose m start_pwm rpm w o)
  unfolding choose
  choose-Chosen m start_pwm rpm w none h = absurd h
  choose-Chosen m start_pwm rpm w (some point) h = (point, h, settle-cases start_pwm _ point.1 w)

  -- For every RPM and every map that is not empty, with RPMs of 32 bits in rising order,
  -- `find_closest_pwm` is defined, and its result is the PWM of a point whose RPM is closest to the one asked for, or the start PWM, if that point's
  -- PWM is positive and below it and the fan reads 0 RPM.
  pub find_closest_pwm-Chosen :
      (m : List (ℕ × ℕ)) (start_pwm rpm : ℕ) (w : W)
      → rpm < u32_mod
      → m ≢ []
      → AllRpm m
      → IsAscending m
      → Gives (λ r. Chosen m start_pwm rpm w r.0) (find_closest_pwm driver m start_pwm rpm w)
  unfolding find_closest_pwm choose
  find_closest_pwm-Chosen m start_pwm rpm w h n k a =
      choose-Chosen m start_pwm rpm w _ (nearest_point-Closest rpm m h n k a)

  choose-starts :
      (m : List (ℕ × ℕ)) (start_pwm rpm : ℕ) (w : W) (o : Option (ℕ × ℕ)) (le : ℕ × ℕ)
      → (driver.get_rpm w).0 ≡ 0
      → (lower_bound rpm none m).0 ≡ some le
      → Gives (Closest rpm m) o
      → Gives (λ r. (r.0 ≡ 0) ⊎ (start_pwm ≤ r.0)) (choose m start_pwm rpm w o)
  unfolding choose
  choose-starts m start_pwm rpm w none le h e g = absurd g
  choose-starts m start_pwm rpm w (some point) le h e g =
      rw e (settle-starts start_pwm le point.1 w h)

  lower_bound-first :
      (r p : ℕ) (m : List (ℕ × ℕ)) (rpm : ℕ)
      → r < rpm
      → (le : ℕ × ℕ) × ((lower_bound rpm none ((r, p) ∷ m)).0 ≡ some le)
  unfolding lower_bound
  lower_bound-first r p m rpm l = rw (lt→ltb r rpm l) (lower_bound-before rpm (r, p) m)

  -- Above the lowest RPM of the map, a fan that reads 0 RPM is given a PWM of 0 or one that is at
  -- least its start PWM: no PWM that leaves it standing still.
  pub find_closest_pwm-starts :
      (r p : ℕ) (m : List (ℕ × ℕ)) (start_pwm rpm : ℕ) (w : W)
      → r < rpm
      → (driver.get_rpm w).0 ≡ 0
      → rpm < u32_mod
      → AllRpm ((r, p) ∷ m)
      → IsAscending ((r, p) ∷ m)
      → Gives
          (λ x. (x.0 ≡ 0) ⊎ (start_pwm ≤ x.0))
          (find_closest_pwm driver ((r, p) ∷ m) start_pwm rpm w)
  unfolding find_closest_pwm choose
  find_closest_pwm-starts r p m start_pwm rpm w l h n k a =
      let (le, e) = lower_bound-first r p m rpm l in
      choose-starts ((r, p) ∷ m) start_pwm rpm w _ le h e
        (nearest_point-Closest rpm ((r, p) ∷ m) n (λ e. cc) k a)
