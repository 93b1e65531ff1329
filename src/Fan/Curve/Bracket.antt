-- ===== src/Fan/Curve/Bracket.antt =====
-- The speed that a rising curve asks for.
use fancon.Common.{
  ℕ, ◌+◌, ◌-◌, ◌≤◌, ◌<◌, ◌≡◌, inl, inr, Bool, true, false, not, ◌&&◌, if◌then◌else◌, Gives-imp,
  some, List, [], ◌∷◌, arith, Bool-cases, Gives,
}
use fancon.Common.Int.{ℤ, pos, negsuc, ◌+ℤ◌, ◌≤ℤ◌, ltb_ℤ, leb_ℤ, +ℤ-pos, int_laws}
use fancon.Common.Words.{u32_mod, i32_top, sub32-le}
use fancon.Common.OrdMap.{lower_bound, int_less}
use fancon.Fan.Curve.{Doubles, to_rpm, add_int, interpolate, select, target_rpm}

-- The points after (t, r) lie at higher temperatures, their speeds do not fall, and the sum of two
-- temperatures next to each other is an `int`.
abbrev pub Climbs : ℤ → ℕ → List (ℤ × ℕ) → Type 0
Climbs t r [] = Unit
Climbs t r ((u, s) ∷ m) =
    (t +ℤ pos 1 ≤ℤ u) × (r ≤ s) × (s < u32_mod) × (t +ℤ u +ℤ pos 1 ≤ℤ pos i32_top) × Climbs u s m

-- A rising curve: not empty, its temperatures not negative and ascending, its speeds not falling,
-- and each two temperatures with an `int` as their sum.
abbrev pub IsRising : List (ℤ × ℕ) → Type 0
IsRising [] = ⊥
IsRising ((t, r) ∷ m) = (pos 0 ≤ℤ t) × (r < u32_mod) × Climbs t r m

-- A point at or below the temperature is a lower bound of the speed, one at or above an upper.
abbrev pub Bracket : ℤ → List (ℤ × ℕ) → ℕ → Type 0
Bracket temp [] x = Unit
Bracket temp ((t, s) ∷ m) x = ((t ≤ℤ temp → s ≤ x) × (temp ≤ℤ t → x ≤ s)) × Bracket temp m x

to_rpm-pos :
    (r a s : ℕ) (x : ℤ)
    → (pos 0 ≤ℤ x) × (x ≤ℤ pos (s - r))
    → r ≤ s
    → s < u32_mod
    → Gives (λ y. (r ≤ y) × (y ≤ s)) (to_rpm (pos r +ℤ x))
unfolding to_rpm ◌+ℤ◌
to_rpm-pos r a s x h k l = ground arith

-- Points not below the temperature bound a speed that the first of them bounds.
Climbs-Bracket :
    (temp u : ℤ) (s x : ℕ) (m : List (ℤ × ℕ)) → temp ≤ℤ u → x ≤ s → Climbs u s m → Bracket temp m x
Climbs-Bracket temp u s x [] h k c = tt
Climbs-Bracket temp u s x ((v, y) ∷ m) h k c =
    let later : u +ℤ pos 1 ≤ℤ v = c.0 in
    (
      (λ l. absurd (omega int_laws), λ l. omega arith),
      Climbs-Bracket temp v y x m (omega int_laws) (omega arith) c.4,
    )

apart : (a b : ℤ) → a ≤ℤ b → (leb_ℤ b a && leb_ℤ a b) ≡ false → a +ℤ pos 1 ≤ℤ b
unfolding ◌+ℤ◌
apart a b h e = ground arith

ltb_ℤ-lt : (a b : ℤ) → ltb_ℤ a b ≡ true → a +ℤ pos 1 ≤ℤ b
unfolding ◌+ℤ◌
ltb_ℤ-lt a b e = ground arith

not-le_of_ltb_ℤ : (a b : ℤ) → ltb_ℤ a b ≡ true → ¬ (b ≤ℤ a)
not-le_of_ltb_ℤ a b e h = ground arith

ltb_ℤ-ge : (a b : ℤ) → ltb_ℤ a b ≡ false → b ≤ℤ a
ltb_ℤ-ge a b e = ground arith

add_int-pos : (b c : ℕ) → b + c < i32_top → add_int (pos b) (pos c) ≡ some (pos (b + c))
unfolding add_int
add_int-pos b c h = rw (+ℤ-pos b c) (ground arith)

module _ (fp : Doubles) where
  interpolate-between :
      (a b c r s : ℕ)
      → a ≤ b + c
      → 0 < c
      → b + c < i32_top
      → r ≤ s
      → s < u32_mod
      → Gives (λ x. (r ≤ x) × (x ≤ s)) (interpolate fp (pos a) (pos b, r) (pos c, s))
  unfolding interpolate
  interpolate-between a b c r s h k i l n =
      rw (add_int-pos b c i, sub32-le s r l n)
        (let unit = fp.div_unit a (b + c) h (omega arith) in
          let w = fp.div (fp.of_int (pos a)) (fp.of_int (pos (b + c))) in
          let scaled = fp.mul_unit w (s - r) (omega arith) unit.0 unit.1 in
          to_rpm-pos r 0 s _ (fp.floor_between _ (s - r) (omega arith) scaled.0 scaled.1) l n)

  interpolate-Gives :
      (temp t u : ℤ) (r s : ℕ)
      → pos 0 ≤ℤ t
      → t ≤ℤ temp
      → temp ≤ℤ u
      → t +ℤ pos 1 ≤ℤ u
      → t +ℤ u +ℤ pos 1 ≤ℤ pos i32_top
      → r ≤ s
      → s < u32_mod
      → Gives (λ x. (r ≤ x) × (x ≤ s)) (interpolate fp temp (t, r) (u, s))
  interpolate-Gives (pos a) (pos b) (pos c) r s h k l n i p q =
      interpolate-between a b c r s (omega int_laws) (omega int_laws) (omega int_laws) p q
  interpolate-Gives (pos a) (pos b) (negsuc c) r s h k l n i p q = absurd (omega int_laws)
  interpolate-Gives (negsuc a) (pos b) u r s h k l n i p q = absurd (omega int_laws)
  interpolate-Gives temp (negsuc b) u r s h k l n i p q = absurd (omega int_laws)

  -- The last two branches of `update`, where t < temp ≤ u.
  between-Bracket :
      (dynamic : Bool) (temp t u : ℤ) (r s : ℕ) (m : List (ℤ × ℕ))
      → pos 0 ≤ℤ t
      → t +ℤ pos 1 ≤ℤ temp
      → temp ≤ℤ u
      → Climbs t r ((u, s) ∷ m)
      → Gives
          (λ x. (r ≤ x) × Bracket temp ((u, s) ∷ m) x)
          (select fp dynamic temp (some (t, r), (u, s) ∷ m))
  unfolding select
  between-Bracket dynamic temp t u r s m h k l c =
      elim (Bool-cases (leb_ℤ u temp && leb_ℤ temp u)) [
        | inl e ↦ rw e (
          c.1,
          ((λ _. omega arith, λ _. omega arith), Climbs-Bracket temp u s s m l (omega arith) c.4),
        )
        | inr e ↦ rw e (inside dynamic e)
      ]
    where
      fits :
          (leb_ℤ u temp && leb_ℤ temp u) ≡ false
          → (x : ℕ) → (r ≤ x) × (x ≤ s)
          → (r ≤ x) × Bracket temp ((u, s) ∷ m) x
      fits e x b =
          let strict : temp +ℤ pos 1 ≤ℤ u = apart temp u l e in
          (b.0, ((λ j. absurd (omega int_laws), λ _. b.1), Climbs-Bracket temp u s x m l b.1 c.4))

      inside :
          (d : Bool)
          → (leb_ℤ u temp && leb_ℤ temp u) ≡ false
          → Gives
              (λ x. (r ≤ x) × Bracket temp ((u, s) ∷ m) x)
              (if not d then some r else interpolate fp temp (t, r) (u, s))
      inside false e = fits e r (omega arith)
      inside true e =
          Gives-imp (λ x. (r ≤ x) × (x ≤ s)) _ _ (fits e)
            (interpolate-Gives temp t u r s h (omega int_laws) l (omega int_laws) c.3 c.1 c.2)

  after-Bracket :
      (dynamic : Bool) (temp t : ℤ) (r : ℕ) (m : List (ℤ × ℕ))
      → pos 0 ≤ℤ t
      → t +ℤ pos 1 ≤ℤ temp
      → Climbs t r m
      → Gives
          (λ x. (r ≤ x) × Bracket temp m x)
          (select fp dynamic temp (lower_bound temp (some (t, r)) m))
  unfolding lower_bound
  after-Bracket dynamic temp t r [] h k c = unfold select in (omega arith, tt)
  after-Bracket dynamic temp t r ((u, s) ∷ m) h k c = elim (Bool-cases (ltb_ℤ u temp)) [
    | inl e ↦ rw e (
        Gives-imp (λ x. (s ≤ x) × Bracket temp m x) _ _
          (λ x b. (omega arith, ((λ _. b.0, λ j. absurd (not-le_of_ltb_ℤ u temp e j)), b.1)))
          (after-Bracket dynamic temp u s m (omega int_laws) (ltb_ℤ-lt u temp e) c.4))
    | inr e ↦ rw e (between-Bracket dynamic temp t u r s m h k (ltb_ℤ-ge u temp e) c)
  ]

  -- On a rising curve, static or dynamic, of which no two temperatures next to each other have a sum
  -- beyond the range of `int`, the speed is defined, it is at least that of each point at or below
  -- the temperature, and at most that of each point at or above it.
  pub target_rpm-Bracket :
      (dynamic : Bool) (curve : List (ℤ × ℕ)) (temp : ℤ)
      → IsRising curve
      → Gives (Bracket temp curve) (target_rpm fp dynamic curve temp)
  unfolding target_rpm
  target_rpm-Bracket dynamic [] temp h = absurd h
  target_rpm-Bracket dynamic ((t, r) ∷ m) temp h = elim (Bool-cases (ltb_ℤ t temp)) [
    | inl e ↦ rw e (
        Gives-imp (λ x. (r ≤ x) × Bracket temp m x) _ _
          (λ x b. ((λ _. b.0, λ j. absurd (not-le_of_ltb_ℤ t temp e j)), b.1))
          (after-Bracket dynamic temp t r m h.0 (ltb_ℤ-lt t temp e) h.2))
    | inr e ↦ rw e (
      (λ _. omega arith, λ _. omega arith),
      Climbs-Bracket temp t r r m (ltb_ℤ-ge t temp e) (omega arith) h.2,
    )
  ]
