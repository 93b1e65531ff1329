-- ===== src/Fan/Mapping/Monotone.antt =====
-- "Ensure that RPM only increases with PWM!"
use fancon.Common.{
  ◌∙◌, ℕ, ◌≤◌, ◌<◌, ◌≡◌, ◌⊎◌, ◌↔◌, inl, inr, List, [], ◌∷◌, arith, ltb, if-cases, or_skip, Elem,
  length,
}
use fancon.Common.OrdMap.{insert, keys, values, nat_less, IsAscending, Above}
use fancon.Common.Sort.{sort, SortedFrom, sort-SortedFrom, length-sort, Elem-sort}
use fancon.Fan.{clamp_pwm, pwm_max}
use fancon.Fan.Mapping.{pair_up, rpm_to_pwm_from}

-- RPMs strictly ascend from above `r`, and PWMs do not fall from `p` on and are at most 255.
abbrev pub MonoFrom : ℕ → ℕ → List (ℕ × ℕ) → Type 0
MonoFrom r p [] = Unit
MonoFrom r p ((r', p') ∷ m) = (r < r') × (p ≤ p') × (p' ≤ pwm_max) × MonoFrom r' p' m

abbrev pub IsMonotone : List (ℕ × ℕ) → Type 0
IsMonotone [] = Unit
IsMonotone ((r, p) ∷ m) = (p ≤ pwm_max) × MonoFrom r p m

abbrev Upto : ℕ → ℕ → List (ℕ × ℕ) → Type 0
Upto r p [] = Unit
Upto r p ((r', p') ∷ m) = (r' ≤ r) × (p' ≤ p) × Upto r p m

Upto-trans : (r s p q : ℕ) (m : List (ℕ × ℕ)) → r ≤ s → p ≤ q → Upto r p m → Upto s q m
Upto-trans r s p q [] h k u = tt
Upto-trans r s p q ((r', p') ∷ m) h k u = (omega arith, omega arith, Upto-trans r s p q m h k u.2)

insert-MonoFrom :
    (j w r p : ℕ) (m : List (ℕ × ℕ))
    → j < r
    → w ≤ p
    → p ≤ pwm_max
    → Upto r p m
    → MonoFrom j w m
    → MonoFrom j w (insert r p m) × Upto r p (insert r p m)
unfolding insert
insert-MonoFrom j w r p [] h k b u o = ((h, k, b, tt), (omega arith, omega arith, tt))
insert-MonoFrom j w r p ((r', p') ∷ []) h k b u o = ground arith
insert-MonoFrom j w r p ((r', p') ∷ (r'', p'') ∷ m) h k b u o =
    ground (arith, insert-MonoFrom r' p' r p ((r'', p'') ∷ m))

insert-IsMonotone :
    (r p : ℕ) (m : List (ℕ × ℕ))
    → p ≤ pwm_max
    → Upto r p m
    → IsMonotone m
    → IsMonotone (insert r p m) × Upto r p (insert r p m)
unfolding insert
insert-IsMonotone r p [] b u o = ((b, tt), (omega arith, omega arith, tt))
insert-IsMonotone r p ((r', p') ∷ []) b u o = ground arith
insert-IsMonotone r p ((r', p') ∷ (r'', p'') ∷ m) b u o =
    ground (arith, insert-MonoFrom r' p' r p ((r'', p'') ∷ m))

clamp_pwm_mono : (p q : ℕ) → p ≤ q → (clamp_pwm p ≤ clamp_pwm q) × (clamp_pwm q ≤ pwm_max)
unfolding clamp_pwm
clamp_pwm_mono p q h = ground arith

pair_up-IsMonotone :
    (r p : ℕ) (rpms : List ℕ) (pwms m : List (ℕ × ℕ))
    → SortedFrom r rpms
    → Above p pwms
    → IsAscending pwms
    → Upto r (clamp_pwm p) m
    → IsMonotone m
    → IsMonotone (pair_up rpms pwms m)
unfolding pair_up
pair_up-IsMonotone r p [] pwms m s a c u o = o
pair_up-IsMonotone r p (x ∷ rpms) [] m s a c u o = o
pair_up-IsMonotone r p (x ∷ rpms) ((q, y) ∷ pwms) m s a c u o =
    let b = clamp_pwm_mono p q (ground (arith, a.0)) in
    let i =
      insert-IsMonotone x (clamp_pwm q) m b.1
        (Upto-trans r x (clamp_pwm p) (clamp_pwm q) m s.0 b.0 u) o in
    pair_up-IsMonotone x q rpms pwms (insert x (clamp_pwm q) m) s.1 c.0 c.1 i.1 i.0

from_empty-IsMonotone :
    (rpms : List ℕ) (m : List (ℕ × ℕ))
    → SortedFrom 0 rpms
    → IsAscending m
    → IsMonotone (pair_up rpms m [])
unfolding pair_up
from_empty-IsMonotone [] m s c = tt
from_empty-IsMonotone (x ∷ rpms) [] s c = tt
from_empty-IsMonotone (x ∷ rpms) ((q, y) ∷ pwms) s c =
    let b = (clamp_pwm_mono q q (omega arith)).1 in
    pair_up-IsMonotone x q rpms pwms ((x, clamp_pwm q) ∷ []) s.1 c.0 c.1
      (omega arith, omega arith, tt) (b, tt)

-- Whatever was measured, in the map that is left the RPMs strictly ascend, the PWMs do not fall
-- with them, and no PWM is above 255.
pub rpm_to_pwm_from-IsMonotone :
    (pwm_to_rpm : List (ℕ × ℕ)) → IsAscending pwm_to_rpm → IsMonotone (rpm_to_pwm_from pwm_to_rpm)
unfolding rpm_to_pwm_from
rpm_to_pwm_from-IsMonotone m c =
    from_empty-IsMonotone (sort (values m)) m (sort-SortedFrom (values m)) c

Elem-keys-insert :
    (x r p : ℕ) (m : List (ℕ × ℕ)) → Elem x (keys (insert r p m)) ↔ ((x ≡ r) ⊎ Elem x (keys m))
unfolding insert
Elem-keys-insert x r p [] = (λ h. h, λ h. h)
Elem-keys-insert x r p ((j, w) ∷ m) =
    if-cases (λ (l : List (ℕ × ℕ)). Elem x (keys l) ↔ ((x ≡ r) ⊎ Elem x (j ∷ keys m))) (ltb r j)
      (λ _. (λ h. h, λ h. h))
      (λ e.
        if-cases (λ (l : List (ℕ × ℕ)). Elem x (keys l) ↔ ((x ≡ r) ⊎ Elem x (j ∷ keys m))) (ltb j r)
          (λ _. or_skip (x ≡ j) (Elem-keys-insert x r p m)) (λ f. replaced (ground arith)))
  where
    replaced : j ≡ r → Elem x (r ∷ keys m) ↔ ((x ≡ r) ⊎ Elem x (j ∷ keys m))
    replaced e = (
      elim [ inl i ↦ inl i | inr h ↦ inr (inr h) ],
      elim [ inl i ↦ inl i | inr h ↦ elim h [ inl i ↦ inl (i ∙ e) | inr k ↦ inr k ] ],
    )

Elem-keys-pair_up :
    (x : ℕ) (rpms : List ℕ) (pwms m : List (ℕ × ℕ))
    → length rpms ≡ length pwms
    → Elem x (keys (pair_up rpms pwms m)) ↔ (Elem x rpms ⊎ Elem x (keys m))
unfolding pair_up
Elem-keys-pair_up x [] pwms m e = (λ h. inr h, elim [ inl h ↦ absurd h | inr h ↦ h ])
Elem-keys-pair_up x (r ∷ rpms) [] m e = absurd (omega arith)
Elem-keys-pair_up x (r ∷ rpms) ((q, y) ∷ pwms) m e =
    let ih = Elem-keys-pair_up x rpms pwms (insert r (clamp_pwm q) m) (omega arith) in
    let here = Elem-keys-insert x r (clamp_pwm q) m in
    (
      λ h. elim (ih.0 h) [
        | inl k ↦ inl (inr k)
        | inr k ↦ elim (here.0 k) [ inl i ↦ inl (inl i) | inr l ↦ inr l ]
      ],
      elim [
        | inl h ↦ elim h [ inl i ↦ ih.1 (inr (here.1 (inl i))) | inr k ↦ ih.1 (inl k) ]
        | inr h ↦ ih.1 (inr (here.1 (inr h)))
      ],
    )

length-values : (m : List (ℕ × ℕ)) → length (values m) ≡ length m
length-values [] = omega arith
length-values ((k, v) ∷ m) = omega (arith, length-values m)

-- The RPMs of the map that is left are just those that were measured.
pub keys-rpm_to_pwm_from :
    (rpm : ℕ) (pwm_to_rpm : List (ℕ × ℕ))
    → Elem rpm (keys (rpm_to_pwm_from pwm_to_rpm)) ↔ Elem rpm (values pwm_to_rpm)
unfolding rpm_to_pwm_from
keys-rpm_to_pwm_from rpm m =
    let pairs =
      Elem-keys-pair_up rpm (sort (values m)) m [] (length-sort (values m) ∙ length-values m) in
    let sorted = Elem-sort rpm (values m) in
    (
      λ h. elim (pairs.0 h) [ inl k ↦ sorted.0 k | inr k ↦ absurd k ],
      λ h. pairs.1 (inl (sorted.1 h)),
    )
