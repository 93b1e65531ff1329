-- ===== src/Common/Sort.antt =====
-- `std::sort` of numbers.
use fancon.Common.{
  ℕ, suc, ◌≤◌, ◌≡◌, ◌⊎◌, ◌↔◌, inl, inr, List, [], ◌∷◌, arith, leb, if◌then◌else◌, if-cases, or_skip,
  Elem, length,
}

unfoldable pub insert_sorted : ℕ → List ℕ → List ℕ
insert_sorted a [] = a ∷ []
insert_sorted a (x ∷ xs) = if leb a x then a ∷ x ∷ xs else x ∷ insert_sorted a xs

unfoldable pub sort : List ℕ → List ℕ
unfolding insert_sorted
sort [] = []
sort (x ∷ xs) = insert_sorted x (sort xs)

-- Sorted, and no element is below `a`.
abbrev pub SortedFrom : ℕ → List ℕ → Type 0
SortedFrom a [] = Unit
SortedFrom a (x ∷ xs) = (a ≤ x) × SortedFrom x xs

insert_sorted-SortedFrom :
    (a b : ℕ) (xs : List ℕ) → a ≤ b → SortedFrom a xs → SortedFrom a (insert_sorted b xs)
unfolding insert_sorted
insert_sorted-SortedFrom a b [] h s = (h, tt)
insert_sorted-SortedFrom a b (x ∷ xs) h s = ground (arith, insert_sorted-SortedFrom x b xs)

pub sort-SortedFrom : (xs : List ℕ) → SortedFrom 0 (sort xs)
unfolding sort
sort-SortedFrom [] = tt
sort-SortedFrom (x ∷ xs) = insert_sorted-SortedFrom 0 x (sort xs) (omega arith) (sort-SortedFrom xs)

length-insert_sorted : (a : ℕ) (xs : List ℕ) → length (insert_sorted a xs) ≡ suc (length xs)
unfolding insert_sorted
length-insert_sorted a [] = omega arith
length-insert_sorted a (x ∷ xs) = ground (arith, length-insert_sorted a xs)

pub length-sort : (xs : List ℕ) → length (sort xs) ≡ length xs
unfolding sort
length-sort [] = omega arith
length-sort (x ∷ xs) = omega (arith, length-insert_sorted x (sort xs), length-sort xs)

Elem-insert_sorted : (r a : ℕ) (xs : List ℕ) → Elem r (insert_sorted a xs) ↔ ((r ≡ a) ⊎ Elem r xs)
unfolding insert_sorted
Elem-insert_sorted r a [] = (λ h. h, λ h. h)
Elem-insert_sorted r a (x ∷ xs) =
    let ih = Elem-insert_sorted r a xs in
    if-cases (λ l. Elem r l ↔ ((r ≡ a) ⊎ Elem r (x ∷ xs))) (leb a x) (λ _. (λ h. h, λ h. h))
      (λ _. or_skip (r ≡ x) ih)

pub Elem-sort : (r : ℕ) (xs : List ℕ) → Elem r (sort xs) ↔ Elem r xs
unfolding sort
Elem-sort r [] = (λ h. h, λ h. h)
Elem-sort r (x ∷ xs) =
    let step = Elem-insert_sorted r x (sort xs) in
    let ih = Elem-sort r xs in
    (
      λ h. elim (step.0 h) [ inl e ↦ inl e | inr k ↦ inr (ih.0 k) ],
      elim [ inl e ↦ step.1 (inl e) | inr k ↦ step.1 (inr (ih.1 k)) ],
    )
