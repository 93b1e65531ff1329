-- ===== src/Common/Lists.antt =====
-- Lists measured by native numbers, predicates on lists.
use Prim.Native.Nat.{ℕ, zero, suc, ◌+◌}
use mathlib.Core.Path.{◌≡◌, refl}
use mathlib.Core.Logic.{◌⊎◌, ◌↔◌, inl, inr}
use mathlib.Core.Option.{Option, none, some}
use mathlib.Core.List.{List, [], ◌∷◌, ◌++◌}
use native.Mathlib.Omega.{arith}

module _ {ℓ} {A : Type ℓ} where
  abbrev pub length : List A → ℕ
  length [] = 0
  length (x ∷ xs) = suc (length xs)

  abbrev pub set : List A → ℕ → A → List A
  set [] i v = []
  set (x ∷ xs) zero v = v ∷ xs
  set (x ∷ xs) (suc i) v = x ∷ set xs i v

  abbrev pub replicate : ℕ → A → List A
  replicate zero a = []
  replicate (suc n) a = a ∷ replicate n a

  pub length-append : (xs ys : List A) → length (xs ++ ys) ≡ length xs + length ys
  length-append [] ys = omega arith
  length-append (x ∷ xs) ys = omega (arith, length-append xs ys)

  pub length-set : (xs : List A) (i : ℕ) (v : A) → length (set xs i v) ≡ length xs
  length-set [] i v = refl
  length-set (x ∷ xs) zero v = refl
  length-set (x ∷ xs) (suc i) v = omega (arith, length-set xs i v)

  pub length-replicate : (n : ℕ) (a : A) → length (replicate n a) ≡ n
  length-replicate zero a = refl
  length-replicate (suc n) a = omega (arith, length-replicate n a)

-- Every element satisfies `P`.
abbrev pub All {ℓ κ} : {A : Type ℓ} → (A → Type κ) → List A → Type κ
All P [] = Unit
All P (x ∷ xs) = P x × All P xs

-- `a` is an element.
abbrev pub Elem : {A : Type 0} → A → List A → Type 0
Elem a [] = ⊥
Elem a (x ∷ xs) = (a ≡ x) ⊎ Elem a xs

-- There is a value, and it satisfies `P`.
abbrev pub Gives : {A : Type 0} → (A → Type 0) → Option A → Type 0
Gives P none = ⊥
Gives P (some a) = P a

pub Gives-imp :
    {A : Type 0} (P Q : A → Type 0) (o : Option A) → ((a : A) → P a → Q a) → Gives P o → Gives Q o
Gives-imp P Q none f h = h
Gives-imp P Q (some a) f h = f a h

infixl 5 ◌>>=◌
abbrev pub ◌>>=◌ : {A B : Type 0} → Option A → (A → Option B) → Option B
none >>= f = none
some a >>= f = f a

pub Gives-bind :
    {A B : Type 0} (P : A → Type 0) (Q : B → Type 0) (o : Option A) (f : A → Option B)
    → Gives P o
    → ((a : A) → P a → Gives Q (f a))
    → Gives Q (o >>= f)
Gives-bind P Q none f h k = absurd h
Gives-bind P Q (some a) f h k = k a h

-- An alternative in front of both sides.
pub or_skip : {A B X : Type 0} (Y : Type 0) → (A ↔ (X ⊎ B)) → (Y ⊎ A) ↔ (X ⊎ (Y ⊎ B))
or_skip Y h = (
  elim [ inl y ↦ inr (inl y) | inr a ↦ elim (h.0 a) [ inl x ↦ inl x | inr b ↦ inr (inr b) ] ],
  elim [ inl x ↦ inr (h.1 (inl x)) | inr c ↦ elim c [ inl y ↦ inl y | inr b ↦ inr (h.1 (inr b)) ] ],
)
