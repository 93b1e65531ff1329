-- ===== src/Util/Text/Decimal.antt =====
-- The decimal print of a number is read back by `from_string`.
use mathlib.Core.Path.{subst}
use mathlib.Core.List.{append-nil}
use fancon.Common.{
  ℕ, zero, suc, ◌+◌, ◌*◌, ◌/◌, ◌%◌, ◌≤◌, ◌<◌, ◌≡◌, ◌∙◌, ap, refl, true, false, none, some, [], ◌∷◌,
  ◌++◌, arith, ltb, if◌then◌else◌, All, length, inl, inr, Bool-cases,
}
use fancon.Util.Text.{Text, is_digit, number, digits_of, spelt, from_string, digits, show}

abbrev pub Digits : Text → Type 0
Digits = All (λ c. is_digit c ≡ true)

is_digit-last : (n : ℕ) → is_digit (b'0' + n % 10) ≡ true
is_digit-last n = ground arith

-- Without fuel left over: one round, or one and the rest.
digits_one : (fuel n : ℕ) (out : Text) → n < 10 → digits (suc fuel) n out ≡ (b'0' + n % 10) ∷ out
unfolding digits
digits_one fuel n out h = ground arith

digits_more :
    (fuel n : ℕ) (out : Text)
    → ltb n 10 ≡ false
    → digits (suc fuel) n out ≡ digits fuel (n / 10) ((b'0' + n % 10) ∷ out)
unfolding digits
digits_more fuel n out h = ground arith

number_last : (n : ℕ) (out : Text) → number (n / 10) ((b'0' + n % 10) ∷ out) ≡ number n out
unfolding number
number_last n out = ap (λ k. number k out) (omega arith)

number_first : (n : ℕ) (out : Text) → n < 10 → number 0 ((b'0' + n % 10) ∷ out) ≡ number n out
unfolding number
number_first n out h = ap (λ k. number k out) (omega arith)

-- The digits are put in front of `out`, and with them it spells the same number.
digits_lem :
    (fuel n : ℕ) (out : Text)
    → n < fuel
    → Digits out
    → (c : ℕ) × (s : Text) × (digits fuel n out ≡ c ∷ s)
      × Digits (c ∷ s)
      × (number 0 (c ∷ s) ≡ number n out)
digits_lem zero n out h d = absurd (omega arith)
digits_lem (suc fuel) n out h d = elim (Bool-cases (ltb n 10)) [
  | inl small ↦ (
    _,
    _,
    digits_one fuel n out (ground arith),
    (is_digit-last n, d),
    number_first n out (ground arith),
  )
  | inr large ↦
      let (c, s, e, ds, v) =
        digits_lem fuel (n / 10) ((b'0' + n % 10) ∷ out) (ground arith) (is_digit-last n, d) in
      (c, s, digits_more fuel n out large ∙ e, ds, v ∙ number_last n out)
]

pub show-Digits : (n : ℕ) → (c : ℕ) × (s : Text) × (show n ≡ c ∷ s) × Digits (c ∷ s)
unfolding show
show-Digits n = let (c, s, e, d, v) = digits_lem (suc n) n [] (omega arith) tt in (c, s, e, d)

-- What follows starts with no digit.
abbrev pub Stops : Text → Type 0
Stops [] = Unit
Stops (c ∷ s) = is_digit c ≡ false

pub digits_of-append : (ds rest : Text) → Digits ds → Stops rest → digits_of (ds ++ rest) ≡ ds
unfolding digits_of
digits_of-append [] [] d h = refl
digits_of-append [] (c ∷ s) d h = ground arith
digits_of-append (c ∷ ds) rest d h = ground (arith, digits_of-append ds rest d.1 h)

-- A number that fits is read back from its decimal print, and one that does not is refused.
pub from_string-show :
    (values n : ℕ) (rest : Text)
    → Stops rest
    → from_string values (show n ++ rest) ≡ (if ltb n values then some n else none)
unfolding from_string spelt show number
from_string-show values n rest h =
    let (c, s, e, d, v) = digits_lem (suc n) n [] (omega arith) tt in
    rw e (rw (digits_of-append (c ∷ s) rest d h) (rw v refl))

pub from_string-shown :
    (values n : ℕ) → from_string values (show n) ≡ (if ltb n values then some n else none)
from_string-shown values n =
    subst (λ t. from_string values t ≡ (if ltb n values then some n else none))
      (append-nil (show n)) (from_string-show values n [] tt)

abbrev bound : ℕ → ℕ
bound zero = 10
bound (suc k) = 10 * bound k

length-digits :
    (k fuel n : ℕ) (out : Text)
    → n < fuel
    → n < bound k
    → length (digits fuel n out) ≤ suc k + length out
length-digits k zero n out h b = absurd (omega arith)
length-digits zero (suc fuel) n out h b = rw (digits_one fuel n out b) (omega arith)
length-digits (suc k) (suc fuel) n out h b = elim (Bool-cases (ltb n 10)) [
  | inl small ↦ rw (digits_one fuel n out (ground arith)) (omega arith)
  | inr large ↦ rw (digits_more fuel n out large) (
      omega
        (arith, length-digits k fuel (n / 10) ((b'0' + n % 10) ∷ out) (ground arith) (omega arith)))
]

pub length-show : (n : ℕ) → n < 1000 → length (show n) ≤ 3
unfolding show
length-show n h = length-digits 2 (suc n) n [] (omega arith) (omega arith)

pub length-show_four : (n : ℕ) → n < 10000 → length (show n) ≤ 4
unfolding show
length-show_four n h = length-digits 3 (suc n) n [] (omega arith) (omega arith)
