-- ===== src/Fan/Parse/Printed.antt =====
-- What the parsers of a fan's maps make of the text that `map_str` prints; here of a map of PWMs.
pub mod Curve
use fancon.Common.{
  ℕ, zero, suc, ◌≤◌, ◌<◌, ◌≡◌, ◌∙◌, ap, refl, true, Option, none, some, List, [], ◌∷◌, ◌++◌, arith,
  length, All,
}
use mathlib.Core.Path.{subst}
use mathlib.Core.List.{append-nil}
use fancon.Common.Words.{u32_mod}
use fancon.Common.OrdMap.{insert, nat_less, int_less}
use fancon.Util.Text.{Text, is_digit, digits_of, show, map_str}
use fancon.Util.Text.Decimal.{
  Digits, Stops, digits_of-append, show-Digits, length-show, from_string-shown,
}
use fancon.Fan.{clamp_pwm}
use fancon.Fan.Parse.{
  after_digits, up_to, after_up_to, skip_spaces, some_digits, not_empty, colon, match_rpm, search,
  for_items, take_rpm, rpm_to_pwm_from,
}

-- The text is at its end, or goes on with a comma.
abbrev pub Ends : Text → Type 0
Ends [] = Unit
Ends (c ∷ s) = c ≡ b','

after_digits-append : (ds rest : Text) → Digits ds → Stops rest → after_digits (ds ++ rest) ≡ rest
unfolding after_digits
after_digits-append [] [] d h = refl
after_digits-append [] (c ∷ s) d h = ground arith
after_digits-append (c ∷ ds) rest d h = ground (arith, after_digits-append ds rest d.1 h)

pub some_digits-show :
    (n : ℕ) (rest : Text) → Stops rest → some_digits (show n ++ rest) ≡ some (show n, rest)
unfolding some_digits not_empty
some_digits-show n rest h =
    let (c, s, e, d) = show-Digits n in
    rw e (rw (digits_of-append (c ∷ s) rest d h) (rw (after_digits-append (c ∷ s) rest d h) refl))

up_to-append :
    (n : ℕ) (ds rest : Text)
    → Digits ds
    → length ds ≤ n
    → Stops rest
    → (up_to n (ds ++ rest) ≡ ds) × (after_up_to n (ds ++ rest) ≡ rest)
unfolding up_to after_up_to
up_to-append zero [] rest d l h = (refl, refl)
up_to-append zero (c ∷ ds) rest d l h = absurd (omega arith)
up_to-append (suc n) [] [] d l h = (refl, refl)
up_to-append (suc n) [] (c ∷ s) d l h = ground arith
up_to-append (suc n) (c ∷ ds) rest d l h =
    ground (arith, up_to-append n ds rest d.1 (omega arith) h)

skip_spaces-digit : (c : ℕ) (s : Text) → is_digit c ≡ true → skip_spaces (c ∷ s) ≡ c ∷ s
unfolding skip_spaces
skip_spaces-digit c s h = ground arith

pub skip_spaces-show : (n : ℕ) (rest : Text) → skip_spaces (32 ∷ (show n ++ rest)) ≡ show n ++ rest
unfolding skip_spaces
skip_spaces-show n rest =
    let (c, s, e, d) = show-Digits n in rw e (skip_spaces-digit c (s ++ rest) d.0)

pub Ends-Stops : (rest : Text) → Ends rest → Stops rest
Ends-Stops [] h = tt
Ends-Stops (c ∷ s) h = ground arith

-- `(\d{1,3})`
three_digits-show :
    (p : ℕ) (rest : Text)
    → p < 1000
    → Stops rest
    → not_empty (up_to 3 (show p ++ rest)) (after_up_to 3 (show p ++ rest)) ≡ some (show p, rest)
unfolding not_empty
three_digits-show p rest b h =
    let (c, s, e, d) = show-Digits p in
    let l : length (c ∷ s) ≤ 3 = omega (arith, length-show p b, ap length e) in
    let (x, y) = up_to-append 3 (c ∷ s) rest d l h in rw e (rw x (rw y refl))

match_rpm-show :
    (r p : ℕ) (rest : Text)
    → p < 1000
    → Ends rest
    → match_rpm (show r ++ (b':' ∷ 32 ∷ (show p ++ rest))) ≡ some ((show r, show p), rest)
unfolding match_rpm some_digits colon
match_rpm-show r p rest b h =
    let first : not_empty (digits_of (show r ++ (b':' ∷ 32 ∷ (show p ++ rest))))
          (after_digits (show r ++ (b':' ∷ 32 ∷ (show p ++ rest))))
        ≡ some (show r, b':' ∷ 32 ∷ (show p ++ rest)) =
      some_digits-show r (b':' ∷ 32 ∷ (show p ++ rest)) refl in
    rw first
      (rw (skip_spaces-show p rest) (rw (three_digits-show p rest b (Ends-Stops rest h)) refl))

-- The entry in front is taken; another one after it leaves the search without a range.
module _ {A M : Type 0} (match_here : Text → Option (A × Text)) (take : A → M → Option M) where
  pub for_items-hit :
      (src : Text) (item : A) (m : M)
      → match_here src ≡ some (item, [])
      → for_items match_here take src m ≡ take item m
  unfolding for_items search
  for_items-hit [] item m h = ground (arith, h)
  for_items-hit (c ∷ s) item m h = ground (arith, h)

  pub for_items-more :
      (src : Text) (item : A) (c : ℕ) (rest : Text) (m : M)
      → match_here src ≡ some (item, c ∷ rest)
      → for_items match_here take src m ≡ none
  unfolding for_items search
  for_items-more [] item c rest m h = ground (arith, h)
  for_items-more (c ∷ s) item d rest m h = ground (arith, h)

  -- A character that starts no item is passed over.
  pub for_items-skip :
      (c : ℕ) (s : Text) (m : M)
      → match_here (c ∷ s) ≡ none
      → for_items match_here take (c ∷ s) m ≡ for_items match_here take s m
  unfolding for_items search
  for_items-skip c s m h = ground (arith, h)

abbrev pub read_back :
    {K V : Type 0}
    → (K → V → List (K × V) → List (K × V))
    → List (K × V)
    → List (K × V)
    → Option (List (K × V))
read_back put [] before = some before
read_back put ((k, v) ∷ []) before = some (put k v before)
read_back put (e ∷ f ∷ m) before = none

take_rpm-show :
    (r p : ℕ) (m : List (ℕ × ℕ))
    → r < u32_mod
    → p ≤ 255
    → take_rpm (show r, show p) m ≡ some (insert r p m)
unfolding take_rpm clamp_pwm
take_rpm-show r p m h k = ground (arith, from_string-shown u32_mod r, from_string-shown u32_mod p)

-- The text of a map with at most one point is read back. With two points or more the second search has
-- no range to look in: the behaviour is undefined, whatever the points are.
pub rpm_to_pwm_from-map_str :
    (m before : List (ℕ × ℕ))
    → All (λ e. (e.0 < u32_mod) × (e.1 ≤ 255)) m
    → rpm_to_pwm_from (map_str show show m) before ≡ read_back insert m before
unfolding rpm_to_pwm_from map_str digits_of
rpm_to_pwm_from-map_str [] before h = refl
rpm_to_pwm_from-map_str ((r, p) ∷ []) before h =
    for_items-hit match_rpm take_rpm (show r ++ (b':' ∷ 32 ∷ show p)) (show r, show p) before
      (subst (λ t. match_rpm (show r ++ (b':' ∷ 32 ∷ t)) ≡ some ((show r, show p), []))
        (append-nil (show p)) (match_rpm-show r p [] (omega arith) tt))
    ∙ take_rpm-show r p before h.0.0 h.0.1
rpm_to_pwm_from-map_str ((r, p) ∷ e ∷ m) before h =
    for_items-more match_rpm take_rpm
      (show r ++ (b':' ∷ 32 ∷ (show p ++ (b',' ∷ 32 ∷ map_str show show (e ∷ m))))) (show r, show p)
      b',' (32 ∷ map_str show show (e ∷ m)) before
      (match_rpm-show r p (b',' ∷ 32 ∷ map_str show show (e ∷ m)) (omega arith) refl)
