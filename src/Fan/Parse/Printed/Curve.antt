-- ===== src/Fan/Parse/Printed/Curve.antt =====
-- What `temp_to_rpm_from` of src/fan/Fan.cpp makes of the text that `map_str` prints of a curve.
use fancon.Common.{
  ℕ, suc, ◌<◌, ◌≡◌, ◌∙◌, refl, false, none, some, List, [], ◌∷◌, ◌++◌, arith, All, ◌==◌,
}
use mathlib.Core.Path.{subst}
use mathlib.Core.List.{append-nil}
use fancon.Common.Int.{ℤ, pos, negsuc}
use fancon.Common.Words.{u32_mod, i32_top}
use fancon.Common.OrdMap.{insert, nat_less, int_less}
use fancon.Util.Text.{Text, digits_of, show, show_ℤ, map_str}
use fancon.Util.Text.Decimal.{from_string-shown}
use fancon.Fan.Parse.{
  skip_spaces, colon, optional, pwm_suffix, match_temp, TempItem, for_items, take_temp,
  temp_to_rpm_from,
}
use fancon.Fan.Parse.Printed.{
  Ends, Ends-Stops, skip_spaces-show, some_digits-show, for_items-hit, for_items-more,
  for_items-skip, read_back,
}

skip_spaces-Ends : (rest : Text) → Ends rest → skip_spaces rest ≡ rest
unfolding skip_spaces
skip_spaces-Ends [] h = refl
skip_spaces-Ends (c ∷ s) h = ground arith

percent-Ends : (rest : Text) → Ends rest → optional (λ c. c == b'%') rest ≡ (false, rest)
unfolding optional
percent-Ends [] h = refl
percent-Ends (c ∷ s) h = ground arith

pwm_suffix-Ends : (rest : Text) → Ends rest → pwm_suffix rest ≡ (false, rest)
unfolding pwm_suffix
pwm_suffix-Ends [] h = refl
pwm_suffix-Ends (a ∷ []) h = refl
pwm_suffix-Ends (a ∷ b ∷ []) h = refl
pwm_suffix-Ends (a ∷ b ∷ c ∷ s) h = ground arith

abbrev plain : ℕ → ℕ → TempItem
plain t r = record {
  temp = show t;
  is_fahrenheit = false;
  rpm = show r;
  is_percent = false;
  is_pwm = false;
}

match_temp-show :
    (t r : ℕ) (rest : Text)
    → Ends rest
    → match_temp (show t ++ (b':' ∷ 32 ∷ (show r ++ rest))) ≡ some (plain t r, rest)
unfolding match_temp skip_spaces colon optional
match_temp-show t r rest h = rw (some_digits-show t (b':' ∷ 32 ∷ (show r ++ rest)) refl) (
    rw (skip_spaces-show r rest) (
      rw (some_digits-show r rest (Ends-Stops rest h)) (
        rw (skip_spaces-Ends rest h)
          (rw (percent-Ends rest h) (rw (pwm_suffix-Ends rest h) refl)))))

-- The number without its sign.
abbrev pub magnitude : ℤ → ℕ
magnitude (pos n) = n
magnitude (negsuc n) = suc n

module _ (rpm_to_pwm : List (ℕ × ℕ)) where
  take_temp-plain :
      (t r : ℕ) (m : List (ℤ × ℕ))
      → t < i32_top
      → r < u32_mod
      → take_temp rpm_to_pwm (plain t r) m ≡ some (insert (pos t) r m)
  unfolding take_temp
  take_temp-plain t r m h k =
      ground (arith, from_string-shown i32_top t, from_string-shown u32_mod r)

  one_temp :
      (t r : ℕ) (m : List (ℤ × ℕ))
      → t < i32_top
      → r < u32_mod
      → for_items match_temp (take_temp rpm_to_pwm) (show t ++ (b':' ∷ 32 ∷ show r)) m
        ≡ some (insert (pos t) r m)
  one_temp t r m h k =
      for_items-hit match_temp (take_temp rpm_to_pwm) (show t ++ (b':' ∷ 32 ∷ show r)) (plain t r) m
        (subst (λ s. match_temp (show t ++ (b':' ∷ 32 ∷ s)) ≡ some (plain t r, []))
          (append-nil (show r)) (match_temp-show t r [] tt))
      ∙ take_temp-plain t r m h k

  more_temps :
      (t r : ℕ) (rest : Text) (m : List (ℤ × ℕ))
      → for_items match_temp
          (take_temp rpm_to_pwm)
          (show t ++ (b':' ∷ 32 ∷ (show r ++ (b',' ∷ rest))))
          m
        ≡ none
  more_temps t r rest m =
      for_items-more match_temp (take_temp rpm_to_pwm)
        (show t ++ (b':' ∷ 32 ∷ (show r ++ (b',' ∷ rest)))) (plain t r) b',' rest m
        (match_temp-show t r (b',' ∷ rest) refl)

  no_sign :
      (s : Text) (m : List (ℤ × ℕ))
      → for_items match_temp (take_temp rpm_to_pwm) (b'-' ∷ s) m
        ≡ for_items match_temp (take_temp rpm_to_pwm) s m
  unfolding match_temp digits_of
  no_sign s m = for_items-skip match_temp (take_temp rpm_to_pwm) b'-' s m refl

-- The text of a curve with at most one point is read back with the sign of its temperature lost, on a
-- fan that has a map of PWMs. With two points or more the behaviour is undefined.
pub temp_to_rpm_from-map_str :
    (p : ℕ × ℕ) (rpm_to_pwm : List (ℕ × ℕ)) (m before : List (ℤ × ℕ))
    → All (λ e. (magnitude e.0 < i32_top) × (e.1 < u32_mod)) m
    → temp_to_rpm_from (p ∷ rpm_to_pwm) (map_str show_ℤ show m) before
      ≡ read_back (λ t. insert (pos (magnitude t))) m before
unfolding temp_to_rpm_from map_str show_ℤ digits_of
temp_to_rpm_from-map_str p l [] before h = refl
temp_to_rpm_from-map_str p l ((pos t, r) ∷ []) before h =
    one_temp (p ∷ l) t r before (omega arith) (omega arith)
temp_to_rpm_from-map_str p l ((negsuc n, r) ∷ []) before h =
    no_sign (p ∷ l) (show (suc n) ++ (b':' ∷ 32 ∷ show r)) before
    ∙ one_temp (p ∷ l) (suc n) r before (omega arith) (omega arith)
temp_to_rpm_from-map_str p l ((pos t, r) ∷ e ∷ m) before h =
    more_temps (p ∷ l) t r (32 ∷ map_str show_ℤ show (e ∷ m)) before
temp_to_rpm_from-map_str p l ((negsuc n, r) ∷ e ∷ m) before h =
    no_sign (p ∷ l)
      (show (suc n) ++ (b':' ∷ 32 ∷ (show r ++ (b',' ∷ 32 ∷ map_str show_ℤ show (e ∷ m))))) before
    ∙ more_temps (p ∷ l) (suc n) r (32 ∷ map_str show_ℤ show (e ∷ m)) before
