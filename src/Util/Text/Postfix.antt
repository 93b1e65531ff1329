-- ===== src/Util/Text/Postfix.antt =====
-- What `postfix_num` finds in a text.
use mathlib.Core.List.{reverse, reverse_aux, reverse_aux-append, append-nil}
use fancon.Common.{
  ℕ, ◌≡◌, ◌∙◌, ap, refl, Bool, true, false, none, some, [], ◌∷◌, ◌++◌, arith, ltb, if◌then◌else◌,
  All,
}
use fancon.Util.Text.{Text, is_digit, passed, postfix_num, show}
use fancon.Util.Text.Decimal.{Digits, Stops, show-Digits, from_string-show}

abbrev pub NoDigits : Text → Type 0
NoDigits = All (λ c. is_digit c ≡ false)

passed-NoDigits :
    (post before s : Text)
    → NoDigits post
    → passed false (reverse_aux post before) s ≡ passed false before (post ++ s)
unfolding passed
passed-NoDigits [] before s h = refl
passed-NoDigits (c ∷ post) before s h =
    passed-NoDigits post (c ∷ before) s h.1 ∙ ground (arith, h.0)

passed-Digits :
    (c : ℕ) (ds before s : Text) (found : Bool)
    → is_digit c ≡ true
    → Digits ds
    → passed found (reverse_aux ds (c ∷ before)) s ≡ passed true before (c ∷ (ds ++ s))
unfolding passed
passed-Digits c [] before s found h d = ground (arith, h)
passed-Digits c (e ∷ ds) before s found h d =
    passed-Digits e ds (c ∷ before) s found d.0 d.1 ∙ ground (arith, h)

passed-Stops : (before s : Text) → Stops before → passed true before s ≡ s
unfolding passed
passed-Stops [] s h = refl
passed-Stops (c ∷ before) s h = ground (arith, h)

NoDigits-Stops : (post : Text) → NoDigits post → Stops post
NoDigits-Stops [] h = tt
NoDigits-Stops (c ∷ post) h = h.0

-- The last number in a text is found, whatever follows it that holds no digit, and whatever stands
-- before it that does not end in one; it is refused if it does not fit.
pub postfix_num-show :
    (values n : ℕ) (pre post : Text)
    → Stops (reverse pre)
    → NoDigits post
    → postfix_num values (pre ++ (show n ++ post)) ≡ (if ltb n values then some n else none)
unfolding postfix_num
postfix_num-show values n pre post p q =
    let (c, s, e, d) = show-Digits n in
    let run : passed false (reverse (pre ++ (show n ++ post))) [] ≡ show n ++ post =
      rw (reverse_aux-append pre (show n ++ post) []) (
        rw (reverse_aux-append (show n) post (reverse pre)) (
          rw (passed-NoDigits post (reverse_aux (show n) (reverse pre)) [] q) (
            rw e (
              passed-Digits c s (reverse pre) (post ++ []) false d.0 d.1
              ∙ passed-Stops (reverse pre) (c ∷ (s ++ (post ++ []))) p
              ∙ ap (λ (t : Text). c ∷ (s ++ t)) (append-nil post))))) in
    rw run (from_string-show values n post (NoDigits-Stops post q))
