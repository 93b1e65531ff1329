-- ===== src/Arguments/Words.antt =====
-- src/main.cpp: the words of the command line before `read_args` looks them up, in lower case and
-- without their dashes and spaces.
use fancon.Common.{
  ℕ, ◌+◌, ◌≡◌, refl, Bool, true, false, ◌&&◌, ◌||◌, [], ◌∷◌, ◌++◌, leb, ◌==◌, map, All, arith,
  if◌then◌else◌,
}
use fancon.Util.Text.{Text, is_space}

-- `tolower` of the locale "C"
unfoldable pub to_lower : ℕ → ℕ
to_lower c = if leb b'A' c && leb c b'Z' then c + 32 else c

-- `[\s-]*`
unfoldable pub skip_lead : Text → Text
skip_lead [] = []
skip_lead (c ∷ s) = if is_space c || c == b'-' then skip_lead s else c ∷ s

-- `[\S]*`, and what follows
unfoldable pub word_in : Text → Text
word_in [] = []
word_in (c ∷ s) = if is_space c then [] else c ∷ word_in s

unfoldable pub after_word : Text → Text
after_word [] = []
after_word (c ∷ s) = if is_space c then c ∷ s else after_word s

unfoldable pub all_spaces : Text → Bool
all_spaces [] = true
all_spaces (c ∷ s) = is_space c && all_spaces s

-- The match of the whole word, greedy: giving characters back never helps. Without a match the text is
-- empty.
unfoldable pub match_word : Text → Text
unfolding skip_lead word_in after_word all_spaces
match_word s =
    let start = skip_lead s in if all_spaces (after_word start) then word_in start else []

unfoldable pub lower_word : Text → Text
unfolding match_word to_lower
lower_word s = match_word (map to_lower s)

abbrev pub IsLead : ℕ → Type 0
IsLead c = (is_space c || c == b'-') ≡ true

abbrev pub Spaces : Text → Type 0
Spaces = All (λ c. is_space c ≡ true)

abbrev pub NoSpaces : Text → Type 0
NoSpaces = All (λ c. is_space c ≡ false)

skip_lead-append :
    (lead : Text) (c : ℕ) (s : Text)
    → All IsLead lead
    → is_space c ≡ false
    → (c == b'-') ≡ false
    → skip_lead (lead ++ (c ∷ s)) ≡ c ∷ s
unfolding skip_lead
skip_lead-append [] c s h k d = ground (arith, k, d)
skip_lead-append (l ∷ lead) c s h k d = ground (arith, h.0, skip_lead-append lead c s h.1 k d)

word_in-append :
    (w trail : Text)
    → NoSpaces w
    → Spaces trail
    → (word_in (w ++ trail) ≡ w) × (after_word (w ++ trail) ≡ trail)
unfolding word_in after_word
word_in-append [] [] k t = (refl, refl)
word_in-append [] (c ∷ trail) k t = ground (arith, t.0)
word_in-append (c ∷ w) trail k t = ground (arith, k.0, word_in-append w trail k.1 t)

all_spaces-Spaces : (trail : Text) → Spaces trail → all_spaces trail ≡ true
unfolding all_spaces
all_spaces-Spaces [] t = refl
all_spaces-Spaces (c ∷ trail) t = ground (arith, t.0, all_spaces-Spaces trail t.1)

-- A word of the command line is found without the dashes and spaces before it and the spaces after it;
-- a dash inside of it stays.
pub match_word-append :
    (lead : Text) (c : ℕ) (w trail : Text)
    → All IsLead lead
    → NoSpaces (c ∷ w)
    → (c == b'-') ≡ false
    → Spaces trail
    → match_word (lead ++ (c ∷ (w ++ trail))) ≡ c ∷ w
unfolding match_word
match_word-append lead c w trail h k d t =
    let (inside, after) = word_in-append (c ∷ w) trail k t in
    rw (skip_lead-append lead c (w ++ trail) h k.0 d)
      (rw after (rw (all_spaces-Spaces trail t) inside))
