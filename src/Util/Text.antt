-- ===== src/Util/Text.antt =====
-- src/util/Util.hpp: `from_string` and `map_str`, with the streams' decimal print of a number, over
-- texts as lists of code points.
pub mod Decimal
pub mod Postfix
mod Examples
use Prim.Native.Char.{code}
use Prim.Native.String.{String}
use mathlib.Core.List.{reverse}
use fancon.Common.{
  ℕ, zero, suc, ◌+◌, ◌-◌, ◌*◌, ◌/◌, ◌%◌, Bool, true, false, ◌&&◌, ◌||◌, Option, none, some, List,
  [], ◌∷◌, ◌++◌, ltb, leb, ◌==◌, if◌then◌else◌,
}
use fancon.Common.Int.{ℤ, pos, negsuc}

abbrev pub Text : Type 0
Text = List ℕ

abbrev pub codes : String → Text
codes String.[] = []
codes (String.◌∷◌ c s) = code c ∷ codes s

-- `\d` and `\s` of a regular expression
abbrev pub is_digit : ℕ → Bool
is_digit c = leb b'0' c && leb c b'9'

abbrev pub is_space : ℕ → Bool
is_space c = c == 32 || (leb 9 c && leb c 13)

-- The number that digits spell behind `n`.
unfoldable pub number : ℕ → Text → ℕ
number n [] = n
number n (c ∷ s) = number (n * 10 + (c - b'0')) s

-- The digits in front.
unfoldable pub digits_of : Text → Text
digits_of [] = []
digits_of (c ∷ s) = if is_digit c then c ∷ digits_of s else []

unfoldable pub spelt : ℕ → Text → Option ℕ
unfolding number
spelt values [] = none
spelt values (c ∷ s) = let n = number 0 (c ∷ s) in if ltb n values then some n else none

-- `from_chars` of a text with no sign, into an integer type with this many values from 0 on: it reads
-- the digits in front, of which there is one at least, and refuses a number that does not fit.
unfoldable pub from_string : ℕ → Text → Option ℕ
unfolding spelt digits_of
from_string values s = spelt values (digits_of s)

-- The loop of `postfix_num` over the text from its end: it passes what is no digit, then digits, and
-- stops before what comes next. What it passed is given in the text's order.
unfoldable pub passed : Bool → Text → Text → Text
passed found [] s = s
passed found (c ∷ before) s =
    let go_on = λ (f : Bool). passed f before (c ∷ s) in
    if is_digit c then go_on true else if found then s else go_on false

unfoldable pub postfix_num : ℕ → Text → Option ℕ
unfolding passed from_string
postfix_num values s = from_string values (passed false (reverse s) [])

-- The last digits of `n` in front of `out`, on fuel above `n`.
unfoldable pub digits : ℕ → ℕ → Text → Text
digits zero n out = out
digits (suc fuel) n out =
    let last = (b'0' + n % 10) ∷ out in
    let rest = digits fuel (n / 10) last in if ltb n 10 then last else rest

-- `<<` of an unsigned number
unfoldable pub show : ℕ → Text
unfolding digits
show n = digits (suc n) n []

-- `<<` of an `int`
unfoldable pub show_ℤ : ℤ → Text
unfolding show
show_ℤ (pos n) = show n
show_ℤ (negsuc n) = b'-' ∷ show (suc n)

-- The text of a map, from those of its keys and values.
unfoldable pub map_str : {K V : Type 0} → (K → Text) → (V → Text) → List (K × V) → Text
map_str show_key show_value [] = []
map_str show_key show_value ((k, v) ∷ []) = show_key k ++ (b':' ∷ 32 ∷ show_value v)
map_str show_key show_value ((k, v) ∷ e ∷ m) =
    show_key k ++ (b':' ∷ 32 ∷ (show_value v ++ (b',' ∷ 32 ∷ map_str show_key show_value (e ∷ m))))
