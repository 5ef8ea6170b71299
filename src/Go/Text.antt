-- ===== src/Go/Text.antt =====
-- The functions of Go's `strings` and `strconv` that the program calls.
use Prim.Native.Char.{Char, code}
use Prim.Native.String.{◌++◌ as str_append, compare as compare_text}
use Prim.Native.Nat.{Ordering}
use text.Mathlib.Text.{find?}
use dql.Prelude.{
  ℕ, zero, suc, ◌/◌, ◌%◌, String, Bool, true, false, List, [], ◌∷◌, none, some, ltb, leb, ◌==◌,
  if◌then◌else◌, ◌&&◌,
}
use dql.Prelude.Int.{ℤ, pos, negsuc}

-- `strings.Join`.
unfoldable pub join : String → List String → String
join sep [] = ""
join sep (x ∷ []) = x
join sep (x ∷ y ∷ ys) = str_append x (str_append sep (join sep (y ∷ ys)))

-- `strings.Contains`.
unfoldable pub contains_text : String → String → Bool
contains_text s part = elim (find? s part) [ none ↦ false | some i ↦ true ]

-- `strings.ReplaceAll` of one character by a text.
unfoldable pub replace_char : ℕ → String → String → String
replace_char c by String.[] = ""
replace_char c by (String.◌∷◌ d s) =
    let rest = replace_char c by s in
    if code d == c then str_append by rest else (String.◌∷◌ d rest)

-- `a < b` and `a > b` on strings: by bytes, which for UTF-8 is by code points.
abbrev pub lt_text : String → String → Bool
lt_text a b = elim (compare_text a b) [ Ordering.lt ↦ true | _ ↦ false ]

abbrev pub gt_text : String → String → Bool
gt_text a b = elim (compare_text a b) [ Ordering.gt ↦ true | _ ↦ false ]

abbrev pub digit : ℕ → String
digit n =
    if n == 0
    then "0"
    else if n == 1
    then "1"
    else if n == 2
    then "2"
    else if n == 3
    then "3"
    else if n == 4
    then "4"
    else if n == 5
    then "5"
    else if n == 6
    then "6"
    else if n == 7
    then "7"
    else if n == 8
    then "8"
    else "9"

-- The digits of a number, with as many rounds as the number itself, which are enough.
digits : ℕ → ℕ → String
digits zero n = ""
digits (suc fuel) n =
    let more = digits fuel (n / 10) in
    if ltb n 10 then digit n else str_append more (digit (n % 10))

-- `%d` of a number that is not negative.
unfoldable pub decimal : ℕ → String
unfolding digits
decimal n = digits (suc n) n

-- `%d` of an integer.
unfoldable pub decimal_int : ℤ → String
unfolding decimal
decimal_int (pos n) = decimal n
decimal_int (negsuc n) = str_append "-" (decimal (suc n))

-- ASCII upper case of one character, as the byte loop of `upper` in pipe/planner.go reads it.
abbrev pub is_lower : Char → Bool
is_lower c = leb b'a' (code c) && leb (code c) b'z'
