-- ===== src/Go/Numbers.antt =====
-- `strconv.Atoi`.
use Prim.Native.Char.{Char, code}
use dql.Prelude.{
  ℕ, zero, suc, ◌+◌, ◌*◌, ◌-◌, Bool, true, false, ◌&&◌, List, [], ◌∷◌, Option, none, some, leb,
  ◌==◌, if◌then◌else◌,
}
use dql.Prelude.Int.{ℤ, pos, negsuc}

-- 2^63 - 1.
abbrev pub max_int : ℕ
max_int = 9223372036854775807

-- The number of a list of decimal digits, behind the one so far; none at any other character.
unfoldable pub digits_value : ℕ → List Char → Option ℕ
digits_value n [] = some n
digits_value n (c ∷ cs) =
    let rest = digits_value (10 * n + (code c - 48)) cs in
    if leb b'0' (code c) && leb (code c) b'9' then rest else none

-- What `Atoi` returns, and whether it does so without an error: 0 for a text that is no number,
-- the nearest integer for one that is out of range.
abbrev pub positive : Option ℕ → ℤ × Bool
positive none = (pos 0, false)
positive (some n) = if leb n max_int then (pos n, true) else (pos max_int, false)

abbrev pub negative : Option ℕ → ℤ × Bool
negative none = (pos 0, false)
negative (some zero) = (pos 0, true)
negative (some (suc n)) = if leb n max_int then (negsuc n, true) else (negsuc max_int, false)

abbrev pub digits_of : List Char → Option ℕ
digits_of [] = none
digits_of (c ∷ cs) = digits_value 0 (c ∷ cs)

unfoldable pub atoi : List Char → ℤ × Bool
unfolding digits_value
atoi [] = (pos 0, false)
atoi (c ∷ cs) =
    if code c == b'-'
    then negative (digits_of cs)
    else if code c == b'+'
    then positive (digits_of cs)
    else positive (digits_of (c ∷ cs))
