-- ===== src/Pipe/Text/Split.antt =====
-- `splitTopLevel` of pipe/textual.go: the segments of a text between its top-level bars.
pub mod RoundTrip
use Prim.Native.Char.{Char, code}
use dql.Prelude.{
  ℕ, zero, suc, Bool, true, false, not, ◌&&◌, ◌||◌, List, [], ◌∷◌, ◌++◌, Outcome, ok, err, ◌==◌,
  if◌then◌else◌,
}
use dql.Prelude.Int.{ℤ, pos, negsuc}

pub data TextError : Type 0 where
  unterminated_string unterminated_expression unbalanced : TextError

-- Where the scan stands. A `)` without its `(` makes a depth negative.
pub record Scan : Type 0 where
  pub parens : ℤ
  pub brackets : ℤ
  pub braces : ℤ
  pub in_string : Bool
  pub in_raw : Bool
  pub escape : Bool

abbrev pub outside : Scan
outside = record {
  parens = pos 0;
  brackets = pos 0;
  braces = pos 0;
  in_string = false;
  in_raw = false;
  escape = false;
}

abbrev pub up : ℤ → ℤ
up (pos n) = pos (suc n)
up (negsuc zero) = pos 0
up (negsuc (suc n)) = negsuc n

abbrev pub down : ℤ → ℤ
down (pos zero) = negsuc 0
down (pos (suc n)) = pos n
down (negsuc n) = negsuc (suc n)

abbrev pub is_zero : ℤ → Bool
is_zero (pos zero) = true
is_zero (pos (suc n)) = false
is_zero (negsuc n) = false

abbrev pub is_balanced : Scan → Bool
is_balanced s = is_zero s.parens && (is_zero s.brackets && is_zero s.braces)

-- The innermost `switch`, outside strings and expressions, at a rune that is not a bar.
abbrev pub step_plain : Scan → ℕ → Scan
step_plain s r =
    if r == b'"'
    then record s { in_string = true }
    else if r == b'`'
    then record s { in_raw = true }
    else if r == b'('
    then record s { parens = up s.parens }
    else if r == b')'
    then record s { parens = down s.parens }
    else if r == b'['
    then record s { brackets = up s.brackets }
    else if r == b']'
    then record s { brackets = down s.brackets }
    else if r == b'{'
    then record s { braces = up s.braces }
    else if r == b'}'
    then record s { braces = down s.braces }
    else s

-- The body of the loop, at a rune that is written to the segment.
unfoldable pub step : Scan → ℕ → Scan
step s r =
    if s.escape
    then record s { escape = false }
    else if s.in_string
    then (if r == b'\\'
        then record s { escape = true }
        else if r == b'"'
        then record s { in_string = false }
        else s)
    else if s.in_raw
    then (if r == b'`' then record s { in_raw = false } else s)
    else step_plain s r

-- Whether a rune ends the segment.
unfoldable pub is_cut : Scan → ℕ → Bool
is_cut s r = not s.escape && (not s.in_string && (not s.in_raw && (r == b'|' && is_balanced s)))

-- The checks behind the loop.
unfoldable pub check_end : Scan → List (List Char) → Outcome TextError (List (List Char))
check_end s out =
    if s.in_string
    then err unterminated_string
    else if s.in_raw
    then err unterminated_expression
    else if not (is_balanced s)
    then err unbalanced
    else ok out

-- The loop, from the segments so far and the one that is being written.
unfoldable pub split_loop :
    Scan → List (List Char) → List Char → List Char → Outcome TextError (List (List Char))
unfolding step is_cut check_end
split_loop s out b [] = check_end s (out ++ b ∷ [])
split_loop s out b (r ∷ rs) =
    let cut = is_cut s (code r) in
    split_loop (if cut then s else step s (code r)) (if cut then out ++ b ∷ [] else out)
      (if cut then [] else b ++ r ∷ []) rs

unfoldable pub split_top_level : List Char → Outcome TextError (List (List Char))
unfolding split_loop
split_top_level text = split_loop outside [] [] text
