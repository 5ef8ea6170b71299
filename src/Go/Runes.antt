-- ===== src/Go/Runes.antt =====
-- Texts as runes, for code that walks them: what the program uses of Go's `unicode` and `strings`.
use Prim.Native.Char.{Char}
use dql.Prelude.{String, Bool, List, [], ◌∷◌, if◌then◌else◌}

-- Unicode's classes of characters.
pub record Unicode : Type 0 where
  pub is_space : Char → Bool
  pub is_letter : Char → Bool
  pub is_digit : Char → Bool

-- `[]rune(s)` and `string(rs)`.
abbrev pub runes : String → List Char
runes String.[] = []
runes (String.◌∷◌ c s) = c ∷ runes s

abbrev pub text_of : List Char → String
text_of [] = ""
text_of (c ∷ cs) = String.◌∷◌ c (text_of cs)

-- The longest prefix whose runes pass the test, and the rest.
unfoldable pub take_while : (Char → Bool) → List Char → List Char × List Char
take_while p [] = ([], [])
take_while p (c ∷ cs) = let (t, r) = take_while p cs in if p c then (c ∷ t, r) else ([], c ∷ cs)

unfoldable pub trim_left : (Char → Bool) → List Char → List Char
trim_left p [] = []
trim_left p (c ∷ cs) = let rest = trim_left p cs in if p c then rest else c ∷ cs

abbrev drop_blank : (Char → Bool) → Char → List Char → List Char
drop_blank p c [] = if p c then [] else c ∷ []
drop_blank p c (d ∷ ds) = c ∷ d ∷ ds

unfoldable pub trim_right : (Char → Bool) → List Char → List Char
trim_right p [] = []
trim_right p (c ∷ cs) = drop_blank p c (trim_right p cs)

-- `strings.TrimFunc`.
unfoldable pub trim : (Char → Bool) → List Char → List Char
unfolding trim_left trim_right
trim p s = trim_right p (trim_left p s)
