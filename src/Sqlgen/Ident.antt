-- ===== src/Sqlgen/Ident.antt =====
-- `quoteIdent` of sqlgen/sql_generator.go.
use Prim.Native.Char.{code}
use Prim.Native.String.{◌++◌ as str_append}
use dql.Prelude.{String, List, [], ◌∷◌, map, ◌==◌, if◌then◌else◌}
use dql.Go.Text.{join, replace_char}

abbrev pub push_char : String → List String → List String
push_char c [] = c ∷ []
push_char c (s ∷ ss) = str_append c s ∷ ss

-- The parts of a name between its dots. `quoteIdent` finds them from the right, one by one.
unfoldable pub split_dots : String → List String
split_dots String.[] = "" ∷ []
split_dots (String.◌∷◌ c s) =
    let rest = split_dots s in
    if code c == b'.' then "" ∷ rest else push_char (String.◌∷◌ c "") rest

-- A part in double quotes, with the quotes inside it doubled.
unfoldable pub quote_part : String → String
unfolding replace_char
quote_part name = str_append "\"" (str_append (replace_char b'"' "\"\"" name) "\"")

unfoldable pub quote_ident : String → String
unfolding split_dots quote_part join
quote_ident name = join "." (map quote_part (split_dots name))
