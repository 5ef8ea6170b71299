-- ===== src/Pipe/Text/Token.antt =====
-- `tokenize` of pipe/textual.go.
pub mod Spelled
use Prim.Native.Char.{Char, code}
use dql.Prelude.{
  ℕ, zero, suc, String, Bool, true, false, not, ◌&&◌, ◌||◌, List, [], ◌∷◌, ◌++◌, Option, none, some,
  length, ◌==◌, if◌then◌else◌,
}
use dql.Go.Runes.{Unicode, take_while, text_of, trim}

pub data TokenKind : Type 0 where
  ident_token string_token number_token raw_token json_token op_token punct_token : TokenKind

pub record Token : Type 0 where
  pub kind : TokenKind
  pub text : List Char

-- The text of a token as the string that it is in the program.
abbrev pub word : Token → String
word t = text_of t.text

abbrev pub is_char : ℕ → Char → Bool
is_char n c = code c == n

-- `token.value`.
unfoldable pub value : Token → String
unfolding trim
value t = elim t.kind [
  | string_token ↦ text_of (trim (is_char b'"') t.text)
  | raw_token ↦ text_of (trim (is_char b'`') t.text)
  | ident_token ↦ text_of t.text
  | number_token ↦ text_of t.text
  | json_token ↦ text_of t.text
  | op_token ↦ text_of t.text
  | punct_token ↦ text_of t.text
]

-- The inner loops: what one of them takes, and the rest. In a string a backslash takes the next
-- rune along; the flag says that there was one.
unfoldable pub take_string : Bool → List Char → List Char × List Char
take_string escaped [] = ([], [])
take_string escaped (c ∷ cs) =
    let (t, r) = take_string (not escaped && is_char b'\\' c) cs in
    if not escaped && is_char b'"' c then (c ∷ [], cs) else (c ∷ t, r)

unfoldable pub take_raw : List Char → List Char × List Char
take_raw [] = ([], [])
take_raw (c ∷ cs) = let (t, r) = take_raw cs in if is_char b'`' c then (c ∷ [], cs) else (c ∷ t, r)

abbrev pub json_depth : ℕ → Char → ℕ
json_depth d c = if is_char b'{' c then suc (suc d) else if is_char b'}' c then d else suc d

-- From inside as many braces as the first argument says.
unfoldable pub take_json : ℕ → List Char → List Char × List Char
take_json zero cs = ([], cs)
take_json (suc d) [] = ([], [])
take_json (suc d) (c ∷ cs) = let (t, r) = take_json (json_depth d c) cs in (c ∷ t, r)

-- The token that a `case` makes of what its loop took, and the runes behind it.
abbrev pub made : TokenKind → Char → List Char × List Char → Option Token × List Char
made k c (t, r) = (some (record { kind = k; text = c ∷ t }), r)

abbrev pub alone : TokenKind → Char → List Char → Option Token × List Char
alone k c cs = made k c ([], cs)

-- A token of two runes, if the second is the one that is asked for.
abbrev pub pair_or : TokenKind → TokenKind → ℕ → Char → List Char → Option Token × List Char
pair_or two one n c [] = alone one c []
pair_or two one n c (d ∷ ds) = if is_char n d then made two c (d ∷ [], ds) else alone one c (d ∷ ds)

abbrev pub starts : (Char → Bool) → List Char → Bool
starts p [] = false
starts p (c ∷ cs) = p c

abbrev pub is_comparison : Char → Bool
is_comparison c = is_char b'=' c || (is_char b'!' c || (is_char b'<' c || is_char b'>' c))

module _ (u : Unicode) where
  open u use {is_space, is_letter, is_digit}

  abbrev pub in_number : Char → Bool
  in_number c = is_digit c || is_char b'.' c

  abbrev pub in_ident : Char → Bool
  in_ident c = is_letter c || (is_digit c || (is_char b'_' c || (is_char b':' c || is_char b'.' c)))

  -- One round of the loop, at `c` with `cs` behind it: the token, if it makes one, and the rest.
  unfoldable pub next_token : Char → List Char → Option Token × List Char
  unfolding take_while take_string take_raw take_json
  next_token c cs =
      if is_space c
      then (none, cs)
      else if is_char b'"' c
      then made string_token c (take_string false cs)
      else if is_char b'`' c
      then made raw_token c (take_raw cs)
      else if is_char b'{' c
      then made json_token c (take_json 1 cs)
      else if is_digit c || (is_char b'-' c && starts is_digit cs)
      then made number_token c (take_while in_number cs)
      else if is_letter c || is_char b'_' c
      then made ident_token c (take_while in_ident cs)
      else if is_comparison c
      then pair_or op_token op_token b'=' c cs
      else if is_char b'-' c
      then pair_or punct_token op_token b'>' c cs
      else alone punct_token c cs

  abbrev pub add_token : Option Token → List Token → List Token
  add_token none ts = ts
  add_token (some t) ts = t ∷ ts

  -- The loop, of at most so many rounds.
  unfoldable pub tokenize_in : ℕ → List Char → List Token
  unfolding next_token
  tokenize_in n [] = []
  tokenize_in zero (c ∷ cs) = []
  tokenize_in (suc n) (c ∷ cs) = let (t, rest) = next_token c cs in add_token t (tokenize_in n rest)

  -- A round takes at least one rune, so there are at most as many rounds as runes.
  unfoldable pub tokenize : List Char → List Token
  unfolding tokenize_in
  tokenize s = tokenize_in (length s) s
