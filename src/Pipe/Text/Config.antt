-- ===== src/Pipe/Text/Config.antt =====
-- The configurations that the parsers of pipe/textual.go build (`map[string]any`), and what the
-- parsers share.
use dql.Prelude.{
  ℕ, zero, suc, String, Bool, true, false, ◌&&◌, List, [], ◌∷◌, ◌++◌, Option, none, some, is_nil,
  any, str_eq, if◌then◌else◌, Outcome, ok, err, ◌-◌,
}
use dql.Go.Runtime.{Runtime}
use dql.Go.Value.{Value, nil, bool, str, num, int, float64}
use dql.Go.Numbers.{atoi}
use dql.Pipe.Text.Token.{
  Token, TokenKind, ident_token, string_token, number_token, raw_token, json_token, op_token,
  punct_token, word, value, is_char,
}

-- The value of a key: a single value, a list of names, one or several objects, or a decoded
-- JSON object of the type `J`.
pub data Setting (F J : Type 0) : Type 0 where
  single : Value F → Setting F J
  texts : List String → Setting F J
  object : List (String × Value F) → Setting F J
  objects : List (List (String × Value F)) → Setting F J
  payload : J → Setting F J

abbrev pub Config : Type 0 → Type 0 → Type 0
Config F J = List (String × Setting F J)

-- The message of an error, and the token that it quotes.
pub data StageError : Type 0 where
  wrong : String → StageError
  wrong_at : String → String → StageError

abbrev pub is_ident : TokenKind → Bool
is_ident ident_token = true
is_ident _ = false

abbrev pub is_string : TokenKind → Bool
is_string string_token = true
is_string _ = false

abbrev pub is_number : TokenKind → Bool
is_number number_token = true
is_number _ = false

abbrev pub is_raw_kind : TokenKind → Bool
is_raw_kind raw_token = true
is_raw_kind _ = false

abbrev pub is_json : TokenKind → Bool
is_json json_token = true
is_json _ = false

abbrev pub is_punct : TokenKind → Bool
is_punct punct_token = true
is_punct _ = false

abbrev pub is_word : Token → String → Bool
is_word t s = str_eq (word t) s

-- The loop of `splitOnComma`, from the part so far.
unfoldable pub comma_loop : List Token → List Token → List (List Token)
comma_loop cur [] = if is_nil cur then [] else cur ∷ []
comma_loop cur (t ∷ ts) =
    let comma = is_punct t.kind && is_word t "," in
    let rest = comma_loop (if comma then [] else cur ++ t ∷ []) ts in
    if comma then cur ∷ rest else rest

unfoldable pub split_on_comma : List Token → List (List Token)
unfolding comma_loop
split_on_comma toks = comma_loop [] toks

-- The values of the first tokens of the parts that are not empty.
unfoldable pub first_values : List (List Token) → List String
unfolding value
first_values [] = []
first_values ([] ∷ ps) = first_values ps
first_values ((t ∷ ts) ∷ ps) = value t ∷ first_values ps

module _ (go : Runtime) where
  open go use {Float, to_lower}

  -- `strings.ToLower(t.text)` compared with a keyword.
  abbrev pub is_keyword : Token → String → Bool
  is_keyword t kw = str_eq (to_lower (word t)) kw

  abbrev pub first_is : List Token → String → Bool
  first_is [] kw = false
  first_is (t ∷ ts) kw = is_keyword t kw

  -- `tokenValue`, with `strconv.ParseFloat` as a parameter.
  abbrev pub number_value : (String → Option Float) → Token → Outcome StageError (Value Float)
  number_value parse_float t =
      if any (is_char b'.') t.text
      then elim (parse_float (word t)) [
        | none ↦ err (wrong_at "strconv.ParseFloat: parsing" (word t))
        | some f ↦ ok (float64 f)
      ]
      else if (atoi t.text).1
      then ok (num int (atoi t.text).0)
      else err (wrong_at "strconv.Atoi: parsing" (word t))

  unfoldable pub token_value : (String → Option Float) → Token → Outcome StageError (Value Float)
  unfolding value atoi
  token_value parse_float t = elim t.kind [
    | string_token ↦ ok (str (value t))
    | number_token ↦ number_value parse_float t
    | ident_token ↦ ok (
        if is_keyword t "true"
        then bool true
        else if is_keyword t "false"
        then bool false
        else if is_keyword t "null"
        then nil
        else str (word t))
    | raw_token ↦ ok (str (word t))
    | json_token ↦ ok (str (word t))
    | op_token ↦ ok (str (word t))
    | punct_token ↦ ok (str (word t))
  ]

  -- `indexOfKeyword`, from the position `i` and the depth; none is -1.
  unfoldable pub keyword_from : ℕ → ℕ → String → List Token → Option ℕ
  keyword_from i depth kw [] = none
  keyword_from i depth kw (t ∷ ts) =
      let opened =
        if is_word t "(" then suc depth else if is_word t ")" then depth - 1 else depth in
      let rest = keyword_from (suc i) (if is_punct t.kind then opened else depth) kw ts in
      if is_punct t.kind
      then rest
      else elim depth [ zero ↦ if is_keyword t kw then some i else rest | suc d ↦ rest ]

  unfoldable pub index_of_keyword : List Token → String → Option ℕ
  unfolding keyword_from
  index_of_keyword toks kw = keyword_from 0 0 kw toks
