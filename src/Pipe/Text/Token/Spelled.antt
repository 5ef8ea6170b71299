-- ===== src/Pipe/Text/Token/Spelled.antt =====
-- What the tokens of a text (pipe/textual.go) spell.
use Prim.Native.Char.{Char}
use dql.Prelude.{
  ℕ, zero, suc, ◌≤◌, Bool, true, false, not, ◌&&◌, ◌≡◌, refl, sym, ap, subst, List, [], ◌∷◌, ◌++◌,
  length, length-append, Option, none, some, arith, Bool-cases, inl, inr, if◌then◌else◌,
}
use dql.Go.Runes.{Unicode, take_while}
use dql.Pipe.Text.Token.{
  TokenKind, string_token, raw_token, json_token, number_token, ident_token, op_token, punct_token,
  in_number, in_ident, Token, made, pair_or, is_char, take_string, take_raw, take_json, json_depth,
  next_token, add_token, tokenize_in, tokenize,
}

-- A text spells tokens if it is their texts one behind the other, with white space anywhere
-- between them.
pub data Spells (u : Unicode) : List Char → List Token → Type 0 where
  ends : Spells u [] []
  space :
      (c : Char) (s : List Char) (ts : List Token)
      → u.is_space c ≡ true
      → Spells u s ts
      → Spells u (c ∷ s) ts
  token :
      (t : Token) (s : List Char) (ts : List Token)
      → Spells u s ts
      → Spells u (t.text ++ s) (t ∷ ts)

take_while-append :
    (p : Char → Bool) (cs : List Char) → (take_while p cs).0 ++ (take_while p cs).1 ≡ cs
unfolding take_while
take_while-append p [] = refl
take_while-append p (c ∷ cs) = elim (Bool-cases (p c)) [
  | inl e ↦ rw e (ap (◌∷◌ c) (take_while-append p cs))
  | inr e ↦ rw e refl
]

take_string-append :
    (escaped : Bool) (cs : List Char)
    → (take_string escaped cs).0 ++ (take_string escaped cs).1 ≡ cs
unfolding take_string
take_string-append escaped [] = refl
take_string-append escaped (c ∷ cs) = elim (Bool-cases (not escaped && is_char b'"' c)) [
  | inl e ↦ rw e refl
  | inr e ↦ rw e (ap (◌∷◌ c) (take_string-append (not escaped && is_char b'\\' c) cs))
]

take_raw-append : (cs : List Char) → (take_raw cs).0 ++ (take_raw cs).1 ≡ cs
unfolding take_raw
take_raw-append [] = refl
take_raw-append (c ∷ cs) = elim (Bool-cases (is_char b'`' c)) [
  | inl e ↦ rw e refl
  | inr e ↦ rw e (ap (◌∷◌ c) (take_raw-append cs))
]

take_json-append : (d : ℕ) (cs : List Char) → (take_json d cs).0 ++ (take_json d cs).1 ≡ cs
unfolding take_json
take_json-append zero cs = refl
take_json-append (suc d) [] = refl
take_json-append (suc d) (c ∷ cs) = ap (◌∷◌ c) (take_json-append (json_depth d c) cs)

-- What a round takes: white space, or a token's text.
Takes : Unicode → Char → List Char → Option Token × List Char → Type 0
Takes u c cs (none, rest) = (u.is_space c ≡ true) × (rest ≡ cs)
Takes u c cs (some t, rest) = (t.text ++ rest ≡ c ∷ cs) × (length rest ≤ length cs)

module _ (u : Unicode) where
  made-Takes :
      (k : TokenKind) (c : Char) (cs : List Char) (tr : List Char × List Char)
      → tr.0 ++ tr.1 ≡ cs
      → Takes u c cs (made k c tr)
  unfolding Takes
  made-Takes k c cs tr h =
      let size = length-append tr.0 tr.1 in let same = ap length h in (ap (◌∷◌ c) h, omega arith)

  pair_or-Takes :
      (two one : TokenKind) (n : ℕ) (c : Char) (cs : List Char)
      → Takes u c cs (pair_or two one n c cs)
  unfolding Takes
  pair_or-Takes two one n c [] = (refl, omega arith)
  pair_or-Takes two one n c (d ∷ ds) = elim (Bool-cases (is_char n d)) [
    | inl e ↦ rw e (refl, omega arith)
    | inr e ↦ rw e (refl, omega arith)
  ]

  if-Takes :
      (b : Bool) (c : Char) (cs : List Char) (x y : Option Token × List Char)
      → (b ≡ true → Takes u c cs x)
      → Takes u c cs y
      → Takes u c cs (if b then x else y)
  unfolding Takes
  if-Takes true c cs x y h k = h refl
  if-Takes false c cs x y h k = k

  blank-Takes : (c : Char) (cs : List Char) → u.is_space c ≡ true → Takes u c cs (none, cs)
  unfolding Takes
  blank-Takes c cs e = (e, refl)

  next_token-Takes : (c : Char) (cs : List Char) → Takes u c cs (next_token u c cs)
  unfolding next_token
  next_token-Takes c cs =
      if-Takes _ c cs _ _ (λ e. blank-Takes c cs e)
        (if-Takes _ c cs _ _
          (λ e. made-Takes string_token c cs (take_string false cs) (take_string-append false cs))
          (if-Takes _ c cs _ _ (λ e. made-Takes raw_token c cs (take_raw cs) (take_raw-append cs))
            (if-Takes _ c cs _ _
              (λ e. made-Takes json_token c cs (take_json 1 cs) (take_json-append 1 cs))
              (if-Takes _ c cs _ _
                (λ e.
                  made-Takes number_token c cs (take_while (in_number u) cs)
                    (take_while-append _ cs))
                (if-Takes _ c cs _ _
                  (λ e.
                    made-Takes ident_token c cs (take_while (in_ident u) cs)
                      (take_while-append _ cs))
                  (if-Takes _ c cs _ _ (λ e. pair_or-Takes op_token op_token b'=' c cs)
                    (if-Takes _ c cs _ _ (λ e. pair_or-Takes punct_token op_token b'>' c cs)
                      (made-Takes punct_token c cs ([], cs) refl))))))))

  add-Spells :
      (c : Char) (cs : List Char) (made : Option Token × List Char) (ts : List Token)
      → Takes u c cs made
      → Spells u made.1 ts
      → Spells u (c ∷ cs) (add_token u made.0 ts)
  unfolding Takes
  add-Spells c cs (none, rest) ts (blank, same) h =
      space c cs ts blank (subst (λ s. Spells u s ts) same h)
  add-Spells c cs (some t, rest) ts (same, size) h =
      subst (λ s. Spells u s (t ∷ ts)) same (token t rest ts h)

  rest-bound :
      (c : Char) (cs : List Char) (made : Option Token × List Char)
      → Takes u c cs made
      → length made.1 ≤ length cs
  unfolding Takes
  rest-bound c cs (none, rest) (blank, same) =
      subst (λ s. length s ≤ length cs) (sym same) (omega arith)
  rest-bound c cs (some t, rest) (same, size) = size

  tokenize_in-Spells : (n : ℕ) (s : List Char) → length s ≤ n → Spells u s (tokenize_in u n s)
  unfolding tokenize_in
  tokenize_in-Spells zero [] h = ends
  tokenize_in-Spells (suc n) [] h = ends
  tokenize_in-Spells zero (c ∷ cs) h = absurd (omega arith)
  tokenize_in-Spells (suc n) (c ∷ cs) h =
      let takes = next_token-Takes c cs in
      let size = rest-bound c cs (next_token u c cs) takes in
      add-Spells c cs (next_token u c cs) (tokenize_in u n (next_token u c cs).1) takes
        (tokenize_in-Spells n (next_token u c cs).1 (omega arith))

  -- The tokens of a text spell all of it, whatever it is: the loop is not cut off, and nothing but
  -- white space between tokens is lost, changed or moved.
  pub tokenize-Spells : (s : List Char) → Spells u s (tokenize u s)
  unfolding tokenize
  tokenize-Spells s = tokenize_in-Spells (length s) s (omega arith)
