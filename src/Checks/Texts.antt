-- ===== src/Checks/Texts.antt =====
-- The theorems on the textual form of a pipe, with ASCII in place of Unicode.
use Prim.Native.Char.{Char, code}
use dql.Prelude.{
  ℕ, String, Bool, true, ◌&&◌, ◌||◌, ◌≡◌, refl, List, [], ◌∷◌, All, Option, none, ok, leb, ◌==◌,
}
use dql.Prelude.Int.{pos}
use dql.Go.Runes.{Unicode, runes}
use dql.Go.Value.{num, int, str}
use dql.Pipe.Text.Split.{split_top_level}
use dql.Pipe.Text.Split.RoundTrip.{join_bars, is_closed, split_top_level-join, join_bars-split}
use dql.Pipe.Text.Token.{tokenize}
use dql.Pipe.Text.Token.Spelled.{Spells, tokenize-Spells}
use dql.Pipe.Text.Config.{single, object, objects}
use dql.Pipe.Text.Parse.{PipeText, parse_text, parse_text_lenient, parse_stage, parse_head}
use dql.Pipe.Text.Parse.Lenient.{accepted, unblemished, parse_text_agrees}
use dql.Checks.{toy}

abbrev within : ℕ → ℕ → Char → Bool
within lo hi c = leb lo (code c) && leb (code c) hi

abbrev ascii : Unicode
ascii = record {
  is_space = λ c. code c == 32;
  is_letter = λ c. within b'a' b'z' c || within b'A' b'Z' c;
  is_digit = within b'0' b'9';
}

abbrev no_float : String → Option ℕ
no_float s = none

abbrev no_object : String → Option ℕ
no_object s = none

abbrev youngest : List Char
youngest = runes "source people | sort age | where name == \"a|b\""

abbrev youngest_parts : List (List Char)
youngest_parts = runes "source people " ∷ runes " sort age " ∷ runes " where name == \"a|b\"" ∷ []

abbrev youngest_query : PipeText ℕ ℕ
youngest_query = record {
  dataset = "people";
  pipe =
      (record {
        op = "sort";
        id = "";
        from = "";
        config =
            ("by", objects ((("field", str "age") ∷ ("dir", str "asc") ∷ []) ∷ []))
            ∷ ("op", single (str "sort"))
            ∷ [];
      })
      ∷ (record {
        op = "filter";
        id = "";
        from = "";
        config =
            ("where", object (("field", str "name") ∷ ("op", str "==") ∷ ("value", str "a|b") ∷ []))
            ∷ ("op", single (str "filter"))
            ∷ [];
      })
      ∷ [];
}

youngest_splits : split_top_level youngest ≡ ok youngest_parts
unfolding split_top_level
youngest_splits = refl

youngest_parses : parse_text toy ascii ℕ no_float no_object youngest ≡ ok youngest_query
unfolding parse_text parse_head parse_stage
youngest_parses = refl

-- A limit that is no integer is read as 0.
half_limit :
    parse_stage toy ascii ℕ no_float no_object (runes "limit 1.5")
    ≡ ok (record {
      op = "limit";
      id = "";
      from = "";
      config = ("n", single (num int (pos 0))) ∷ ("op", single (str "limit")) ∷ [];
    })
unfolding parse_stage
half_limit = refl

split_top_level-join_example :
    (join_bars youngest_parts ≡ youngest) × All (λ seg. is_closed seg ≡ true) youngest_parts
split_top_level-join_example = split_top_level-join youngest youngest_parts youngest_splits

youngest_closed : All (λ seg. is_closed seg ≡ true) youngest_parts
unfolding split_top_level
youngest_closed = (split_top_level-join youngest youngest_parts youngest_splits).1

join_bars-split_example : split_top_level (join_bars youngest_parts) ≡ ok youngest_parts
join_bars-split_example =
    join_bars-split (runes "source people ")
      (runes " sort age " ∷ runes " where name == \"a|b\"" ∷ []) youngest_closed

tokenize-Spells_example : Spells ascii youngest (tokenize ascii youngest)
tokenize-Spells_example = tokenize-Spells ascii youngest

parse_text_agrees_example :
    accepted toy ascii ℕ no_float no_object [] []
      (parse_text toy ascii ℕ no_float no_object youngest)
    ≡ unblemished toy ascii ℕ no_float no_object [] []
        (parse_text_lenient toy ascii ℕ no_float no_object [] [] youngest)
parse_text_agrees_example = parse_text_agrees toy ascii ℕ no_float no_object [] [] youngest
