-- ===== src/Pipe/Text/Stages.antt =====
-- The parsers of the stages in pipe/textual.go, but for those that reshape rows.
use dql.Prelude.{
  String, true, not, ◌&&◌, ◌||◌, List, [], ◌∷◌, ◌++◌, Option, none, some, is_nil, if◌then◌else◌,
  Outcome, ok, err, ◌>>=◌,
}
use dql.Go.Runtime.{Runtime}
use dql.Go.Value.{Value, bool, str, num, int, sprint}
use dql.Go.Row.{put}
use dql.Go.Numbers.{atoi}
use dql.Pipe.Text.Token.{Token, word, value}
use dql.Pipe.Text.Config.{
  Setting, single, texts, object, objects, payload, Config, StageError, wrong, wrong_at, is_ident,
  is_string, is_number, is_raw_kind, is_json, is_word, split_on_comma, first_values, is_keyword,
  token_value,
}

module _ (go : Runtime) (J : Type 0) (parse_float : String → Option go.Float)
    (decode_object : String → Option J) where
  open go use {Float, to_lower, to_upper}

  -- `(map[string]any, error)`.
  abbrev pub Parsed : Type 0
  Parsed = Outcome StageError (Config Float J)

  abbrev pub setting : String → Setting Float J → Config Float J
  setting k s = (k, s) ∷ []

  unfoldable pub parse_where : List Token → Parsed
  unfolding value token_value
  parse_where [] = err (wrong "where: predicate required")
  parse_where (t ∷ ts) =
      if is_raw_kind t.kind
      then ok (setting "where" (object (("expr", str (value t)) ∷ [])))
      else elim ts [
        | [] ↦ err (wrong "where: expected `field op value`")
        | o ∷ us ↦ elim us [
          | [] ↦ err (wrong "where: expected `field op value`")
          | v ∷ vs ↦ token_value go parse_float v >>= λ x. ok (
              setting "where"
                (object (("field", str (value t)) ∷ ("op", str (word o)) ∷ ("value", x) ∷ [])))
        ]
      ]

  abbrev pub select_as : Token → List Token → List (String × Value Float)
  select_as f (a ∷ n ∷ []) =
      if is_keyword go a "as"
      then ("field", str (value f)) ∷ ("as", str (value n)) ∷ []
      else ("field", str (value f)) ∷ []
  select_as f _ = ("field", str (value f)) ∷ []

  unfoldable pub select_parts : List (List Token) → List (List (String × Value Float))
  unfolding value
  select_parts [] = []
  select_parts ([] ∷ ps) = select_parts ps
  select_parts ((f ∷ ts) ∷ ps) = select_as f ts ∷ select_parts ps

  unfoldable pub parse_select : List Token → Parsed
  unfolding split_on_comma select_parts
  parse_select toks =
      let parts = split_on_comma toks in
      if is_nil parts
      then err (wrong "select: at least one field required")
      else ok (setting "select" (objects (select_parts parts)))

  unfoldable pub parse_compute : List Token → Parsed
  unfolding value token_value sprint
  parse_compute (n ∷ e ∷ b ∷ rest) =
      if not (is_word e "=")
      then err (wrong "compute: expected `name = expr`")
      else if is_nil rest && is_raw_kind b.kind
      then ok (("as", single (str (value n))) ∷ ("expr", single (str (value b))) ∷ [])
      else if is_nil rest && (is_string b.kind || is_number b.kind)
      then (token_value go parse_float b >>= λ v.
          ok (("as", single (str (value n))) ∷ ("expr", single (str (sprint go v))) ∷ []))
      else err (wrong "compute: expression must be a backtick-quoted DTL expression")
  parse_compute _ = err (wrong "compute: expected `name = expr`")

  abbrev pub direction : List Token → String
  direction [] = "asc"
  direction (d ∷ ts) = if is_keyword go d "desc" then "desc" else "asc"

  unfoldable pub sort_parts : List (List Token) → List (List (String × Value Float))
  unfolding value
  sort_parts [] = []
  sort_parts ([] ∷ ps) = sort_parts ps
  sort_parts ((f ∷ ts) ∷ ps) =
      (("field", str (value f)) ∷ ("dir", str (direction ts)) ∷ []) ∷ sort_parts ps

  unfoldable pub parse_sort : List Token → Parsed
  unfolding split_on_comma sort_parts
  parse_sort toks =
      let by = sort_parts (split_on_comma toks) in
      if is_nil by
      then err (wrong "sort: at least one key required")
      else ok (setting "by" (objects by))

  -- `parseLimit` and `parseSkip`, which ignore the error of `Atoi`.
  unfoldable pub parse_count : String → List Token → Parsed
  unfolding atoi
  parse_count message (t ∷ []) =
      if is_number t.kind
      then ok (setting "n" (single (num int (atoi t.text).0)))
      else err (wrong message)
  parse_count message _ = err (wrong message)

  unfoldable pub parse_limit : List Token → Parsed
  unfolding parse_count
  parse_limit toks = parse_count "limit: expected an integer" toks

  unfoldable pub parse_skip : List Token → Parsed
  unfolding parse_count
  parse_skip toks = parse_count "skip: expected an integer" toks

  unfoldable pub parse_group_by : List Token → Parsed
  unfolding split_on_comma first_values
  parse_group_by toks =
      let keys = first_values (split_on_comma toks) in
      if is_nil keys
      then err (wrong "groupBy: at least one key required")
      else ok (setting "keys" (texts keys))

  abbrev pub aggregate_field : Token → Outcome StageError String
  aggregate_field t =
      if is_ident t.kind || is_string t.kind
      then ok (value t)
      else if is_word t "*"
      then ok "*"
      else err (wrong_at "aggregate: unexpected field token" (word t))

  -- The `as alias` behind `fn(field)`.
  abbrev pub aggregate_alias : List Token → Outcome StageError String
  aggregate_alias (a ∷ n ∷ ts) =
      if is_keyword go a "as" then ok (value n) else err (wrong "aggregate: missing `as alias`")
  aggregate_alias _ = err (wrong "aggregate: missing `as alias`")

  unfoldable pub aggregate_part : List Token → Outcome StageError (List (String × Value Float))
  unfolding value
  aggregate_part (f ∷ l ∷ x ∷ r ∷ ts) =
      if not (is_word l "(") || not (is_word r ")")
      then err (wrong "aggregate: expected parentheses around field")
      else aggregate_field x >>= λ name. aggregate_alias ts >>= λ alias.
          ok (("fn", str (to_upper (word f))) ∷ ("field", str name) ∷ ("as", str alias) ∷ [])
  aggregate_part _ = err (wrong "aggregate: expected `fn(field) as alias`")

  unfoldable pub aggregate_parts :
      List (List Token) → Outcome StageError (List (List (String × Value Float)))
  unfolding aggregate_part
  aggregate_parts [] = ok []
  aggregate_parts (p ∷ ps) = aggregate_part p >>= λ a. aggregate_parts ps >>= λ rest. ok (a ∷ rest)

  unfoldable pub parse_aggregate : List Token → Parsed
  unfolding split_on_comma aggregate_parts
  parse_aggregate toks = aggregate_parts (split_on_comma toks) >>= λ aggs.
      if is_nil aggs
      then err (wrong "aggregate: at least one aggregation required")
      else ok (setting "aggs" (objects aggs))

  unfoldable pub parse_distinct : List Token → Parsed
  unfolding split_on_comma first_values
  parse_distinct [] = ok []
  parse_distinct (b ∷ toks) =
      if is_keyword go b "by"
      then ok (setting "by" (texts (first_values (split_on_comma toks))))
      else err (wrong "distinct: expected `by <fields>`")

  abbrev pub flatten_as : List Token → Config Float J
  flatten_as (a ∷ n ∷ ts) =
      if is_keyword go a "as" then setting "as" (single (str (value n))) else []
  flatten_as _ = []

  unfoldable pub parse_flatten : List Token → Parsed
  unfolding value
  parse_flatten [] = err (wrong "flatten: field required")
  parse_flatten (f ∷ ts) = ok (("field", single (str (value f))) ∷ flatten_as ts)

  unfoldable pub rename_parts :
      List (List Token)
      → List (String × Value Float)
      → Outcome StageError (List (String × Value Float))
  unfolding value put
  rename_parts [] m = ok m
  rename_parts ((a ∷ r ∷ b ∷ ts) ∷ ps) m =
      let rest = rename_parts ps (put m (value a) (str (value b))) in
      if is_word r "->" then rest else err (wrong "rename: expected `from -> to`")
  rename_parts (_ ∷ ps) m = err (wrong "rename: expected `from -> to`")

  unfoldable pub parse_rename : List Token → Parsed
  unfolding split_on_comma rename_parts
  parse_rename toks = rename_parts (split_on_comma toks) [] >>= λ m.
      if is_nil m
      then err (wrong "rename: at least one mapping required")
      else ok (setting "map" (object m))

  unfoldable pub parse_drop : List Token → Parsed
  unfolding split_on_comma first_values
  parse_drop toks =
      let cols = first_values (split_on_comma toks) in
      if is_nil cols
      then err (wrong "drop: at least one column required")
      else ok (setting "columns" (texts cols))

  unfoldable pub parse_tap : List Token → Parsed
  unfolding value
  parse_tap [] = ok []
  parse_tap (t ∷ ts) = ok (setting "label" (single (str (value t))))

  -- `json.Unmarshal` into a `map[string]any` is a parameter.
  abbrev pub decoded : String → Token → Outcome StageError J
  decoded message t = elim (decode_object (word t)) [ none ↦ err (wrong message) | some m ↦ ok m ]

  pub data CallOption : Type 0 where
    mode_option pure_option args_option as_option no_option : CallOption

  abbrev pub call_option : Token → CallOption
  call_option t =
      if is_keyword go t "mode"
      then mode_option
      else if is_keyword go t "pure"
      then pure_option
      else if is_keyword go t "args"
      then args_option
      else if is_keyword go t "as"
      then as_option
      else no_option

  -- The loop of `parseCallFunction` over the tokens behind the name.
  unfoldable pub call_loop : Config Float J → List Token → Parsed
  unfolding put value
  call_loop cfg [] = ok cfg
  call_loop cfg (t ∷ []) = elim (call_option t) [
    | mode_option ↦ err (wrong "callFunction: mode value missing")
    | pure_option ↦ ok (put cfg "pure" (single (bool true)))
    | args_option ↦ err (wrong "callFunction: args expects a JSON object")
    | as_option ↦ err (wrong "callFunction: as value missing")
    | no_option ↦ err (wrong_at "callFunction: unexpected token" (word t))
  ]
  call_loop cfg (t ∷ v ∷ ts) = elim (call_option t) [
    | mode_option ↦ call_loop (put cfg "mode" (single (str (word v)))) ts
    | pure_option ↦ call_loop (put cfg "pure" (single (bool true))) (v ∷ ts)
    | args_option ↦
        if not (is_json v.kind)
        then err (wrong "callFunction: args expects a JSON object")
        else decoded "callFunction: invalid args JSON" v >>= λ m.
            call_loop (put cfg "args" (payload m)) ts
    | as_option ↦ call_loop (put cfg "as" (single (str (value v)))) ts
    | no_option ↦ err (wrong_at "callFunction: unexpected token" (word t))
  ]

  unfoldable pub parse_call_function : List Token → Parsed
  unfolding call_loop value
  parse_call_function [] = err (wrong "callFunction: name required")
  parse_call_function (n ∷ ts) = call_loop (setting "name" (single (str (value n)))) ts

  -- The optional `.method` of `parseCallApp`, and the tokens behind it.
  abbrev pub call_method : Config Float J → List Token → Config Float J × List Token
  call_method cfg (d ∷ m ∷ ts) =
      if is_word d "."
      then (cfg ++ setting "method" (single (str (value m))), ts)
      else (cfg, d ∷ m ∷ ts)
  call_method cfg ts = (cfg, ts)

  -- The optional payload.
  abbrev pub call_payload :
      Config Float J × List Token → Outcome StageError (Config Float J × List Token)
  call_payload (cfg, []) = ok (cfg, [])
  call_payload (cfg, t ∷ ts) =
      if is_json t.kind
      then (decoded "callApp: invalid payload JSON" t >>= λ m.
          ok (cfg ++ setting "payload" (payload m), ts))
      else ok (cfg, t ∷ ts)

  abbrev pub call_as : Config Float J × List Token → Parsed
  call_as (cfg, []) = ok cfg
  call_as (cfg, a ∷ []) =
      if is_keyword go a "as" then err (wrong "callApp: as value missing") else ok cfg
  call_as (cfg, a ∷ n ∷ ts) =
      if is_keyword go a "as" then ok (cfg ++ setting "as" (single (str (value n)))) else ok cfg

  unfoldable pub parse_call_app : List Token → Parsed
  unfolding value
  parse_call_app [] = err (wrong "callApp: appId required")
  parse_call_app (n ∷ ts) =
      call_payload (call_method (setting "appId" (single (str (value n)))) ts) >>= λ r. call_as r
