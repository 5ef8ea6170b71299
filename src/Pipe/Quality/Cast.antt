-- ===== src/Pipe/Quality/Cast.antt =====
-- The stage `cast` of pipe/quality.go, and the factories of its stages.
use dql.Prelude.{
  ℕ, suc, String, Bool, true, false, not, ◌&&◌, ◌||◌, List, [], ◌∷◌, Option, none, some, Outcome,
  ok, err, ◌>>=◌, contains, is_nil, str_eq, if◌then◌else◌,
}
use dql.Prelude.Int.{ℤ, pos}
use dql.Go.Runtime.{Runtime}
use dql.Go.Value.{Value, IntKind, int, int64, nil, num, float64, str, bool, is_null, sprint}
use dql.Go.Row.{Row, lookup, put}
use dql.Go.Coerce.{nonzero}
use dql.Go.Runes.{runes}
use dql.Go.Numbers.{atoi}
use dql.Dsl.Query.{OrderByClause}
use dql.Dsl.Tree.{Evaluator}
use dql.Pipe.Operator.{PipeError, bad_config, at_stage, Operator}
use dql.Pipe.Rows.{pure_op}
use dql.Pipe.Quality.{
  FillNullsConfig, drop_nulls_apply, fill_nulls_apply, dedupe_apply, assert_apply,
}

-- What a cast takes from strconv and time: `int64(f)`, `ParseFloat`, and `parseRowTime` with the
-- format of its result.
pub record Conversions (F : Type 0) : Type 0 where
  pub truncate : F → ℤ
  pub parse_float : String → Option F
  pub parse_time : Value F → Option String

pub record CastEntry : Type 0 where
  pub field_name : String
  pub to : String
  pub on_error : String

-- `strconv.ParseBool`.
abbrev pub parse_bool : String → Option Bool
parse_bool s =
    if contains ("1" ∷ "t" ∷ "T" ∷ "true" ∷ "TRUE" ∷ "True" ∷ []) s
    then some true
    else if contains ("0" ∷ "f" ∷ "F" ∷ "false" ∷ "FALSE" ∷ "False" ∷ []) s
    then some false
    else none

-- The kinds that a cast knows.
abbrev pub is_cast_int : IntKind → Bool
is_cast_int int = true
is_cast_int int64 = true
is_cast_int k = false

module _ {F : Type 0} where
  -- `strconv.ParseInt(t, 10, 64)`.
  abbrev pub parse_int : String → Option (Value F)
  parse_int s = let r = atoi (runes s) in if r.1 then some (num int64 r.0) else none

  abbrev pub to_int : Conversions F → Value F → Option (Value F)
  to_int conv (num k n) = if is_cast_int k then some (num k n) else none
  to_int conv (float64 f) = some (num int64 (conv.truncate f))
  to_int conv (str s) = parse_int s
  to_int conv (bool b) = some (num int64 (pos (if b then 1 else 0)))
  to_int conv v = none

  abbrev pub converted : {A : Type 0} → (A → Value F) → Option A → Option (Value F)
  converted f none = none
  converted f (some a) = some (f a)

-- A round of the loop over the casts of a row: the row goes on, is dropped, or the stage fails.
pub data CastStep (F : Type 0) : Type 0 where
  goes_on : Row F → CastStep F
  dropped : CastStep F
  failed : PipeError → CastStep F

module _ (go : Runtime) (conv : Conversions go.Float) where
  open go use {Float, of_int, eq, to_lower}

  abbrev pub cast_float : Value Float → Option (Value Float)
  cast_float (float64 f) = some (float64 f)
  cast_float (num k n) = if is_cast_int k then some (float64 (of_int n)) else none
  cast_float (str s) = converted float64 (conv.parse_float s)
  cast_float v = none

  abbrev pub cast_bool : Value Float → Option (Value Float)
  cast_bool (bool b) = some (bool b)
  cast_bool (str s) = converted bool (parse_bool s)
  cast_bool (num k n) = if is_cast_int k then some (bool (nonzero n)) else none
  cast_bool (float64 f) = some (bool (not (eq f go.zero)))
  cast_bool v = none

  -- `castValue`; none is an error.
  unfoldable pub cast_value : Value Float → String → Option (Value Float)
  unfolding sprint atoi
  cast_value v to =
      let t = to_lower to in
      if str_eq t "int"
      then to_int conv v
      else if str_eq t "float"
      then cast_float v
      else if str_eq t "bool"
      then cast_bool v
      else if str_eq t "string"
      then some (str (sprint go v))
      else if str_eq t "timestamp"
      then converted str (conv.parse_time v)
      else none

  -- What the policy does where a value does not convert.
  abbrev pub on_failure : ℕ → CastEntry → Row Float → CastStep Float
  on_failure i c row =
      if str_eq c.on_error "" || str_eq c.on_error "null"
      then goes_on (put row c.field_name nil)
      else if str_eq c.on_error "skip"
      then dropped
      else if str_eq c.on_error "fail"
      then failed (at_stage i c.field_name (bad_config "cast"))
      else failed (bad_config "cast: unknown onError policy")

  abbrev pub cast_found : ℕ → CastEntry → Row Float → Value Float → CastStep Float
  cast_found i c row v = if is_null v then goes_on row else elim (cast_value v c.to) [
    | some w ↦ goes_on (put row c.field_name w)
    | none ↦ on_failure i c row
  ]

  abbrev pub after_cast : CastStep Float → (Row Float → CastStep Float) → CastStep Float
  after_cast (goes_on row) next = next row
  after_cast dropped next = dropped
  after_cast (failed e) next = failed e

  -- The loop over the casts, on row `i`.
  unfoldable pub cast_row : ℕ → List CastEntry → Row Float → CastStep Float
  unfolding cast_value put
  cast_row i [] row = goes_on row
  cast_row i (c ∷ cs) row =
      after_cast
        (elim (lookup row c.field_name) [ none ↦ goes_on row | some v ↦ cast_found i c row v ])
        (cast_row i cs)

  -- `castOp.Apply`, from row `i`.
  unfoldable pub cast_rows :
      List CastEntry → ℕ → List (Row Float) → Outcome PipeError (List (Row Float))
  unfolding cast_row
  cast_rows casts i [] = ok []
  cast_rows casts i (row ∷ rows) =
      let rest = cast_rows casts (suc i) rows in
      elim (cast_row i casts row) [
        | goes_on r ↦ rest >>= λ rs. ok (r ∷ rs)
        | dropped ↦ rest
        | failed e ↦ err e
      ]

abbrev pub cast_types : List String
cast_types = "int" ∷ "float" ∷ "bool" ∷ "string" ∷ "timestamp" ∷ []

abbrev pub fill_methods : List String
fill_methods = "value" ∷ "zero" ∷ "mean" ∷ "lastvalue" ∷ "nextvalue" ∷ []

module _ (go : Runtime) (W : Type 0) where
  open go use {Float, to_lower, equal_fold}

  unfoldable pub drop_nulls_factory :
      List String → Option Bool → Outcome PipeError (Operator Float W)
  unfolding drop_nulls_apply
  drop_nulls_factory cols on_any =
      ok (pure_op "dropNulls" (λ rows. ok (drop_nulls_apply cols on_any rows)))

  unfoldable pub fill_nulls_factory : FillNullsConfig Float → Outcome PipeError (Operator Float W)
  unfolding fill_nulls_apply
  fill_nulls_factory cfg =
      if not (str_eq cfg.method "") && not (contains fill_methods (to_lower cfg.method))
      then err (bad_config "fillNulls: unknown method")
      else ok (pure_op "fillNulls" (fill_nulls_apply go cfg))

  abbrev pub first_bad : List CastEntry → Option String
  first_bad [] = none
  first_bad (c ∷ cs) =
      let rest = first_bad cs in
      if str_eq c.field_name ""
      then some "field is required"
      else if not (contains cast_types (to_lower c.to))
      then some "unknown target type"
      else rest

  unfoldable pub cast_factory :
      Conversions Float → List CastEntry → Outcome PipeError (Operator Float W)
  unfolding cast_rows
  cast_factory conv casts =
      if is_nil casts
      then err (bad_config "cast: at least one cast entry required")
      else elim (first_bad casts) [
        | some m ↦ err (bad_config m)
        | none ↦ ok (pure_op "cast" (cast_rows go conv casts 0))
      ]

  unfoldable pub dedupe_factory :
      List String → String → List OrderByClause → Outcome PipeError (Operator Float W)
  unfolding dedupe_apply
  dedupe_factory by keep_which order =
      if is_nil by
      then err (bad_config "dedupe: by is required")
      else if not (str_eq keep_which "")
          && (not (equal_fold keep_which "first") && not (equal_fold keep_which "last"))
      then err (bad_config "dedupe: keep must be first or last")
      else ok (pure_op "dedupe" (λ rows. ok (dedupe_apply go by keep_which order rows)))

  unfoldable pub assert_factory :
      Option (Evaluator Float) → String → String → String → Outcome PipeError (Operator Float W)
  unfolding assert_apply
  assert_factory eval expr scope message =
      if str_eq expr "" then err (bad_config "assert: expr is required") else elim eval [
        | none ↦ err (bad_config "assert: expression evaluator not available")
        | some run ↦ ok (pure_op "assert" (assert_apply go run expr scope message))
      ]
