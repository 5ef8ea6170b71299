-- ===== src/Processor/Where.antt =====
-- `evalSimpleCondition` and `evalWhereExpr` of processor/processor.go.
use dql.Prelude.{String, Bool, false, not, List, Option, none, some, Outcome, str_eq, if◌then◌else◌}
use dql.Go.Runtime.{Runtime}
use dql.Go.Value.{Value, is_null, sprint}
use dql.Go.Row.{Row, lookup}
use dql.Go.Text.{contains_text, replace_char}
use dql.Dsl.Where.{WhereClause}
use dql.Dsl.Tree.{EvalError, Evaluator, Semantics, eval_tree, filter_rows}
use dql.Go.Coerce.{compare_values, is_lt, is_gt, value_in, to_bool}

module _ (go : Runtime) where
  open go use {Float, to_lower, has_prefix, has_suffix}

  -- The second switch: the tests on a value that is not null.
  unfoldable pub test_condition : String → Value Float → Value Float → Bool
  unfolding sprint contains_text replace_char compare_values value_in
  test_condition op val want =
      let s = sprint go val in
      let w = sprint go want in
      let like = contains_text (to_lower s) (to_lower (replace_char b'%' "" w)) in
      if str_eq op "=="
      then str_eq s w
      else if str_eq op "!="
      then not (str_eq s w)
      else if str_eq op ">"
      then is_gt (compare_values go val want)
      else if str_eq op "<"
      then is_lt (compare_values go val want)
      else if str_eq op ">="
      then not (is_lt (compare_values go val want))
      else if str_eq op "<="
      then not (is_gt (compare_values go val want))
      else if str_eq op "like"
      then like
      else if str_eq op "not_like"
      then not like
      else if str_eq op "starts_with"
      then has_prefix (to_lower s) (to_lower w)
      else if str_eq op "ends_with"
      then has_suffix (to_lower s) (to_lower w)
      else if str_eq op "contains"
      then contains_text (to_lower s) (to_lower w)
      else if str_eq op "in"
      then value_in go val want
      else if str_eq op "not_in"
      then not (value_in go val want)
      else false

  unfoldable pub eval_simple_condition : String → String → Value Float → Row Float → Bool
  unfolding test_condition
  eval_simple_condition name op want row = elim (lookup row name) [
    | none ↦ str_eq op "is_null"
    | some val ↦
        if str_eq op "is_null"
        then is_null val
        else if str_eq op "is_not_null"
        then not (is_null val)
        else if is_null val
        then false
        else test_condition op val want
  ]

  -- What the tree walk does at a simple condition, and what counts as true.
  abbrev pub processor_semantics : Option (Evaluator Float) → Semantics Float
  processor_semantics eval = record {
    simple = eval_simple_condition;
    truthy = to_bool go;
    eval = eval;
  }

  -- `evalWhereExpr` on a clause.
  unfoldable pub eval_where_expr :
      Option (Evaluator Float) → Row Float → WhereClause Float → Outcome EvalError Bool
  unfolding eval_tree eval_simple_condition to_bool
  eval_where_expr eval row w = eval_tree (processor_semantics eval) row w

  -- `filterByExpr`; `filterByWhere` and `FilterRows` are the same call.
  unfoldable pub filter_by_expr :
      Option (Evaluator Float)
      → Option (WhereClause Float)
      → List (Row Float)
      → Outcome EvalError (List (Row Float))
  unfolding filter_rows
  filter_by_expr eval w rows = filter_rows (processor_semantics eval) w rows
