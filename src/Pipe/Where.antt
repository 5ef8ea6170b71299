-- ===== src/Pipe/Where.antt =====
-- The evaluation of a WHERE tree against one row in the pipe: `evalWhere` and `evalSimple` of
-- pipe/helpers.go.
use dql.Prelude.{String, Bool, false, not, Option, none, some, Outcome, str_eq, if◌then◌else◌}
use dql.Go.Runtime.{Runtime}
use dql.Go.Value.{Value, is_null, sprint}
use dql.Go.Row.{Row, lookup}
use dql.Go.Text.{contains_text, replace_char}
use dql.Dsl.Where.{WhereClause}
use dql.Dsl.Tree.{EvalError, Evaluator, Semantics, eval_tree}
use dql.Go.Coerce.{compare_values, is_lt, is_gt, value_in, to_bool}

module _ (go : Runtime) where
  open go use {Float, to_lower}

  -- The `like` test: `%` is dropped from the pattern, and case is ignored.
  unfoldable pub like : Value Float → Value Float → Bool
  unfolding sprint contains_text replace_char
  like val pattern =
      contains_text (to_lower (sprint go val)) (to_lower (replace_char b'%' "" (sprint go pattern)))

  -- The tests on a value that is not null.
  unfoldable pub eval_op : String → Value Float → Value Float → Bool
  unfolding like compare_values value_in
  eval_op op val want =
      if str_eq op "=="
      then str_eq (sprint go val) (sprint go want)
      else if str_eq op "!="
      then not (str_eq (sprint go val) (sprint go want))
      else if str_eq op ">"
      then is_gt (compare_values go val want)
      else if str_eq op "<"
      then is_lt (compare_values go val want)
      else if str_eq op ">="
      then not (is_lt (compare_values go val want))
      else if str_eq op "<="
      then not (is_gt (compare_values go val want))
      else if str_eq op "like"
      then like val want
      else if str_eq op "not_like"
      then not (like val want)
      else if str_eq op "in"
      then value_in go val want
      else if str_eq op "not_in"
      then not (value_in go val want)
      else false

  -- A value that is there, or nil.
  abbrev pub eval_null : String → Value Float → Value Float → Bool
  eval_null op val want = if is_null val then false else eval_op op val want

  unfoldable pub eval_simple : String → String → Value Float → Row Float → Bool
  unfolding eval_op
  eval_simple name op want row = elim (lookup row name) [
    | none ↦ str_eq op "is_null"
    | some val ↦
        if str_eq op "is_null"
        then is_null val
        else if str_eq op "is_not_null"
        then not (is_null val)
        else eval_null op val want
  ]

  -- `evalWhere`.
  abbrev pub pipe_semantics : Option (Evaluator Float) → Semantics Float
  pipe_semantics eval = record { simple = eval_simple; truthy = to_bool go; eval = eval }

  unfoldable pub eval_where :
      Option (Evaluator Float) → Row Float → WhereClause Float → Outcome EvalError Bool
  unfolding eval_tree eval_simple to_bool
  eval_where eval row w = eval_tree (pipe_semantics eval) row w
