-- ===== src/Processor/Process.antt =====
-- `Process` and `ProcessInMemory` of processor/processor.go: the order of the steps.
use dql.Prelude.{
  ℕ, Bool, true, false, not, ◌&&◌, List, Option, none, some, Outcome, ok, err, ◌>>=◌, map_err,
  contains, is_nil, length, if◌then◌else◌,
}
use dql.Go.Runtime.{Runtime}
use dql.Go.Row.{Row}
use dql.Dsl.Where.{WhereClause}
use dql.Dsl.Tree.{EvalError, Evaluator, has_expr, has_expr_where}
use dql.Dsl.Query.{Query, QueryPlan, ColumnInfo}
use dql.Processor.Where.{filter_by_expr}
use dql.Processor.Aggregate.{aggregate}
use dql.Processor.Steps.{paginate, is_wildcard_select, project, sort_rows, eval_computed_columns}

pub data ProcessError : Type 0 where
  in_computed_columns in_expression_filter in_having_filter : EvalError → ProcessError
  -- a slice bound out of range
  panic : ProcessError

pub record QueryResult (F : Type 0) : Type 0 where
  pub rows : List (Row F)
  pub total : ℕ
  pub columns : List ColumnInfo

abbrev pub is_set {ℓ} : {A : Type ℓ} → Option A → Bool
is_set none = false
is_set (some a) = true

abbrev pub or_panic : {A : Type 0} → Option A → Outcome ProcessError A
or_panic none = err panic
or_panic (some a) = ok a

module _ (go : Runtime) (eval : Option (Evaluator go.Float)) where
  open go use {Float}

  abbrev pub Rows : Type 0
  Rows = List (Row Float)

  -- The first two steps of `Process`: computed columns, then the filter, which runs only if the
  -- WHERE tree holds an expression.
  unfoldable pub where_step : Query Float → Rows → Outcome ProcessError Rows
  unfolding filter_by_expr has_expr
  where_step q rows =
      if has_expr_where q.filter
      then map_err in_expression_filter (filter_by_expr go eval q.filter rows)
      else ok rows

  unfoldable pub computed_step : Query Float → Rows → Outcome ProcessError Rows
  unfolding eval_computed_columns
  computed_step q rows =
      if is_nil q.computed
      then ok rows
      else map_err in_computed_columns (eval_computed_columns go eval q.computed rows)

  unfoldable pub having_step : Option (WhereClause Float) → Rows → Outcome ProcessError Rows
  unfolding filter_by_expr
  having_step none rows = ok rows
  having_step (some w) rows = map_err in_having_filter (filter_by_expr go eval (some w) rows)

  abbrev pub project_step : Query Float → Rows → Rows
  project_step q rows =
      if not (is_nil q.select) && (is_nil q.aggregate && not (is_wildcard_select q.select))
      then project q.select q.computed rows
      else rows

  -- `Process`.
  unfoldable pub process :
      QueryPlan Float → Query Float → Rows → Outcome ProcessError (QueryResult Float)
  unfolding computed_step where_step having_step aggregate sort_rows paginate project
      is_wildcard_select
  process plan q rows = computed_step q rows >>= λ computed. where_step q computed >>= λ matching.
      let grouped =
        if contains plan.in_memory "aggregate"
        then aggregate go q.group_by q.aggregate matching
        else matching in
      having_step (if contains plan.in_memory "having" then q.having else none) grouped
      >>= λ having.
          let sorted =
            if contains plan.in_memory "sort" then sort_rows go q.order_by having else having in
          or_panic (
            if contains plan.in_memory "paginate"
            then paginate q.limit q.offset sorted
            else some sorted)
          >>= λ page.
              ok (record {
                rows = project_step q page;
                total = length sorted;
                columns = plan.columns;
              })

  -- `ProcessInMemory`: every step runs, over rows that did not come from SQL.
  unfoldable pub process_in_memory : Query Float → Rows → Bool → Outcome ProcessError (Rows × ℕ)
  unfolding computed_step having_step filter_by_expr aggregate sort_rows paginate project
      is_wildcard_select
  process_in_memory q rows apply_where = computed_step q rows >>= λ computed.
      (if apply_where && is_set q.filter
        then map_err in_expression_filter (filter_by_expr go eval q.filter computed)
        else ok computed)
      >>= λ matching.
          let grouped =
            if is_nil q.aggregate then matching else aggregate go q.group_by q.aggregate matching in
          having_step q.having grouped >>= λ having.
          let sorted = sort_rows go q.order_by having in
          or_panic (paginate q.limit q.offset sorted) >>= λ page.
          ok (project_step q page, length sorted)
