-- ===== src/Planner/Plan.antt =====
-- `Plan` of planner/planner.go.
use dql.Prelude.{
  String, Bool, true, false, not, ◌&&◌, ◌||◌, List, [], ◌∷◌, ◌++◌, map, keep, all, Option, none,
  some, Outcome, ok, ◌>>=◌, map_err, contains, is_nil, str_eq, if◌then◌else◌,
}
use dql.Go.Value.{bool}
use dql.Dsl.Where.{WhereClause, done, more, and_clause, simple_clause}
use dql.Dsl.Query.{
  AggregateClause, is_pushable, OrderByClause, Query, is_raw, DatasetInfo, QueryPlan, JoinPlan,
}
use dql.Scope.{Scope}
use dql.Planner.Where.{Parts, split_where, references_version_column}
use dql.Planner.Select.{plan_select, build_column_info}
use dql.Planner.Joins.{Resolver, PlanError, resolve_dataset, plan_joins}

abbrev pub is_sortable : List String → List String → OrderByClause → Bool
is_sortable raw computed o =
    not (str_eq o.field "") && (contains raw o.field && not (contains computed o.field))

abbrev pub when : Bool → String → List String
when true name = name ∷ []
when false name = []

abbrev pub is_given {ℓ} : {A : Type ℓ} → Option A → Bool
is_given none = false
is_given (some a) = true

-- Whether a step changes the number of rows, as `Plan` sees it: sorting does not count.
abbrev pub has_row_changing : List String → Bool
has_row_changing steps =
    contains steps "filter_expr" || (contains steps "aggregate" || contains steps "having")

module _ {F : Type 0} where
  abbrev pub is_current_filter : WhereClause F
  is_current_filter = simple_clause "_is_current" "==" (bool true)

  -- The clause with the filter on the current version in front of it.
  abbrev pub with_current : Option (WhereClause F) → Option (WhereClause F)
  with_current none = some is_current_filter
  with_current (some w) = some (and_clause (more is_current_filter (more w done)))

  abbrev pub references_version : Option (WhereClause F) → Bool
  references_version none = false
  references_version (some w) = references_version_column w

  -- What `q.Where` is after the step for versioned datasets.
  unfoldable pub version_filter :
      DatasetInfo → List String → Option (WhereClause F) → Option (WhereClause F)
  unfolding references_version_column
  version_filter info raw w =
      if info.versioned && (contains raw "_is_current" && not (references_version w))
      then with_current w
      else w

  -- `splitWhere` on the query's pointer.
  unfoldable pub split_maybe : List String → List String → Option (WhereClause F) → Parts F
  unfolding split_where
  split_maybe raw computed none = (none, false)
  split_maybe raw computed (some w) = split_where raw computed w

  -- The aggregates that are pushed, given whether every grouping column is raw.
  unfoldable pub pushed_aggregates :
      Bool → List String → List (AggregateClause F) → List (AggregateClause F)
  unfolding is_pushable
  pushed_aggregates all_group_raw raw aggs =
      keep (λ a. all_group_raw && (is_pushable a && contains raw a.field)) aggs

  abbrev pub every_pushed : Bool → List String → List (AggregateClause F) → Bool
  every_pushed all_group_raw raw aggs =
      all (λ a. all_group_raw && (is_pushable a && contains raw a.field)) aggs

  -- The in-memory steps before pagination, in the order in which `Plan` lists them.
  unfoldable pub in_memory_steps : List String → List String → Bool → Query F → List String
  unfolding is_pushable
  in_memory_steps raw computed filter_in_mem q =
      let all_group_raw = all (contains raw) q.group_by in
      when filter_in_mem "filter_expr"
      ++ (when (not (every_pushed all_group_raw raw q.aggregate)) "aggregate"
          ++ (when (is_given q.having && not all_group_raw) "having"
              ++ (when (not (all (is_sortable raw computed) q.order_by)) "sort"
                  ++ when (not (is_nil q.computed)) "computed_columns")))

  -- The plan, from what was resolved: `first_raw` are the raw columns of the dataset alone, `raw`
  -- those of the joined tables too, and `q` has its final WHERE clause.
  unfoldable pub assemble :
      DatasetInfo → List String → List String → List JoinPlan → List String → Query F → QueryPlan F
  unfolding split_maybe pushed_aggregates in_memory_steps build_column_info
  assemble info select first_raw joins raw q =
      let computed = map (λ c. c.name) q.computed in
      let parts = split_maybe first_raw computed q.filter in
      let all_group_raw = all (contains raw) q.group_by in
      let steps = in_memory_steps raw computed parts.1 q in
      let pages = has_row_changing steps in
      record {
        dataset = info;
        dataset_name = info.name;
        table_name = info.table_name;
        pushed_where = parts.0;
        pushed_select = select;
        pushed_order = keep (is_sortable raw computed) q.order_by;
        pushed_group = if all_group_raw then q.group_by else [];
        pushed_aggs = pushed_aggregates all_group_raw raw q.aggregate;
        pushed_limit = if pages then none else q.limit;
        pushed_offset = if pages then none else q.offset;
        has_having = is_given q.having;
        pushed_having = if all_group_raw then q.having else none;
        joins = joins;
        in_memory = steps ++ when (pages && (is_given q.limit || is_given q.offset)) "paginate";
        columns = build_column_info q info computed;
      }

  -- `Plan`: the plan, and the query as it is left, whose WHERE clause may have been replaced.
  unfoldable pub plan_query :
      Resolver → Scope F → Query F → Outcome PlanError (QueryPlan F × Query F)
  unfolding assemble version_filter plan_select plan_joins
  plan_query resolve sc q = map_err (resolve_dataset q.dataset) (resolve q.dataset) >>= λ info.
      let first_raw = map (λ c. c.name) (keep is_raw info.columns) in
      let select = plan_select first_raw (map (λ c. c.name) q.computed) q in
      let q' = record q { filter = version_filter info first_raw q.filter } in
      plan_joins resolve sc q.joins first_raw >>= λ joined.
      ok (assemble info select first_raw joined.0 joined.1 q', q')
