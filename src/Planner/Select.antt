-- ===== src/Planner/Select.antt =====
-- `planSelect` and `buildColumnInfo` of planner/planner.go. A set of names is a list without
-- repetitions; Go collects it from a map, in no particular order.
use dql.Prelude.{
  String, Bool, not, ◌&&◌, ◌||◌, List, [], ◌∷◌, ◌++◌, map, keep, Option, none, some, contains,
  is_nil, str_eq, if◌then◌else◌,
}
use dql.Dsl.Tree.{has_expr, has_expr_where}
use dql.Dsl.Query.{
  SelectField, output_name, AggregateClause, OrderByClause, Query, ColumnMeta, is_raw, DatasetInfo,
  ColumnInfo,
}

-- `needed[name] = true`, if the test allows it.
abbrev pub add_name : Bool → String → List String → List String
add_name allowed name needed =
    if allowed && not (contains needed name) then needed ++ name ∷ [] else needed

module _ (raw_columns computed_names : List String) where
  -- A named column that the table stores and the query does not compute.
  abbrev pub is_stored : String → Bool
  is_stored name =
      not (str_eq name "") && (contains raw_columns name && not (contains computed_names name))

  -- The loop over SELECT; none is the early return at a wildcard.
  unfoldable pub needed_select : List SelectField → List String → Option (List String)
  needed_select [] needed = some needed
  needed_select (s ∷ ss) needed =
      let rest = needed_select ss (add_name (is_stored s.field) s.field needed) in
      if str_eq s.field "*" then none else rest

  abbrev pub needed_group : List String → List String → List String
  needed_group [] needed = needed
  needed_group (g ∷ gs) needed = needed_group gs (add_name (contains raw_columns g) g needed)

  abbrev pub needed_aggregates : {F : Type 0} → List (AggregateClause F) → List String → List String
  needed_aggregates [] needed = needed
  needed_aggregates (a ∷ rest) needed = needed_aggregates rest (
      add_name
        (not (str_eq a.field "") && (not (str_eq a.field "*") && contains raw_columns a.field))
        a.field needed)

  abbrev pub needed_order : List OrderByClause → List String → List String
  needed_order [] needed = needed
  needed_order (o ∷ os) needed = needed_order os (add_name (is_stored o.field) o.field needed)

  -- `planSelect`; the empty list is `SELECT *`.
  unfoldable pub plan_select : {F : Type 0} → Query F → List String
  unfolding needed_select has_expr
  plan_select q = elim (needed_select q.select []) [
    | none ↦ []
    | some first ↦
        let needed =
          needed_order q.order_by (needed_aggregates q.aggregate (needed_group q.group_by first)) in
        if is_nil needed && (not (is_nil q.computed) || has_expr_where q.filter)
        then []
        else if is_nil q.select && is_nil q.aggregate
        then []
        else needed
  ]

-- The type of the first column of that name.
abbrev pub type_of : String → String → List ColumnMeta → String
type_of otherwise name [] = otherwise
type_of otherwise name (c ∷ cs) = if str_eq c.name name then c.type else type_of otherwise name cs

abbrev pub column : String → String → String → ColumnInfo
column name type source = record { name = name; type = type; source = source }

abbrev pub select_column : DatasetInfo → List String → SelectField → ColumnInfo
select_column info computed_names s =
    if not (str_eq s.expr "")
    then column (output_name s) "any" "computed"
    else if contains computed_names s.field
    then column (output_name s) "any" "computed"
    else column (output_name s) (type_of "any" s.field info.columns) "raw"

-- `buildColumnInfo`.
unfoldable pub build_column_info :
    {F : Type 0} → Query F → DatasetInfo → List String → List ColumnInfo
unfolding output_name is_raw
build_column_info q info computed_names =
    if not (is_nil q.aggregate)
    then map (λ g. column g (type_of "string" g info.columns) "raw") q.group_by
      ++ map (λ a. column a.as_name "number" "aggregate") q.aggregate
    else (if is_nil q.select
        then map (λ c. column c.name c.type "raw") (keep is_raw info.columns)
        else map (select_column info computed_names) q.select)
      ++ map (λ c. column c.name "any" "computed") q.computed
