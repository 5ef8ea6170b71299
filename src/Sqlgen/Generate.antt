-- ===== src/Sqlgen/Generate.antt =====
-- `GenerateSQL` of sqlgen/sql_generator.go and the clauses that it writes in turn.
use Prim.Native.String.{◌++◌ as str_append}
use dql.Prelude.{
  zero, suc, String, Bool, not, ◌&&◌, ◌||◌, List, [], ◌∷◌, ◌++◌, map, keep, any, Option, none, some,
  Outcome, ok, err, is_nil, str_eq, if◌then◌else◌,
}
use dql.Prelude.Int.{ℤ, pos, negsuc}
use dql.Go.Runtime.{Runtime}
use dql.Go.Value.{Value, num, int}
use dql.Go.Text.{join}
use dql.Dsl.Where.{WhereClause}
use dql.Dsl.Query.{AggregateClause, OrderByClause, JoinPlan, QueryPlan, ColumnMeta}
use dql.Scope.{Scope, ScopeColumn}
use dql.Sqlgen.Emit.{Sql, Emit, write, bind_value, nothing, ◌⨾◌, join_emits}
use dql.Sqlgen.Ident.{quote_ident}
use dql.Sqlgen.Condition.{where_clause}

-- The functions that are spelled out are spelled as they are named, as is the fallback.
unfoldable pub format_aggregate : {F : Type 0} → AggregateClause F → String
unfolding quote_ident
format_aggregate agg =
    let field =
      if not (str_eq agg.field "") && not (str_eq agg.field "*")
      then quote_ident agg.field
      else "*" in
    str_append agg.fn (
      str_append "("
        (str_append field (str_append ")" (str_append " AS " (quote_ident agg.as_name)))))

-- `datasetHasColumn`: true too where there is no column metadata.
unfoldable pub dataset_has_column : List ColumnMeta → String → Bool
dataset_has_column cols name = is_nil cols || any (λ c. str_eq c.name name) cols

module _ {F : Type 0} where
  -- `buildSelect`.
  unfoldable pub build_select : QueryPlan F → Emit F
  unfolding format_aggregate join
  build_select plan =
      write "SELECT "
      ⨾ (if not (is_nil plan.pushed_aggs) && not (is_nil plan.pushed_group)
          then write (
              join ", "
                (map quote_ident plan.pushed_group ++ map format_aggregate plan.pushed_aggs))
          else if not (is_nil plan.pushed_aggs)
          then write (join ", " (map format_aggregate plan.pushed_aggs))
          else if is_nil plan.pushed_select
          then write "*"
          else write (join ", " (map quote_ident plan.pushed_select)))

  unfoldable pub build_from : QueryPlan F → Emit F
  unfolding quote_ident
  build_from plan = write " FROM " ⨾ write (quote_ident plan.table_name)

  -- `" AND alias.column = $n"` for the first scope column of that name.
  unfoldable pub scope_join : String → Scope F → String → Emit F
  unfolding quote_ident
  scope_join alias [] name = nothing
  scope_join alias (c ∷ sc) name =
      let rest = scope_join alias sc name in
      if str_eq c.name name
      then write (
          str_append " AND " (
            str_append (quote_ident alias)
              (str_append "." (str_append (quote_ident c.name) " = "))))
        ⨾ bind_value c.value
      else rest

  abbrev pub scope_joins : String → Scope F → List String → Emit F
  scope_joins alias sc [] = nothing
  scope_joins alias sc (n ∷ ns) = scope_join alias sc n ⨾ scope_joins alias sc ns

  -- A column of the primary table, qualified when there are joins.
  abbrev pub scope_column : QueryPlan F → String → String
  scope_column plan name =
      if not (is_nil plan.joins)
      then str_append (quote_ident plan.table_name) (str_append "." (quote_ident name))
      else quote_ident name

  -- `column(col.Name) + " = " + g.placeholder(col.Value)`.
  unfoldable pub scope_predicate : QueryPlan F → ScopeColumn F → Emit F
  unfolding quote_ident
  scope_predicate plan c = write (str_append (scope_column plan c.name) " = ") ⨾ bind_value c.value

  -- The scope columns that the base table is confined to.
  unfoldable pub applied_scope : QueryPlan F → Scope F → Scope F
  unfolding dataset_has_column
  applied_scope plan sc =
      keep (λ c. c.required || dataset_has_column plan.dataset.columns c.name) sc

  unfoldable pub build_group_by : QueryPlan F → Emit F
  unfolding quote_ident join
  build_group_by plan =
      if is_nil plan.pushed_group
      then nothing
      else write (str_append " GROUP BY " (join ", " (map quote_ident plan.pushed_group)))

  -- `buildLimitOffset`.
  abbrev pub limit_clause : Option ℤ → Emit F
  limit_clause none = nothing
  limit_clause (some n) = write " LIMIT " ⨾ bind_value (num int n)

  abbrev pub offset_clause : Option ℤ → Emit F
  offset_clause none = nothing
  offset_clause (some (pos zero)) = nothing
  offset_clause (some (pos (suc n))) = write " OFFSET " ⨾ bind_value (num int (pos (suc n)))
  offset_clause (some (negsuc n)) = nothing

  unfoldable pub build_limit_offset : QueryPlan F → Emit F
  build_limit_offset plan = limit_clause plan.pushed_limit ⨾ offset_clause plan.pushed_offset

module _ (go : Runtime) where
  open go use {Float, to_upper}

  -- `buildJoins`, for one join.
  unfoldable pub build_join : QueryPlan Float → Scope Float → JoinPlan → Emit Float
  unfolding quote_ident scope_join
  build_join plan sc j =
      write (
        str_append " " (
          str_append (to_upper j.type) (
            str_append " JOIN " (
              str_append (quote_ident j.table_name) (
                str_append " AS " (
                  str_append (quote_ident j.alias) (
                    str_append " ON " (
                      str_append (quote_ident plan.table_name) (
                        str_append "." (
                          str_append (quote_ident j.on_left) (
                            str_append " = " (
                              str_append (quote_ident j.alias)
                                (str_append "." (quote_ident j.on_right))))))))))))))
      ⨾ scope_joins j.alias sc j.scope_columns

  abbrev pub build_each_join : QueryPlan Float → Scope Float → List JoinPlan → Emit Float
  build_each_join plan sc [] = nothing
  build_each_join plan sc (j ∷ js) = build_join plan sc j ⨾ build_each_join plan sc js

  unfoldable pub build_joins : QueryPlan Float → Scope Float → Emit Float
  unfolding build_join
  build_joins plan sc = build_each_join plan sc plan.joins

  -- `buildWhere`: the scope first, then the pushed clause.
  abbrev pub where_parts : List (Emit Float) → Option (WhereClause Float) → Emit Float
  where_parts [] none = nothing
  where_parts [] (some w) = write " WHERE " ⨾ write "" ⨾ where_clause go w
  where_parts (p ∷ ps) none = write " WHERE " ⨾ join_emits " AND " (p ∷ ps)
  where_parts (p ∷ ps) (some w) =
      write " WHERE " ⨾ join_emits " AND " (p ∷ ps) ⨾ write " AND " ⨾ where_clause go w

  unfoldable pub build_where : QueryPlan Float → Scope Float → Emit Float
  unfolding scope_predicate applied_scope where_clause
  build_where plan sc =
      where_parts (map (scope_predicate plan) (applied_scope plan sc)) plan.pushed_where

  abbrev pub having_clause : Option (WhereClause Float) → Emit Float
  having_clause none = nothing
  having_clause (some w) = write " HAVING " ⨾ where_clause go w

  unfoldable pub build_having : QueryPlan Float → Emit Float
  unfolding where_clause
  build_having plan = if plan.has_having then having_clause plan.pushed_having else nothing

  abbrev pub order_part : OrderByClause → Emit Float
  order_part o =
      write (quote_ident o.field)
      ⨾ (if str_eq (to_upper o.dir) "DESC" then write " DESC" else write " ASC")

  abbrev pub order_parts : List OrderByClause → Emit Float
  order_parts [] = nothing
  order_parts (o ∷ os) = write " ORDER BY " ⨾ join_emits ", " (map order_part (o ∷ os))

  unfoldable pub build_order_by : QueryPlan Float → Emit Float
  unfolding quote_ident
  build_order_by plan = order_parts plan.pushed_order

  abbrev pub statement : QueryPlan Float → Scope Float → Emit Float
  statement plan sc =
      build_select plan
      ⨾ build_from plan
      ⨾ build_joins plan sc
      ⨾ build_where plan sc
      ⨾ build_group_by plan
      ⨾ build_having plan
      ⨾ build_order_by plan
      ⨾ build_limit_offset plan

  -- `GenerateSQL`; a nil scope, none, is refused.
  unfoldable pub generate_sql :
      QueryPlan Float → Option (Scope Float) → Outcome String (Sql × List (Value Float))
  unfolding build_select build_from build_joins build_where build_group_by build_having
      build_order_by build_limit_offset ◌⨾◌
  generate_sql plan none = err "dql: nil scope"
  generate_sql plan (some sc) = ok (statement plan sc [])
