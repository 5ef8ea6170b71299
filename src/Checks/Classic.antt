-- ===== src/Checks/Classic.antt =====
-- The theorems on the planner, the processor and the generator, at the data of the parent.
use dql.Prelude.{
  ℕ, String, true, false, not, ◌&&◌, ◌≡◌, refl, List, [], ◌∷◌, none, some, ok, str_eq,
  if◌then◌else◌,
}
use dql.Prelude.Int.{pos}
use dql.Go.Value.{Value, str, num, int}
use dql.Go.Row.{Row, lookup}
use dql.Dsl.Where.{
  clause, simple_clause, and_clause, Clauses, more, done, MaybeClause, absent, present, has_any,
}
use dql.Dsl.Query.{Query, QueryPlan}
use dql.Planner.Joins.{Resolver}
use dql.Processor.Where.{eval_simple_condition}
use dql.Planner.Where.Sql.{
  Truth, is_true, is_false, is_unknown, truth, sql_and, sql_or, sql_not, Database,
}
use dql.Planner.Plan.{plan_query}
use dql.Planner.Paging.{PagesOnce, plan_query-pages}
use dql.Sqlgen.Numbering.{numbers, positions}
use dql.Sqlgen.Emit.{Sql, text, placeholder}
use dql.Sqlgen.Generate.{generate_sql, scope_column}
use dql.Sqlgen.Placeholders.{generate_sql-numbered}
use dql.Sqlgen.Operands.{HasKnownOps}
use dql.Sqlgen.Tenancy.{Confines, required_column-Confines}
use dql.Checks.{toy, named_bob, bob_and_expression, query_of, people, plan_of, tenant}

-- What is generated for those who are named bob, in one workspace.
abbrev bob_sql : Sql
bob_sql =
    text "SELECT "
    ∷ text "\"name\""
    ∷ text " FROM "
    ∷ text "\"people\""
    ∷ text " WHERE "
    ∷ text "\"workspace_id\" = "
    ∷ placeholder 1
    ∷ text " AND "
    ∷ text "\"name\" = "
    ∷ placeholder 2
    ∷ text " LIMIT "
    ∷ placeholder 3
    ∷ []

abbrev bob_params : List (Value ℕ)
bob_params = str "w1" ∷ str "bob" ∷ num int (pos 10) ∷ []

generate_sql-numbered_example : numbers bob_sql ≡ positions 0 bob_params
unfolding generate_sql dql.Sqlgen.Emit.write dql.Sqlgen.Emit.nothing dql.Sqlgen.Emit.join_emits
    dql.Sqlgen.Emit.bind_value dql.Sqlgen.Condition.simple_condition
generate_sql-numbered_example =
    generate_sql-numbered toy (plan_of (some named_bob)) (tenant ∷ []) bob_sql bob_params refl

required_column-Confines_example :
    Confines toy
      (plan_of (some named_bob))
      (tenant ∷ [])
      (scope_column (plan_of (some named_bob)) "workspace_id")
      (str "w1")
      (bob_sql, bob_params)
unfolding generate_sql dql.Sqlgen.Emit.write dql.Sqlgen.Emit.nothing dql.Sqlgen.Emit.join_emits
    dql.Sqlgen.Emit.bind_value dql.Sqlgen.Condition.simple_condition HasKnownOps
required_column-Confines_example =
    required_column-Confines toy (plan_of (some named_bob)) tenant [] [] bob_sql bob_params refl
      refl refl

-- An operator that the language does not have is written as it is, beside the partition predicate.
unknown_operator :
    generate_sql toy
      (plan_of (some (simple_clause "name" "= '' OR '' =" (str ""))))
      (some (tenant ∷ []))
    ≡ ok (
      text "SELECT "
          ∷ text "\"name\""
          ∷ text " FROM "
          ∷ text "\"people\""
          ∷ text " WHERE "
          ∷ text "\"workspace_id\" = "
          ∷ placeholder 1
          ∷ text " AND "
          ∷ text "\"name\" = '' OR '' = "
          ∷ placeholder 2
          ∷ text " LIMIT "
          ∷ placeholder 3
          ∷ [],
      str "w1" ∷ str "" ∷ num int (pos 10) ∷ [],
    )
unfolding generate_sql dql.Sqlgen.Emit.write dql.Sqlgen.Emit.nothing dql.Sqlgen.Emit.join_emits
    dql.Sqlgen.Emit.bind_value dql.Sqlgen.Condition.simple_condition
unknown_operator = refl

-- The plan of a query with an expression, which is paged in memory.
abbrev paged_query : Query ℕ
paged_query = query_of (some bob_and_expression)

abbrev resolve_people : Resolver
resolve_people name = ok people

abbrev paged_plan : QueryPlan ℕ
paged_plan = record {
  dataset = people;
  dataset_name = "people";
  table_name = "people";
  pushed_where = some (and_clause (more named_bob done));
  pushed_select = [];
  pushed_order = [];
  pushed_group = [];
  pushed_aggs = [];
  pushed_limit = none;
  pushed_offset = none;
  has_having = false;
  pushed_having = none;
  joins = [];
  in_memory = "filter_expr" ∷ "paginate" ∷ [];
  columns =
      record { name = "name"; type = "string"; source = "raw" }
      ∷ record { name = "age"; type = "number"; source = "raw" }
      ∷ [];
}

plan_query-pages_example : PagesOnce true (some (pos 10)) none none none true
unfolding plan_query
plan_query-pages_example =
    plan_query-pages resolve_people (tenant ∷ []) paged_query paged_query paged_plan refl

-- A database with null values: a condition on a column that a row does not have is unknown.
abbrev test : String → String → Value ℕ → Row ℕ → Truth
test name op v row = elim (lookup row name) [
  | none ↦ is_unknown
  | some val ↦ truth (eval_simple_condition toy name op v row)
]

unfoldable mutual
  null_db : Database ℕ
  null_db (clause f o v e ands ors neg) row =
      if not (str_eq f "") && not (str_eq o "")
      then test f o v row
      else if has_any ands
      then null_every ands row
      else if has_any ors
      then null_some ors row
      else null_not neg row

  null_every : Clauses ℕ → Row ℕ → Truth
  null_every done row = is_true
  null_every (more w ws) row = sql_and (null_db w row) (null_every ws row)

  null_some : Clauses ℕ → Row ℕ → Truth
  null_some done row = is_false
  null_some (more w ws) row = sql_or (null_db w row) (null_some ws row)

  null_not : MaybeClause ℕ → Row ℕ → Truth
  null_not absent row = is_unknown
  null_not (present w) row = sql_not (null_db w row)
