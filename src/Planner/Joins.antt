-- ===== src/Planner/Joins.antt =====
-- The JOIN loop of `Plan` and `stripAlias`, of planner/planner.go.
use Prim.Native.Char.{code}
use Prim.Native.String.{◌++◌ as str_append}
use dql.Prelude.{
  String, Bool, List, [], ◌∷◌, ◌++◌, map, keep, any, Option, none, some, Outcome, ok, ◌>>=◌, str_eq,
  ◌==◌, if◌then◌else◌, map_err,
}
use dql.Dsl.Query.{JoinClause, ColumnMeta, is_raw, DatasetInfo, JoinPlan}
use dql.Scope.{Scope, join_scoped}

-- What stands behind the last dot, if there is a dot.
unfoldable pub after_last_dot : String → Option String
after_last_dot String.[] = none
after_last_dot (String.◌∷◌ c s) = elim (after_last_dot s) [
  | some t ↦ some t
  | none ↦ if code c == b'.' then some s else none
]

unfoldable pub strip_alias : String → String
unfolding after_last_dot
strip_alias ref = elim (after_last_dot ref) [ none ↦ ref | some t ↦ t ]

-- `SchemaResolver.ResolveDataset`, with the context, the workspace and the project fixed.
abbrev pub Resolver : Type 0
Resolver = String → Outcome String DatasetInfo

pub data PlanError : Type 0 where
  resolve_dataset resolve_join_dataset : String → String → PlanError

abbrev pub has_column : List ColumnMeta → String → Bool
has_column cols name = any (λ c. str_eq c.name name) cols

-- The names of the host's join-scoping columns that the joined table carries, in scope order.
unfoldable pub join_scope_columns : {F : Type 0} → Scope F → List ColumnMeta → List String
unfolding join_scoped
join_scope_columns sc cols = map (λ c. c.name) (keep (λ c. has_column cols c.name) (join_scoped sc))

-- The names that a joined table adds to the raw columns, qualified and bare.
abbrev pub joined_names : String → List ColumnMeta → List String
joined_names alias [] = []
joined_names alias (c ∷ cs) =
    let rest = joined_names alias cs in
    if is_raw c then str_append alias (str_append "." c.name) ∷ c.name ∷ rest else rest

-- The body of the loop, for one join.
unfoldable pub join_plan : {F : Type 0} → Scope F → JoinClause → DatasetInfo → JoinPlan
unfolding strip_alias join_scope_columns
join_plan sc j info = record {
  table_name = info.table_name;
  alias = if str_eq j.alias "" then info.table_name else j.alias;
  on_left = strip_alias j.on_left;
  on_right = strip_alias j.on_right;
  type = j.type;
  scope_columns = join_scope_columns sc info.columns;
}

-- The loop, which also extends the raw columns.
unfoldable pub plan_joins :
    {F : Type 0}
    → Resolver
    → Scope F
    → List JoinClause
    → List String
    → Outcome PlanError (List JoinPlan × List String)
unfolding join_plan is_raw
plan_joins resolve sc [] raw = ok ([], raw)
plan_joins resolve sc (j ∷ js) raw =
    map_err (resolve_join_dataset j.dataset) (resolve j.dataset) >>= λ info.
    let plan = join_plan sc j info in
    plan_joins resolve sc js (raw ++ joined_names plan.alias info.columns) >>= λ rest.
    ok (plan ∷ rest.0, rest.1)
