-- ===== src/Checks/Engine.antt =====
-- The theorems on the engine, at a small database that heeds LIMIT.
use dql.Prelude.{
  ℕ, zero, suc, ◌≤◌, min, String, true, false, ◌≡◌, refl, sym, ap, subst, List, [], ◌∷◌, map,
  Option, none, some, Outcome, ok, ok_inj, arith, length, length-map, length-take, take, get_elem?,
}
use dql.Prelude.Int.{pos}
use dql.Go.Value.{nil, Value, num, str, int}
use dql.Go.Row.{Row}
use dql.Dsl.Query.{Query, QueryPlan, ColumnInfo}
use dql.Scope.{Scope}
use dql.Planner.Joins.{Resolver}
use dql.Sqlgen.Emit.{Sql}
use dql.Exec.Scan.{SqlValue, other, SqlRows, Querier, Decoder}
use dql.Exec.Config.{EngineConfig, Engine, engine_of, new_engine, effective_limit}
use dql.Exec.Bounds.{ObeysLimit, KeepsRows}
use dql.Go.Numbers.{max_int}
use dql.Exec.Classic.{is_before, Expansion, EngineResult, execute_classic, explain_classic}
use dql.Expand.Expander.{Expander, ExpandConfig, Entries}
use dql.Exec.Enriched.{expansion_of, expansion_of-KeepsRows}
use dql.Exec.Paged.{execute_classic-bound, execute_classic-no_more}
use dql.Checks.{plan_of, toy, ann, bob, people, tenant, query_of}

-- The smallest number among the parameters, or this one.
abbrev as_limit : Value ℕ → ℕ → ℕ
as_limit (num int (pos n)) d = min n d
as_limit v d = d

abbrev smallest : List (Value ℕ) → ℕ → ℕ
smallest [] d = d
smallest (v ∷ vs) d = as_limit v (smallest vs d)

abbrev pub columns : List String
columns = "name" ∷ "age" ∷ []

abbrev pub stored : List (List (SqlValue ℕ ℕ))
stored =
    (other (str "ann") ∷ other (num int (pos 40)) ∷ [])
    ∷ (other (str "bob") ∷ other (num int (pos 7)) ∷ [])
    ∷ (other (str "cid") ∷ other (num int (pos 9)) ∷ [])
    ∷ []

-- The answer to each statement: the stored rows, up to the limit.
abbrev answer : List (Value ℕ) → SqlRows ℕ ℕ
answer params = record {
  columns = ok columns;
  fetched = map ok (take (smallest params 3) stored);
  end_error = none;
}

abbrev pub small_db : Querier ℕ ℕ ℕ
small_db sql params w = (ok (answer params), w)

as_limit-le : (v : Value ℕ) (d : ℕ) → as_limit v d ≤ d
as_limit-le v d = ground arith

smallest-le :
    (params : List (Value ℕ)) (d i n : ℕ)
    → get_elem? params i ≡ some (num int (pos n))
    → smallest params d ≤ n
smallest-le [] d i n h = absurd (ground arith)
smallest-le (v ∷ vs) d zero n h =
    let same : v ≡ num int (pos n) = ground arith in
    subst (λ x. as_limit x (smallest vs d) ≤ n) (sym same) (omega arith)
smallest-le (v ∷ vs) d (suc i) n h =
    let rest = smallest-le vs d i n h in
    let less = as_limit-le v (smallest vs d) in omega (arith, rest, less)

pub small_db-ObeysLimit : ObeysLimit small_db
small_db-ObeysLimit sql params w w' r n binds h =
    let same = ok_inj (answer params) r (ap (λ x. x.0) h) in
    let least = smallest-le params 3 binds.index n binds.value in
    let taken = length-take (smallest params 3) stored in
    let fetched : List (SqlValue ℕ ℕ) → Outcome String (List (SqlValue ℕ ℕ)) = λ v. ok v in
    let mapped = length-map fetched (take (smallest params 3) stored) in
    subst (λ x. length x.fetched ≤ n) same (omega (arith, least, taken, mapped))

abbrev pub no_json : Decoder ℕ ℕ
no_json = record { unmarshal = λ s. none; format_time = λ t. "" }

abbrev in_tenant : String → String → Option (Scope ℕ)
in_tenant workspace project = some (tenant ∷ [])

-- Two rows by default, and at most two.
abbrev pub config : EngineConfig ℕ
config = record {
  scope_for = some in_tenant;
  default_limit = pos 0;
  max_limit = pos 2;
  pipe_disabled = false;
  pipe_max_stages = pos 0;
  pipe_max_rows = pos 0;
}

abbrev pub engine : Engine ℕ
engine = engine_of config in_tenant

abbrev pub resolve_any : String → String → Resolver
resolve_any workspace project name = ok people

-- Everyone, with no limit of its own.
abbrev pub everyone : Query ℕ
everyone = record (query_of none) { limit = none }

abbrev cid : Row ℕ
cid = ("name", str "cid") ∷ ("age", num int (pos 9)) ∷ []

abbrev pub page_columns : List ColumnInfo
page_columns =
    record { name = "name"; type = "string"; source = "raw" }
    ∷ record { name = "age"; type = "number"; source = "raw" }
    ∷ []

abbrev first_page : EngineResult ℕ
first_page = record {
  rows = ann ∷ bob ∷ [];
  columns = page_columns;
  total = 2;
  page = some (pos 1);
  page_size = some (pos 2);
  has_more = false;
  scanned = 2;
  returned = 2;
  sources = "people" ∷ [];
}

abbrev nobody : Expander
nobody = record { users = some (λ id. none); teams = none }

abbrev creators : ExpandConfig
creators = record { every = false; columns = "created_by" ∷ [] }

abbrev no_map : Entries → Value ℕ
no_map entries = nil

-- The expansion that asks for the creators of the rows, which have none.
abbrev pub by_creator : Expansion ℕ
by_creator = expansion_of no_map (some nobody) (some creators)

first_page_runs :
    execute_classic toy no_json small_db resolve_any none engine by_creator everyone "w1" "p1" 7
    ≡ (ok first_page, 7)
unfolding execute_classic dql.Sqlgen.Emit.nothing dql.Sqlgen.Emit.bind_value dql.Sqlgen.Emit.write
    dql.Sqlgen.Emit.join_emits dql.Expand.Expander.expand
first_page_runs = refl

keeps_all : KeepsRows by_creator
keeps_all = expansion_of-KeepsRows no_map (some nobody) (some creators)

execute_classic-bound_example :
    (n : ℕ) × (effective_limit engine none ≡ pos n) × (length (ann ∷ bob ∷ []) ≤ n) × (n ≤ 2)
unfolding new_engine
execute_classic-bound_example =
    execute_classic-bound toy no_json small_db resolve_any none engine by_creator everyone "w1" "p1"
      7 7 first_page config refl small_db-ObeysLimit keeps_all refl first_page_runs

abbrev page_plan : QueryPlan ℕ
page_plan = record (plan_of none) {
  pushed_select = [];
  pushed_limit = some (pos 2);
  pushed_offset = some (pos 0);
  columns = page_columns;
}

execute_classic-no_more_example :
    (first_page.total ≡ length first_page.rows) × (first_page.has_more ≡ false)
unfolding new_engine explain_classic dql.Sqlgen.Emit.nothing dql.Sqlgen.Emit.bind_value
    dql.Sqlgen.Emit.write dql.Sqlgen.Emit.join_emits
execute_classic-no_more_example =
    execute_classic-no_more toy no_json small_db resolve_any none engine by_creator everyone "w1"
      "p1" 7 7 first_page config page_plan refl small_db-ObeysLimit keeps_all refl refl
      (omega arith) refl refl first_page_runs

-- At the largest offset that the parser accepts the sum wraps around, and there seem to be more.
offset_wraps : is_before (pos max_int) 1 1 ≡ true
unfolding is_before
offset_wraps = refl
