-- ===== src/Exec/Classic.antt =====
-- `executeClassic` and `explainClassic` of exec/engine.go. The database, the schema resolver, the
-- expression evaluator and the expander of references are parameters. The time that a query takes
-- is left out of its statistics.
use dql.Prelude.{
  ℕ, zero, suc, ◌/◌, String, Bool, false, List, [], ◌∷◌, Option, none, some, Outcome, ok, err,
  ◌>>=◌, map_err, length,
}
use dql.Prelude.Int.{ℤ, pos, negsuc, ltb_ℤ}
use dql.Go.Wrap.{add_int}
use dql.Go.Runtime.{Runtime}
use dql.Go.Value.{Value}
use dql.Go.Row.{Row}
use dql.Dsl.Tree.{Evaluator}
use dql.Dsl.Query.{Query, DatasetInfo, ColumnInfo, QueryPlan}
use dql.Planner.Joins.{Resolver, PlanError}
use dql.Planner.Plan.{plan_query}
use dql.Processor.Process.{ProcessError, process}
use dql.Processor.Steps.{offset_or_zero}
use dql.Sqlgen.Emit.{Sql}
use dql.Sqlgen.Generate.{generate_sql}
use dql.Parser.Normalize.{normalize_aggregate_fns, normalize_order_dir}
use dql.Exec.Scan.{ScanError, Querier, Decoder, execute_sql}
use dql.Exec.Config.{Engine, apply_defaults}

pub data ExecError : Type 0 where
  in_plan : PlanError → ExecError
  in_generate : String → ExecError
  in_execute : ScanError → ExecError
  in_process : ProcessError → ExecError
  in_expand : String → ExecError

-- `dsl.QueryResult` with its `Stats`.
pub record EngineResult (F : Type 0) : Type 0 where
  pub rows : List (Row F)
  pub columns : List ColumnInfo
  pub total : ℕ
  pub page : Option ℤ
  pub page_size : Option ℤ
  pub has_more : Bool
  pub scanned : ℕ
  pub returned : ℕ
  pub sources : List String

-- `1 - n`.
abbrev pub one_minus : ℕ → ℤ
one_minus zero = pos 1
one_minus (suc zero) = pos 0
one_minus (suc (suc n)) = negsuc n

-- `(offset / limit) + 1`, where Go's division rounds towards zero and its sum wraps around.
unfoldable pub page_of : ℤ → ℕ → ℤ
unfolding add_int
page_of (pos o) limit = add_int (pos (o / limit)) 1
page_of (negsuc o) limit = one_minus (suc o / limit)

-- `offset+limit < total`, where the sum wraps around.
unfoldable pub is_before : ℤ → ℕ → ℕ → Bool
unfolding add_int
is_before offset limit total = ltb_ℤ (add_int offset limit) (pos total)

module _ {F : Type 0} where
  -- The pagination metadata, for a limit above zero.
  unfoldable pub with_pages : Option ℤ → Option ℤ → EngineResult F → EngineResult F
  unfolding page_of is_before
  with_pages (some (pos (suc l))) offset r = record r {
    page = some (page_of (offset_or_zero offset) (suc l));
    page_size = some (pos (suc l));
    has_more = is_before (offset_or_zero offset) (suc l) r.total;
  }
  with_pages none offset r = r
  with_pages (some (pos zero)) offset r = r
  with_pages (some (negsuc n)) offset r = r

  -- The result with its statistics, before pagination.
  abbrev pub with_stats : QueryPlan F → ℕ → ℕ → List ColumnInfo → List (Row F) → EngineResult F
  with_stats plan scanned total columns rows = record {
    rows = rows;
    columns = columns;
    total = total;
    page = none;
    page_size = none;
    has_more = false;
    scanned = scanned;
    returned = length rows;
    sources = plan.table_name ∷ [];
  }

-- What `Expand` does to the rows of a result, from a dataset's description: the configuration of
-- the query and the resolvers are fixed. none where the query or the engine has no expansion.
abbrev pub Expansion : Type 0 → Type 0
Expansion F = Option (DatasetInfo → List (Row F) → Outcome String (List (Row F)))

module _ {F : Type 0} where
  abbrev pub expand_rows : Expansion F → DatasetInfo → List (Row F) → Outcome String (List (Row F))
  expand_rows none dataset rows = ok rows
  expand_rows (some f) dataset rows = f dataset rows

module _ (go : Runtime) {T W : Type 0} (decoder : Decoder go.Float T) (db : Querier go.Float T W)
    (schema : String → String → Resolver) (eval : Option (Evaluator go.Float))
    (engine : Engine go.Float) where
  open go use {Float}

  -- The query after `applyDefaults` and the normalisers.
  unfoldable pub prepare : Query Float → Query Float
  unfolding apply_defaults normalize_aggregate_fns normalize_order_dir
  prepare q = normalize_order_dir go (normalize_aggregate_fns go (apply_defaults engine q))

  -- The plan of a prepared query, the query as the planner leaves it, and the statement.
  unfoldable pub plan_statement :
      Query Float
      → String
      → String
      → Outcome ExecError ((QueryPlan Float × Query Float) × (Sql × List (Value Float)))
  unfolding plan_query generate_sql
  plan_statement q workspace project =
      map_err in_plan (plan_query (schema workspace q.project_id) engine.plan_scope q)
      >>= λ planned.
          map_err in_generate (generate_sql go planned.0 (engine.scope_for workspace project))
          >>= λ statement. ok (planned, statement)

  -- What is done to the rows that were scanned.
  unfoldable pub finish :
      Expansion Float
      → QueryPlan Float
      → Query Float
      → ℕ
      → List (Row Float)
      → Outcome ExecError (EngineResult Float)
  unfolding process with_pages
  finish expansion plan q scanned rows =
      map_err in_process (process go eval plan q rows) >>= λ result.
      map_err in_expand (expand_rows expansion plan.dataset result.rows) >>= λ expanded.
      ok
        (with_pages q.limit q.offset (with_stats plan scanned result.total result.columns expanded))

  abbrev pub finish_scan :
      Expansion Float
      → QueryPlan Float
      → Query Float
      → (Outcome ScanError (List (Row Float)) × ℕ) × W
      → Outcome ExecError (EngineResult Float) × W
  finish_scan expansion plan q ((err e, scanned), w) = (err (in_execute e), w)
  finish_scan expansion plan q ((ok rows, scanned), w) = (finish expansion plan q scanned rows, w)

  abbrev pub run_statement :
      Expansion Float
      → Outcome ExecError ((QueryPlan Float × Query Float) × (Sql × List (Value Float)))
      → W
      → Outcome ExecError (EngineResult Float) × W
  run_statement expansion (err e) w = (err e, w)
  run_statement expansion (ok ((plan, q), (sql, params))) w =
      finish_scan expansion plan q (execute_sql decoder db sql params w)

  -- `executeClassic`.
  unfoldable pub execute_classic :
      Expansion Float
      → Query Float
      → String
      → String
      → W
      → Outcome ExecError (EngineResult Float) × W
  unfolding prepare plan_statement finish execute_sql
  execute_classic expansion q workspace project w =
      run_statement expansion (plan_statement (prepare q) workspace project) w

  -- `explainClassic`.
  unfoldable pub explain_classic :
      Query Float → String → String → Outcome ExecError (QueryPlan Float)
  unfolding prepare plan_statement
  explain_classic q workspace project =
      plan_statement (prepare q) workspace project >>= λ r. ok r.0.0
