-- ===== src/Exec/Stream.antt =====
-- `executeClassicStream` of exec/stream.go, and `streamPrefix` of pipe/source.go over it.
use dql.Prelude.{
  ℕ, zero, suc, String, Bool, false, not, ◌&&◌, ◌||◌, List, [], ◌∷◌, Option, none, some, Outcome,
  ok, err, is_nil, contains, if◌then◌else◌,
}
use dql.Prelude.Int.{pos, negsuc}
use dql.Go.Runtime.{Runtime}
use dql.Go.Row.{Row}
use dql.Dsl.Tree.{Evaluator}
use dql.Dsl.Query.{Query, QueryPlan, ColumnInfo}
use dql.Planner.Joins.{Resolver}
use dql.Planner.Plan.{plan_query}
use dql.Pipe.Operator.{PipeError, classic, under}
use dql.Pipe.Execute.{PipePlan}
use dql.Sqlgen.Generate.{generate_sql}
use dql.Exec.Scan.{SqlRows, ScanError, query, get_columns, Querier, Decoder}
use dql.Exec.Config.{Engine}
use dql.Exec.Classic.{ExecError, in_plan, in_generate, prepare}
use dql.Exec.Cursor.{RowSource, cursor_error, drain_rows, drain_fuel}

-- `wantsSourceSignal`.
unfoldable pub wants_source_signal : {F W : Type 0} → PipePlan F W → Bool
wants_source_signal plan = contains plan.stages "sheet"

-- An error of `executeClassicStream`, with what it says in front of it.
pub data StreamError : Type 0 where
  before_query : ExecError → StreamError
  opening : ScanError → StreamError

-- What `streamPrefix` returns where the streaming path applies.
pub record Streamed (F : Type 0) : Type 0 where
  pub rows : List (Row F)
  pub columns : List ColumnInfo
  pub scanned : ℕ
  pub sources : List String
  pub truncated : Bool
  pub complete : Bool

module _ {F : Type 0} where
  -- The limit of the cursor, and the plan that asks for one row more.
  unfoldable pub with_probe : QueryPlan F → ℕ × QueryPlan F
  with_probe plan = elim plan.pushed_limit [
    | none ↦ (0, plan)
    | some (pos zero) ↦ (0, plan)
    | some (pos (suc n)) ↦ (suc n, record plan { pushed_limit = some (pos (suc (suc n))) })
    | some (negsuc n) ↦ (0, plan)
  ]

module _ (go : Runtime) {T W : Type 0} (decoder : Decoder go.Float T) (db : Querier go.Float T W)
    (schema : String → String → Resolver) (eval : Option (Evaluator go.Float))
    (engine : Engine go.Float) where
  open go use {Float}

  abbrev pub open_rows :
      QueryPlan Float
      → ℕ
      → SqlRows Float T
      → Outcome StreamError (Option (RowSource Float T × List ColumnInfo))
  open_rows plan limit r = elim r.columns [
    | err e ↦ err (opening (get_columns e))
    | ok cols ↦ ok (
        some (
          record {
            rest = r.fetched;
            end_error = r.end_error;
            cols = cols;
            limit = limit;
            table = plan.table_name;
            count = 0;
            failed = none;
            truncated = false;
          },
          plan.columns,
        ))
  ]

  abbrev pub opened :
      QueryPlan Float
      → ℕ
      → Outcome String (SqlRows Float T) × W
      → Outcome StreamError (Option (RowSource Float T × List ColumnInfo)) × W
  opened plan limit (err e, w) = (err (opening (query e)), w)
  opened plan limit (ok r, w) = (open_rows plan limit r, w)

  -- What follows the plan: none where there is something left to do in memory.
  unfoldable pub open_plan :
      Bool
      → QueryPlan Float
      → String
      → String
      → W
      → Outcome StreamError (Option (RowSource Float T × List ColumnInfo)) × W
  unfolding with_probe generate_sql
  open_plan expands plan workspace project w =
      if not (is_nil plan.in_memory) || expands
      then (ok none, w)
      else elim (generate_sql go (with_probe plan).1 (engine.scope_for workspace project)) [
        | err e ↦ (err (before_query (in_generate e)), w)
        | ok statement ↦ opened plan (with_probe plan).0 (db statement.0 statement.1 w)
      ]

  -- `executeClassicStream`; `expands` is whether the query has an expansion.
  unfoldable pub execute_classic_stream :
      Bool
      → Query Float
      → String
      → String
      → W
      → Outcome StreamError (Option (RowSource Float T × List ColumnInfo)) × W
  unfolding prepare plan_query open_plan
  execute_classic_stream expands q workspace project w =
      let p = prepare go decoder db schema eval engine q in
      elim (plan_query (schema workspace p.project_id) engine.plan_scope p) [
        | err e ↦ (err (before_query (in_plan e)), w)
        | ok planned ↦ open_plan expands planned.0 workspace project w
      ]

  abbrev pub streamed_of :
      String → List ColumnInfo → (List (Row Float) × Bool) × RowSource Float T → Streamed Float
  streamed_of table columns d =
      let complete = not d.0.1 && not d.1.truncated in
      record {
        rows = d.0.0;
        columns = columns;
        scanned = d.1.count;
        sources = table ∷ [];
        truncated = d.1.truncated || not complete;
        complete = complete;
      }

  abbrev pub finish_drain :
      String
      → List ColumnInfo
      → (List (Row Float) × Bool) × RowSource Float T
      → Outcome ScanError (Streamed Float)
  finish_drain table columns d = elim (cursor_error decoder d.1) [
    | some e ↦ err e
    | none ↦ ok (streamed_of table columns d)
  ]

  -- The rest of `streamPrefix`: the cursor is drained, and what it says is read.
  unfoldable pub drain_prefix :
      ℕ → RowSource Float T × List ColumnInfo → Outcome ScanError (Streamed Float)
  unfolding drain_rows
  drain_prefix max_rows (s, columns) =
      finish_drain s.table columns (drain_rows decoder (drain_fuel decoder s) max_rows [] s)

  abbrev pub drained_prefix :
      (StreamError → String)
      → (ScanError → String)
      → ℕ
      → Outcome StreamError (Option (RowSource Float T × List ColumnInfo)) × W
      → Outcome PipeError (Option (Streamed Float)) × W
  drained_prefix describe describe_scan max_rows (err e, w) =
      (err (under "pipe: classic prefix stream" (classic (describe e))), w)
  drained_prefix describe describe_scan max_rows (ok none, w) = (ok none, w)
  drained_prefix describe describe_scan max_rows (ok (some s), w) = (
    elim (drain_prefix max_rows s) [
      | err e ↦ err (under "pipe: read prefix" (classic (describe_scan e)))
      | ok streamed ↦ ok (some streamed)
    ],
    w,
  )

  -- `streamPrefix`, over this engine's adapter; none where the streaming path does not apply. The
  -- query that a pipe pushes has no expansion.
  unfoldable pub stream_prefix :
      (StreamError → String)
      → (ScanError → String)
      → PipePlan Float W
      → Query Float
      → String
      → String
      → W
      → Outcome PipeError (Option (Streamed Float)) × W
  unfolding execute_classic_stream drain_prefix wants_source_signal
  stream_prefix describe describe_scan plan pushed workspace project w =
      if not (wants_source_signal plan)
      then (ok none, w)
      else drained_prefix describe describe_scan engine.pipe.max_rows
          (execute_classic_stream false pushed workspace project w)
