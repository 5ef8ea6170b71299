-- ===== src/Exec/Dispatch.antt =====
-- The rest of exec/engine.go: `Execute` and `Explain`, which tell the two forms of a query apart,
-- `ExecutePipeDetailed` and its kin, and `classicEngineAdapter`. A pipe's expansion never runs: the
-- query that the pipe pushes has none. The signal that a cursor's rows are complete, which only a
-- sheet reads, is not passed to the tail. `Explain` of pipe/executor.go stands here too.
use dql.Prelude.{
  ℕ, String, Bool, false, not, length, ltb, List, Option, none, some, Outcome, ok, err, ◌>>=◌,
  map_err, ◌++◌, if◌then◌else◌,
}
use dql.Prelude.Int.{ℤ}
use dql.Go.Runtime.{Runtime}
use dql.Go.Row.{Row}
use dql.Dsl.Tree.{Evaluator}
use dql.Dsl.Query.{Query, QueryPlan}
use dql.Planner.Joins.{Resolver}
use dql.Pipe.Operator.{PipeError, too_many_stages, Stage, Factory, ◌then◌}
use dql.Pipe.Execute.{PipePlan, Outputs, apply_in_memory_ops, execute_from_stage}
use dql.Pipe.Moves.{Codec}
use dql.Pipe.Plan.{plan_pipe}
use dql.Pipe.Detailed.{
  ClassicResult, ExecResult, exec_result, run_tail, prefix_query, in_world, classic_error,
  execute_detailed_on_rows,
}
use dql.Exec.Scan.{ScanError, Querier, Decoder}
use dql.Exec.Config.{Engine}
use dql.Exec.Classic.{ExecError, EngineResult, Expansion, execute_classic, explain_classic}
use dql.Exec.Stream.{StreamError, Streamed, stream_prefix}

pub data EngineError : Type 0 where
  -- "ExecutePipeDetailed: query is not in pipe mode"
  not_pipe : EngineError
  -- "pipe-mode queries are disabled in this engine configuration"
  pipe_disabled : EngineError
  of_classic : ExecError → EngineError
  of_pipe : PipeError → EngineError

-- A `QueryDSL` with the fields that make it a pipe: its mode, its stages, and whether it wants the
-- statistics of each.
pub record AnyQuery (J F : Type 0) : Type 0 where
  pub is_pipe_mode : Bool
  pub query : Query F
  pub stages : List (Stage J)
  pub collects_stats : Bool

-- What `Execute` returns: of a pipe, with the snapshot that `ExecuteDetailed` adds.
pub data AnyResult (F W : Type 0) : Type 0 where
  classic_result : EngineResult F → AnyResult F W
  pipe_result : ExecResult F W → AnyResult F W

module _ {F : Type 0} where
  abbrev pub as_prefix : Streamed F → ClassicResult F
  as_prefix st = record {
    rows = st.rows;
    columns = st.columns;
    scanned = st.scanned;
    sources = st.sources;
    truncated = st.truncated;
  }

  abbrev pub as_columns : EngineResult F → ClassicResult F
  as_columns r = record {
    rows = r.rows;
    columns = r.columns;
    scanned = r.scanned;
    sources = r.sources;
    truncated = false;
  }

module _ {W A : Type 0} where
  abbrev pub pipe_outcome : Outcome PipeError A × W → Outcome EngineError A × W
  pipe_outcome (ok r, w) = (ok r, w)
  pipe_outcome (err e, w) = (err (of_pipe e), w)

module _ {F W : Type 0} where
  abbrev pub classic_outcome :
      Outcome ExecError (EngineResult F) × W → Outcome EngineError (AnyResult F W) × W
  classic_outcome (ok r, w) = (ok (classic_result r), w)
  classic_outcome (err e, w) = (err (of_classic e), w)

  abbrev pub as_any :
      Outcome EngineError (ExecResult F W) × W → Outcome EngineError (AnyResult F W) × W
  as_any (ok r, w) = (ok (pipe_result r), w)
  as_any (err e, w) = (err e, w)

-- What `Error` says of an error, where the pipe wraps it.
pub record Describe : Type 0 where
  pub exec : ExecError → String
  pub stream : StreamError → String
  pub scan : ScanError → String

module _ {F W : Type 0} where
  -- `classicEngineAdapter`: what the pipe's executor reads of a classic run.
  abbrev pub adapted :
      (ExecError → String)
      → Outcome ExecError (EngineResult F) × W
      → Outcome String (ClassicResult F) × W
  adapted describe (ok r, w) = (ok (as_columns r), w)
  adapted describe (err e, w) = (err (describe e), w)

module _ (go : Runtime) {J T W : Type 0} (decoder : Decoder go.Float T) (db : Querier go.Float T W)
    (schema : String → String → Resolver) (eval : Option (Evaluator go.Float))
    (engine : Engine go.Float) (codec : Codec J go.Float)
    (registry : List (String × Factory J go.Float W)) (describe : Describe) where
  open go use {Float}

  -- `classicEngineAdapter.Execute`.
  unfoldable pub adapter_execute :
      String → String → Query Float → W → Outcome String (ClassicResult Float) × W
  unfolding execute_classic
  adapter_execute workspace project q w =
      adapted describe.exec
        (execute_classic go decoder db schema eval engine none q workspace project w)

  -- The tail over the rows that a cursor gave, which are no more than the executor's cap.
  abbrev pub streamed_tail :
      Bool → PipePlan Float W → Streamed Float → W → Outcome PipeError (ExecResult Float W) × W
  streamed_tail collect plan st w =
      apply_in_memory_ops engine.pipe plan collect st.rows w then λ run w'.
      (ok (exec_result plan (as_prefix st) run), w')

  -- `ExecuteDetailed` behind the plan: the prefix through a cursor, if that applies, or whole.
  abbrev pub run_plan :
      Bool → PipePlan Float W → String → String → W → Outcome PipeError (ExecResult Float W) × W
  run_plan collect plan workspace project w =
      let pushed = prefix_query engine.pipe plan in
      stream_prefix go decoder db schema eval engine describe.stream describe.scan plan pushed
        workspace project w
      then λ streamed w1. elim streamed [
        | none ↦ classic_error (adapter_execute workspace project pushed w1) then λ base w2.
            run_tail engine.pipe collect plan base w2
        | some st ↦ streamed_tail collect plan st w1
      ]

  -- The executor's `ExecuteDetailed` with this engine below it.
  unfoldable pub run_pipe :
      AnyQuery J Float → String → String → W → Outcome PipeError (ExecResult Float W) × W
  unfolding adapter_execute plan_pipe stream_prefix apply_in_memory_ops run_tail
  run_pipe q workspace project w =
      if ltb engine.pipe.max_stages (length q.stages)
      then (err (too_many_stages (length q.stages) engine.pipe.max_stages), w)
      else (in_world (plan_pipe codec registry (some q.query) q.stages) w then λ plan w1.
          run_plan q.collects_stats plan workspace project w1)

  -- `Execute`.
  unfoldable pub execute :
      Expansion Float
      → AnyQuery J Float
      → String
      → String
      → W
      → Outcome EngineError (AnyResult Float W) × W
  unfolding run_pipe execute_classic
  execute expansion q workspace project w =
      if q.is_pipe_mode
      then (if engine.pipe_disabled
          then (err pipe_disabled, w)
          else as_any (pipe_outcome (run_pipe q workspace project w)))
      else classic_outcome
          (execute_classic go decoder db schema eval engine expansion q.query workspace project w)

  -- `ExecutePipeDetailed`.
  unfoldable pub execute_pipe_detailed :
      AnyQuery J Float → String → String → W → Outcome EngineError (ExecResult Float W) × W
  unfolding run_pipe
  execute_pipe_detailed q workspace project w =
      if not q.is_pipe_mode
      then (err not_pipe, w)
      else if engine.pipe_disabled
      then (err pipe_disabled, w)
      else pipe_outcome (run_pipe q workspace project w)

  -- `PlanPipeOnly`.
  unfoldable pub plan_pipe_only : AnyQuery J Float → Outcome EngineError (PipePlan Float W)
  unfolding plan_pipe
  plan_pipe_only q =
      if engine.pipe_disabled
      then err pipe_disabled
      else map_err of_pipe (plan_pipe codec registry (some q.query) q.stages)

  -- `ExecutePipeDetailedOnRows`, on a prefix that is not nil.
  unfoldable pub execute_pipe_detailed_on_rows :
      AnyQuery J Float
      → PipePlan Float W
      → ClassicResult Float
      → W
      → Outcome EngineError (ExecResult Float W) × W
  unfolding execute_detailed_on_rows
  execute_pipe_detailed_on_rows q plan pre w =
      if engine.pipe_disabled
      then (err pipe_disabled, w)
      else pipe_outcome
          (execute_detailed_on_rows engine.pipe q.collects_stats (length q.stages) plan pre w)

  -- `ReExecutePipeFromStage`.
  unfoldable pub re_execute_pipe_from_stage :
      PipePlan Float W
      → ℕ
      → List (Row Float)
      → Outputs Float
      → W
      → Outcome EngineError (List (Row Float)) × W
  unfolding execute_from_stage
  re_execute_pipe_from_stage plan primed_at rows outputs w =
      pipe_outcome (execute_from_stage engine.pipe plan primed_at rows outputs w)

  -- `PipeRowCap`.
  unfoldable pub pipe_row_cap : ℤ
  pipe_row_cap = engine.pipe_max_rows

  abbrev pub with_stages : List String → QueryPlan Float → QueryPlan Float
  with_stages stages plan = record plan { in_memory = plan.in_memory ++ stages }

  -- `Explain` of a pipe, of pipe/executor.go, with the classic engine's below it.
  unfoldable pub explain_pipe :
      AnyQuery J Float → String → String → Outcome EngineError (QueryPlan Float)
  unfolding plan_pipe explain_classic
  explain_pipe q workspace project =
      map_err of_pipe (plan_pipe codec registry (some q.query) q.stages) >>= λ plan.
      map_err of_classic
        (explain_classic go decoder db schema eval engine plan.pushed workspace project)
      >>= λ classic. ok (with_stages plan.stages classic)

  -- `Explain`.
  unfoldable pub explain :
      AnyQuery J Float → String → String → Outcome EngineError (QueryPlan Float)
  unfolding explain_pipe explain_classic
  explain q workspace project =
      if q.is_pipe_mode
      then (if engine.pipe_disabled then err pipe_disabled else explain_pipe q workspace project)
      else map_err of_classic
          (explain_classic go decoder db schema eval engine q.query workspace project)
