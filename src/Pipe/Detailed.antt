-- ===== src/Pipe/Detailed.antt =====
-- `ExecuteDetailed` and `ExecuteDetailedOnRows` of pipe/executor.go, for a classic engine that does
-- not stream, and the classification of a plan (pipe/classify.go). The classic engine is a
-- parameter.
use dql.Prelude.{
  ℕ, suc, String, Bool, true, false, not, ◌&&◌, List, [], ◌∷◌, map, Option, none, some, Outcome, ok,
  err, length, ltb, is_nil, if◌then◌else◌,
}
use dql.Prelude.Int.{ℤ, pos}
use dql.Go.Row.{Row}
use dql.Dsl.Query.{Query, ColumnInfo}
use dql.Pipe.Operator.{
  PipeError, classic, too_many_stages, prefix_too_large, under, Stage, Operator, Factory, ◌then◌,
  wrapping,
}
use dql.Pipe.Execute.{ExecutorConfig, PipePlan, Outputs, StageStat, Run, apply_in_memory_ops}
use dql.Pipe.Moves.{Codec}
use dql.Pipe.Plan.{plan_pipe}
use dql.Pipe.Columns.{derive_columns}
pub mod Bounds

abbrev pub or_limit : Option ℤ → ℕ → Option ℤ
or_limit none n = some (pos n)
or_limit (some l) n = some l

abbrev pub or_app : List String → List String
or_app [] = "app" ∷ []
or_app (s ∷ ss) = s ∷ ss

module _ (F : Type 0) where
  -- What the classic engine returns: the rows, and what the executor reads of the rest.
  pub record ClassicResult : Type 0 where
    pub rows : List (Row F)
    pub columns : List ColumnInfo
    pub scanned : ℕ
    pub sources : List String
    pub truncated : Bool

module _ (F W : Type 0) where
  -- `ExecResult`, with the result's fields.
  pub record ExecResult : Type 0 where
    pub rows : List (Row F)
    pub columns : List ColumnInfo
    pub total : ℕ
    pub scanned : ℕ
    pub returned : ℕ
    pub sources : List String
    pub stats : List (StageStat F)
    pub truncated : Bool
    pub plan : PipePlan F W
    pub primed_rows : List (Row F)
    pub primed_at : ℕ
    pub primed_outputs : Outputs F

module _ {F W : Type 0} where
  -- The result that `applyInMemoryOps` returns.
  abbrev pub exec_result : PipePlan F W → ClassicResult F → Run F → ExecResult F W
  exec_result plan base run = record {
    rows = run.rows;
    columns = if is_nil plan.ops then base.columns else derive_columns run.rows;
    total = length run.rows;
    scanned = base.scanned;
    returned = length run.rows;
    sources = base.sources;
    stats = run.stats;
    truncated = base.truncated;
    plan = plan;
    primed_rows = run.primed_rows;
    primed_at = run.primed_at;
    primed_outputs = run.primed_outputs;
  }

  -- The tail over a result of the prefix, if that is not too large.
  unfoldable pub run_tail :
      ExecutorConfig
      → Bool
      → PipePlan F W
      → ClassicResult F
      → W
      → Outcome PipeError (ExecResult F W) × W
  unfolding apply_in_memory_ops derive_columns
  run_tail cfg collect plan base w =
      if ltb cfg.max_rows (length base.rows)
      then (err (prefix_too_large (length base.rows) cfg.max_rows), w)
      else (apply_in_memory_ops cfg plan collect base.rows w then λ run w'.
          (ok (exec_result plan base run), w'))

  -- The query for the prefix: in front of a tail it has a limit.
  abbrev pub prefix_query : ExecutorConfig → PipePlan F W → Query F
  prefix_query cfg plan =
      if is_nil plan.ops
      then plan.pushed
      else record plan.pushed { limit = or_limit plan.pushed.limit cfg.max_rows }

  abbrev pub in_world : Outcome PipeError (PipePlan F W) → W → Outcome PipeError (PipePlan F W) × W
  in_world r w = (r, w)

  abbrev pub classic_error :
      Outcome String (ClassicResult F) × W → Outcome PipeError (ClassicResult F) × W
  classic_error (ok r, w) = (ok r, w)
  classic_error (err e, w) = (err (under "pipe: classic prefix" (classic e)), w)

module _ {J F W : Type 0} (codec : Codec J F) (registry : List (String × Factory J F W))
    (execute : Query F → W → Outcome String (ClassicResult F) × W) where
  -- `ExecuteDetailed`.
  unfoldable pub execute_detailed :
      ExecutorConfig
      → Bool
      → Option (Query F)
      → List (Stage J)
      → W
      → Outcome PipeError (ExecResult F W) × W
  unfolding plan_pipe run_tail
  execute_detailed cfg collect q stages w =
      if ltb cfg.max_stages (length stages)
      then (err (too_many_stages (length stages) cfg.max_stages), w)
      else (in_world (plan_pipe codec registry q stages) w then λ plan w1.
          classic_error (execute (prefix_query cfg plan) w1) then λ base w2.
          run_tail cfg collect plan base w2)

module _ {F W : Type 0} where
  -- `ExecuteDetailedOnRows`, on a prefix that is not nil.
  unfoldable pub execute_detailed_on_rows :
      ExecutorConfig
      → Bool
      → ℕ
      → PipePlan F W
      → ClassicResult F
      → W
      → Outcome PipeError (ExecResult F W) × W
  unfolding run_tail
  execute_detailed_on_rows cfg collect stages plan pre w =
      if ltb cfg.max_stages stages
      then (err (too_many_stages stages cfg.max_stages), w)
      else run_tail cfg collect plan
          (record pre { scanned = length pre.rows; sources = or_app pre.sources }) w

-- `Classification`.
pub record Classification : Type 0 where
  pub unsafe_stages : List String
  pub unsafe_indices : List ℕ

module _ {F W : Type 0} where
  -- The loop of `Classify`, from index `i`.
  abbrev pub classify_from : ℕ → List (Operator F W) → List (String × ℕ)
  classify_from i [] = []
  classify_from i (op ∷ ops) =
      let rest = classify_from (suc i) ops in if op.live_safe then rest else (op.name, i) ∷ rest

  -- `Classify`, on a plan that is not nil.
  unfoldable pub classify : PipePlan F W → Classification
  classify plan = record {
    unsafe_stages = map (λ e. e.0) (classify_from 0 plan.ops);
    unsafe_indices = map (λ e. e.1) (classify_from 0 plan.ops);
  }

-- `Classification.IsLiveSafe`.
abbrev pub is_live_safe : Classification → Bool
is_live_safe c = is_nil c.unsafe_stages
