-- ===== src/Pipe/Execute.antt =====
-- The executor of pipe/executor.go: the run of the in-memory tail, and the replay of a part of it.
-- The telemetry of times is left out. A copy of rows (`cloneRows`) is the rows themselves here.
use dql.Prelude.{
  ℕ, suc, ◌+◌, String, Bool, true, false, not, List, [], ◌∷◌, ◌++◌, Option, none, some, Outcome, ok,
  err, length, get_or, take, drop, ltb, is_nil, str_eq, if◌then◌else◌,
}
use dql.Prelude.Int.{ℤ, pos, negsuc, pos_part}
use dql.Go.Row.{Row, lookup, put}
use dql.Dsl.Query.{Query, ColumnInfo}
use dql.Pipe.Operator.{
  PipeError, too_many_stages, prefix_too_large, op_too_large, no_cached_output, primed_out_of_range,
  nil_plan, at_stage, under, Operator, ◌then◌, wrapping,
}
pub mod Steps
pub mod Inputs
pub mod Quiet
pub mod Replay

pub record ExecutorConfig : Type 0 where
  pub max_stages : ℕ
  pub max_rows : ℕ

abbrev pub default_to : ℕ → ℤ → ℕ
default_to d (pos (suc n)) = suc n
default_to d n = d

-- The limits that `NewExecutor` makes of a configuration.
unfoldable pub new_config : ℤ → ℤ → ExecutorConfig
new_config stages rows = record {
  max_stages = default_to 32 stages;
  max_rows = default_to 100000 rows;
}

module _ (F W : Type 0) where
  -- `PipePlan`.
  pub record PipePlan : Type 0 where
    pub pushed : Query F
    pub ops : List (Operator F W)
    pub pushed_stages : List String
    pub stages : List String
    pub ids : List String
    pub froms : List String

module _ (F : Type 0) where
  abbrev pub Outputs : Type 0
  Outputs = List (String × List (Row F))

  -- `dsl.PipeStageStat`, less the time.
  pub record StageStat : Type 0 where
    pub index : ℕ
    pub id : String
    pub op : String
    pub label : String
    pub rows_in : ℕ
    pub rows_out : ℕ
    pub sample : List (Row F)

  -- The variables of the loop of `applyInMemoryOps`.
  pub record Run : Type 0 where
    pub rows : List (Row F)
    pub outputs : Outputs
    pub primed_rows : List (Row F)
    pub primed_at : ℕ
    pub primed_outputs : Outputs
    pub stats : List StageStat

-- `stageIDAt` and `stageFromAt`: the empty text out of range.
abbrev pub stage_id_at : {F W : Type 0} → PipePlan F W → ℕ → String
stage_id_at plan i = get_or plan.ids i ""

abbrev pub stage_from_at : {F W : Type 0} → PipePlan F W → ℕ → String
stage_from_at plan i = get_or plan.froms i ""

module _ {F W : Type 0} (cfg : ExecutorConfig) (plan : PipePlan F W) where
  -- The number that an error names a stage of the tail by.
  abbrev pub stage_number : ℕ → ℕ
  stage_number i = length plan.pushed_stages + i

  -- `input`: what the stage named by `from` left, or the rows that came before.
  unfoldable pub input_at :
      ℕ → Operator F W → Outputs F → List (Row F) → Outcome PipeError (List (Row F))
  input_at i op outputs rows =
      if str_eq (stage_from_at plan i) ""
      then ok rows
      else elim (lookup outputs (stage_from_at plan i)) [
        | none ↦ err (no_cached_output (stage_number i) op.name (stage_from_at plan i))
        | some cached ↦ ok cached
      ]

  -- `Apply`, and the check of what it returns.
  unfoldable pub apply_op :
      ℕ → Operator F W → List (Row F) → W → Outcome PipeError (List (Row F)) × W
  apply_op i op input w =
      wrapping (at_stage (stage_number i) op.name) (op.apply input w) then λ out w'.
      if ltb cfg.max_rows (length out)
      then (err (op_too_large op.name (length out) cfg.max_rows), w')
      else (ok out, w')

  -- A named stage's output is kept.
  unfoldable pub store_output : ℕ → Outputs F → List (Row F) → Outputs F
  unfolding put
  store_output i outputs out =
      if str_eq (stage_id_at plan i) "" then outputs else put outputs (stage_id_at plan i) out

  abbrev pub sample_size : ℕ
  sample_size = 5

  abbrev pub stat_of : ℕ → Operator F W → List (Row F) → List (Row F) → StageStat F
  stat_of i op input out = record {
    index = stage_number i;
    id = stage_id_at plan i;
    op = op.name;
    label = op.label;
    rows_in = length input;
    rows_out = length out;
    sample = take sample_size out;
  }

  -- The end of a round of the loop, after a stage that is live-safe or not.
  abbrev pub next_run : Bool → ℕ → Run F → List (Row F) → Outputs F → List (StageStat F) → Run F
  next_run true i run out outputs stats = record run {
    rows = out;
    outputs = outputs;
    stats = stats;
  }
  next_run false i run out outputs stats = record {
    rows = out;
    outputs = outputs;
    primed_rows = out;
    primed_at = suc i;
    primed_outputs = outputs;
    stats = stats;
  }

  -- What each round of either loop begins with: the input, and what the operator makes of it.
  unfoldable pub produce :
      ℕ
      → Operator F W
      → Outputs F
      → List (Row F)
      → W
      → Outcome PipeError (List (Row F) × List (Row F)) × W
  unfolding input_at apply_op
  produce i op outputs rows w = (input_at i op outputs rows, w) then λ input w1.
      apply_op i op input w1 then λ out w2. (ok (input, out), w2)

  -- One round of the loop of `applyInMemoryOps`.
  unfoldable pub run_stage : Bool → ℕ → Operator F W → Run F → W → Outcome PipeError (Run F) × W
  unfolding produce store_output
  run_stage collect i op run w = produce i op run.outputs run.rows w then λ io w'.
      let stats = if collect then run.stats ++ stat_of i op io.0 io.1 ∷ [] else run.stats in
      (ok (next_run op.live_safe i run io.1 (store_output i run.outputs io.1) stats), w')

  unfoldable pub run_stages :
      Bool → ℕ → List (Operator F W) → Run F → W → Outcome PipeError (Run F) × W
  unfolding run_stage
  run_stages collect i [] run w = (ok run, w)
  run_stages collect i (op ∷ ops) run w =
      run_stage collect i op run w then λ run' w'. run_stages collect (suc i) ops run' w'

  -- The variables at the start of `applyInMemoryOps`.
  abbrev pub start_run : List (Row F) → Run F
  start_run rows = record {
    rows = rows;
    outputs = [];
    primed_rows = rows;
    primed_at = 0;
    primed_outputs = [];
    stats = [];
  }

  -- The loop of `applyInMemoryOps` over the whole tail.
  unfoldable pub apply_in_memory_ops : Bool → List (Row F) → W → Outcome PipeError (Run F) × W
  unfolding run_stages
  apply_in_memory_ops collect rows w = run_stages collect 0 plan.ops (start_run rows) w

  -- One round of the loop of `ExecuteFromStage`: a stage that is not live-safe is skipped.
  unfoldable pub replay_stage :
      ℕ
      → Operator F W
      → List (Row F)
      → Outputs F
      → W
      → Outcome PipeError (List (Row F) × Outputs F) × W
  unfolding produce store_output
  replay_stage i op rows outputs w =
      if op.live_safe
      then (produce i op outputs rows w then λ io w'. (ok (io.1, store_output i outputs io.1), w'))
      else (ok (rows, outputs), w)

  unfoldable pub replay_stages :
      ℕ
      → List (Operator F W)
      → List (Row F)
      → Outputs F
      → W
      → Outcome PipeError (List (Row F) × Outputs F) × W
  unfolding replay_stage
  replay_stages i [] rows outputs w = (ok (rows, outputs), w)
  replay_stages i (op ∷ ops) rows outputs w =
      replay_stage i op rows outputs w then λ r w'. replay_stages (suc i) ops r.0 r.1 w'

  -- `ExecuteFromStage`, on a plan that is not nil: the rows of its result.
  unfoldable pub execute_from_stage :
      ℕ → List (Row F) → Outputs F → W → Outcome PipeError (List (Row F)) × W
  unfolding replay_stages
  execute_from_stage primed_at primed_rows primed_outputs w =
      if ltb (length plan.ops) primed_at
      then (err (primed_out_of_range primed_at (length plan.ops)), w)
      else (replay_stages primed_at (drop primed_at plan.ops) primed_rows primed_outputs w
          then λ r w'. (ok r.0, w'))
