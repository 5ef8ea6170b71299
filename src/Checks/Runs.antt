-- ===== src/Checks/Runs.antt =====
-- The theorems on the prefix of a pipe and on whole runs of the engine, at the data of Engine.
use dql.Prelude.{ℕ, ◌≤◌, String, true, false, ◌≡◌, refl, [], ◌∷◌, none, some, ok, length}
use dql.Go.Value.{str, bool}
use dql.Dsl.Query.{Query}
use dql.Sqlgen.Emit.{Sql}
use dql.Exec.Scan.{fill_columns}
use dql.Exec.Config.{new_engine}
use dql.Exec.Classic.{execute_classic}
use dql.Exec.Stream.{wants_source_signal, Streamed, drain_prefix}
use dql.Exec.Drained.{source_at}
use dql.Exec.Complete.{drain_prefix-exact}
use dql.Pipe.Execute.{PipePlan, Run, apply_in_memory_ops}
use dql.Pipe.Plan.{plan_pipe}
use dql.Pipe.Detailed.{ClassicResult, ExecResult, prefix_query}
use dql.Exec.Dispatch.{Describe, AnyQuery, adapter_execute, run_pipe}
use dql.Exec.Clipped.{run_pipe-clipped}
use dql.Exec.Ignored.{asking, execute_classic-ignored}
use dql.Checks.Pipes.{read_all, tap_stage, tap, taps}
use dql.Checks.{toy, yes, ann, bob}
use dql.Checks.Engine.{
  columns, stored, small_db, no_json, config, engine, resolve_any, everyone, page_columns,
  by_creator, small_db-ObeysLimit,
}

-- A pipe of one stage that keeps the rows as they are, behind a query with no limit of its own.
abbrev tap_query : AnyQuery String ℕ
tap_query = record {
  is_pipe_mode = true;
  query = everyone;
  stages = tap_stage ∷ [];
  collects_stats = false;
}

abbrev tapped : PipePlan ℕ ℕ
tapped = record {
  pushed = everyone;
  ops = tap ∷ [];
  pushed_stages = [];
  stages = "tap" ∷ [];
  ids = "seen" ∷ [];
  froms = "" ∷ [];
}

abbrev no_text : Describe
no_text = record { exec = λ e. "failed"; stream = λ e. "failed"; scan = λ e. "failed" }

abbrev tap_result : ExecResult ℕ ℕ
tap_result = record {
  rows = ann ∷ bob ∷ [];
  columns =
      record { name = "age"; type = "number"; source = "computed" }
      ∷ record { name = "name"; type = "string"; source = "computed" }
      ∷ [];
  total = 2;
  scanned = 2;
  returned = 2;
  sources = "people" ∷ [];
  stats = [];
  truncated = false;
  plan = tapped;
  primed_rows = ann ∷ bob ∷ [];
  primed_at = 0;
  primed_outputs = [];
}

run_pipe-clipped_example :
    (base : ClassicResult ℕ) × (run : Run ℕ) × (mid : ℕ) × (adapter_execute toy no_json small_db
        resolve_any none engine read_all taps no_text "w1" "p1"
        (prefix_query engine.pipe tapped)
        7
      ≡ (ok base, mid))
    × (length base.rows ≤ 2)
    × (apply_in_memory_ops engine.pipe tapped false base.rows mid ≡ (ok run, 7))
    × (tap_result.rows ≡ run.rows)
    × (tap_result.truncated ≡ false)
unfolding new_engine run_pipe plan_pipe wants_source_signal dql.Sqlgen.Emit.nothing
    dql.Sqlgen.Emit.bind_value dql.Sqlgen.Emit.write dql.Sqlgen.Emit.join_emits
run_pipe-clipped_example =
    run_pipe-clipped toy no_json small_db resolve_any none engine read_all taps no_text config
      tap_query tapped "w1" "p1" tap_result 7 7 refl small_db-ObeysLimit refl refl refl refl

drain_prefix-exact_example :
    (streamed : Streamed ℕ) × (drain_prefix toy no_json small_db resolve_any none engine 100
        (source_at no_json columns 2 "people" none 0 stored, page_columns)
      ≡ ok streamed)
    × (streamed.rows ≡ ann ∷ bob ∷ [])
    × (streamed.complete ≡ false)
    × (streamed.truncated ≡ true)
unfolding fill_columns
drain_prefix-exact_example =
    drain_prefix-exact toy no_json small_db resolve_any none engine columns 2 100 "people"
      page_columns stored

-- Everyone, with a column that says who is of age.
abbrev grown_up : Query ℕ
grown_up = record everyone { computed = record { name = "adult"; expr = "age >= 18" } ∷ [] }

execute_classic-ignored_example :
    execute_classic toy no_json small_db resolve_any
      (some yes)
      engine
      by_creator
      (asking "adult" grown_up "==" (bool true))
      "w1"
      "p1"
      7
    ≡ execute_classic toy no_json small_db resolve_any
        (some yes)
        engine
        by_creator
        (asking "adult" grown_up "!=" (str "never"))
        "w1"
        "p1"
        7
execute_classic-ignored_example =
    execute_classic-ignored toy no_json small_db resolve_any (some yes) engine by_creator "adult"
      grown_up "==" "!=" (bool true) (str "never") "w1" "p1" 7 refl refl refl refl
