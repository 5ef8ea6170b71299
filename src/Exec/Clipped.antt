-- ===== src/Exec/Clipped.antt =====
-- What the classic engine gives a pipe for its prefix (exec/engine.go, pipe/executor.go).
use dql.Prelude.{
  ℕ, ◌≤◌, String, false, ◌≡◌, refl, sym, ap, List, Option, none, some, Outcome, ok, err, arith,
  length, ltb, is_nil, Bool-cases, inl, inr, ok_inj, ◌∙◌, if◌then◌else◌, if-true, if-false,
}
use dql.Prelude.Int.{ℤ, pos_part}
use dql.Go.Runtime.{Runtime}
use dql.Dsl.Tree.{Evaluator}
use dql.Planner.Joins.{Resolver}
use dql.Parser.Validate.{is_negative}
use dql.Pipe.Operator.{PipeError, too_many_stages, Factory, ◌then◌, then_ok, ok_same}
use dql.Pipe.Execute.{PipePlan, Run, apply_in_memory_ops}
use dql.Pipe.Moves.{Codec}
use dql.Pipe.Detailed.{
  ClassicResult, ExecResult, exec_result, classic_error, run_tail, or_limit, prefix_query,
  execute_detailed,
}
use dql.Exec.Scan.{Querier, Decoder}
use dql.Exec.Config.{EngineConfig, Engine, new_engine}
use dql.Exec.Classic.{ExecError, EngineResult}
use dql.Exec.Dispatch.{Describe, as_columns, adapted, adapter_execute, AnyQuery, run_pipe}
use dql.Exec.Stream.{wants_source_signal, stream_prefix}
use dql.Pipe.Plan.{plan_pipe}
use dql.Exec.Bounds.{ObeysLimit}
use dql.Exec.Paged.{execute_classic-bound}

prefix_limit :
    {F W : Type 0} (plan : PipePlan F W) (rows stages : ℕ)
    → is_negative plan.pushed.limit ≡ false
    → is_negative (prefix_query (record { max_stages = stages; max_rows = rows }) plan).limit
      ≡ false
prefix_limit plan rows stages h = elim (Bool-cases (is_nil plan.ops)) [
  | inl b ↦ rw b h
  | inr b ↦ rw b (given plan.pushed.limit h)
]
  where
    given : (l : Option ℤ) → is_negative l ≡ false → is_negative (or_limit l rows) ≡ false
    given none h = refl
    given (some n) h = h

adapted_ok :
    {F W : Type 0} (describe : ExecError → String) (a : Outcome ExecError (EngineResult F) × W)
    (base : ClassicResult F) (w' : W)
    → adapted describe a ≡ (ok base, w')
    → (r : EngineResult F) × (a ≡ (ok r, w')) × (as_columns r ≡ base)
adapted_ok describe (ok r, w) base w' h =
    (r, ap (λ x. (ok r, x)) (ap (λ x. x.1) h), ok_inj (as_columns r) base (ap (λ x. x.0) h))
adapted_ok describe (err e, w) base w' h = absurd (ground arith)

-- A run that succeeds did not stop at a limit.
if_ok :
    {A W : Type 0} {a : A} {w' : W} (m n : ℕ) (e : PipeError) (w : W) (r : Outcome PipeError A × W)
    → (if ltb m n then (err e, w) else r) ≡ (ok a, w')
    → r ≡ (ok a, w')
if_ok m n e w r h = elim (Bool-cases (ltb m n)) [
  | inl b ↦ let bad = if-true _ _ _ _ b h in absurd (ground arith)
  | inr b ↦ if-false _ _ _ _ b h
]

module _ (go : Runtime) {J T W : Type 0} (decoder : Decoder go.Float T) (db : Querier go.Float T W)
    (schema : String → String → Resolver) (eval : Option (Evaluator go.Float))
    (engine : Engine go.Float) (codec : Codec J go.Float)
    (registry : List (String × Factory J go.Float W)) (describe : Describe) where
  open go use {Float}

  -- What the classic engine answers to the prefix of a pipe.
  abbrev pub classic_prefix :
      String → String → PipePlan Float W → W → Outcome String (ClassicResult Float) × W
  classic_prefix workspace project plan w =
      adapter_execute go decoder db schema eval engine codec registry describe workspace project
        (prefix_query engine.pipe plan) w

  -- The prefix has at most as many rows as the engine's maximum, and is not called truncated.
  prefix_clipped :
      (config : EngineConfig Float) (plan : PipePlan Float W) (workspace project : String)
      (base : ClassicResult Float) (w w' : W)
      → new_engine config ≡ some engine
      → ObeysLimit db
      → is_negative plan.pushed.limit ≡ false
      → classic_prefix workspace project plan w ≡ (ok base, w')
      → (length base.rows ≤ pos_part engine.max_limit) × (base.truncated ≡ false)
  unfolding adapter_execute
  prefix_clipped config plan workspace project base w w' made obeys valid h =
      let (r, ran, same) = adapted_ok describe.exec _ base w' h in
      let (n, limit, few, up_to) =
        execute_classic-bound go decoder db schema eval engine none (prefix_query engine.pipe plan)
          workspace project w w' r config made obeys
          (λ dataset rows out e. ap length (sym (ok_inj rows out e)))
          (prefix_limit plan engine.pipe.max_rows engine.pipe.max_stages valid) ran in
      let rows = ap (λ x. length x.rows) same in
      (omega (arith, rows, few, up_to), sym (ap (λ x. x.truncated) same))

  -- A pipe whose tail has no sheet, behind its plan.
  planned_run :
      (q : AnyQuery J Float) (workspace project : String) (w : W) (plan : PipePlan Float W)
      → plan_pipe codec registry (some q.query) q.stages ≡ ok plan
      → wants_source_signal plan ≡ false
      → run_pipe go decoder db schema eval engine codec registry describe q workspace project w ≡ (
          if ltb engine.pipe.max_stages (length q.stages)
          then (err (too_many_stages (length q.stages) engine.pipe.max_stages), w)
          else (classic_error (classic_prefix workspace project plan w) then λ base w1.
              run_tail engine.pipe q.collects_stats plan base w1))
  unfolding run_pipe stream_prefix
  planned_run q workspace project w plan planned plain = rw (planned, plain) refl

  prefix_ok :
      (r : Outcome String (ClassicResult Float) × W) (base : ClassicResult Float) (w : W)
      → classic_error r ≡ (ok base, w)
      → r ≡ (ok base, w)
  prefix_ok (ok b, v) base w h = let (e, e') = ok_same b base v w h in rw (e, e') refl
  prefix_ok (err e, v) base w h = absurd (ground arith)

  -- A pipe that succeeds, whose tail has no sheet and whose pushed query asks for no negative limit,
  -- run by an engine that `NewEngine` has made over a database that heeds LIMIT, has run the stages
  -- of its tail over the rows of the classic engine's answer to its prefix, and those are at most as
  -- many as the maximum of a classic query, however many more the limits of the pipe allow and the
  -- database holds. The rows of the result are those that the tail left, and the result does not say
  -- that the prefix was truncated.
  pub run_pipe-clipped :
      (config : EngineConfig Float) (q : AnyQuery J Float) (plan : PipePlan Float W)
      (workspace project : String) (res : ExecResult Float W) (w w' : W)
      → new_engine config ≡ some engine
      → ObeysLimit db
      → plan_pipe codec registry (some q.query) q.stages ≡ ok plan
      → wants_source_signal plan ≡ false
      → is_negative plan.pushed.limit ≡ false
      → run_pipe go decoder db schema eval engine codec registry describe q workspace project w
        ≡ (ok res, w')
      → (base : ClassicResult Float) × (run : Run Float) × (w1 : W) × (classic_prefix workspace
            project plan w
          ≡ (ok base, w1))
        × (length base.rows ≤ pos_part engine.max_limit)
        × (apply_in_memory_ops engine.pipe plan q.collects_stats base.rows w1 ≡ (ok run, w'))
        × (res.rows ≡ run.rows)
        × (res.truncated ≡ false)
  unfolding run_tail
  run_pipe-clipped config q plan workspace project res w w' made obeys planned plain valid h =
      let ran = sym (planned_run q workspace project w plan planned plain) ∙ h in
      let (base, w1, e1, tail) =
        then_ok (classic_error (classic_prefix workspace project plan w)) _ res w'
          (if_ok engine.pipe.max_stages (length q.stages) _ _ _ ran) in
      let first = prefix_ok _ base w1 e1 in
      let (few, whole) =
        prefix_clipped config plan workspace project base w w1 made obeys valid first in
      let (run, w2, e2, last) =
        then_ok (apply_in_memory_ops engine.pipe plan q.collects_stats base.rows w1) _ res w'
          (if_ok engine.pipe.max_rows (length base.rows) _ _ _ tail) in
      let (same, world) = ok_same (exec_result plan base run) res w2 w' last in
      (
        base,
        run,
        w1,
        first,
        few,
        e2 ∙ ap (λ v. (ok run, v)) world,
        sym (ap (λ r. r.rows) same),
        sym (ap (λ r. r.truncated) same) ∙ whole,
      )

  -- A pipe whose tail has no sheet runs as `ExecuteDetailed` over the classic engine alone.
  pub run_pipe-plain :
      (q : AnyQuery J Float) (workspace project : String) (w : W) (plan : PipePlan Float W)
      → plan_pipe codec registry (some q.query) q.stages ≡ ok plan
      → wants_source_signal plan ≡ false
      → run_pipe go decoder db schema eval engine codec registry describe q workspace project w
        ≡ execute_detailed codec registry
            (adapter_execute go decoder db schema eval engine codec registry describe workspace
              project)
            engine.pipe
            q.collects_stats
            (some q.query)
            q.stages
            w
  unfolding run_pipe execute_detailed stream_prefix
  run_pipe-plain q workspace project w plan planned plain = rw (planned, plain) refl
