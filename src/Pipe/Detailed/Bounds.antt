-- ===== src/Pipe/Detailed/Bounds.antt =====
-- The limits of the pipe executor (pipe/executor.go), and what a plan classified as live-safe
-- (pipe/classify.go) runs.
use dql.Prelude.{
  ℕ, suc, ◌≤◌, String, Bool, true, false, ◌≡◌, refl, sym, ◌∙◌, ap, subst, List, [], ◌∷◌, Option,
  Outcome, ok, length, ltb, is_nil, arith, Bool-cases, inl, inr, if-true, if-false, map,
}
use dql.Go.Row.{Row}
use dql.Dsl.Query.{Query}
use dql.Pipe.Operator.{Stage, Operator, Factory, then_ok, ok_same, wrapping, all_live_safe}
use dql.Pipe.Execute.{
  ExecutorConfig, PipePlan, Run, Outputs, apply_op, produce, input_at, next_run, StageStat,
  run_stage, run_stages, start_run, apply_in_memory_ops,
}
use dql.Pipe.Execute.Steps.{run_stage-Round}
use dql.Pipe.Moves.{Codec}
use dql.Pipe.Plan.{plan_pipe}
use dql.Pipe.Detailed.{
  ClassicResult, ExecResult, exec_result, run_tail, prefix_query, in_world, classic_error,
  execute_detailed, classify, classify_from, is_live_safe,
}

-- A test that was not met.
not_over : (m n : ℕ) → ltb m n ≡ false → n ≤ m
not_over m n h = ground arith

module _ {F W : Type 0} (cfg : ExecutorConfig) (plan : PipePlan F W) where
  apply_op-bound :
      (i : ℕ) (op : Operator F W) (input out : List (Row F)) (w w' : W)
      → apply_op cfg plan i op input w ≡ (ok out, w')
      → length out ≤ cfg.max_rows
  unfolding apply_op
  apply_op-bound i op input out w w' h =
      let (made, w1, e1, e2) = then_ok (wrapping _ (op.apply input w)) _ out w' h in
      elim (Bool-cases (ltb cfg.max_rows (length made))) [
        | inl b ↦ let bad = if-true _ _ _ _ b e2 in absurd (ground arith)
        | inr b ↦
            let same = (ok_same made out w1 w' (if-false _ _ _ _ b e2)).0 in
            subst (λ o. length o ≤ cfg.max_rows) same (not_over cfg.max_rows (length made) b)
      ]

  produce-bound :
      (i : ℕ) (op : Operator F W) (outputs : Outputs F) (rows : List (Row F)) (w w' : W)
      (io : List (Row F) × List (Row F))
      → produce cfg plan i op outputs rows w ≡ (ok io, w')
      → length io.1 ≤ cfg.max_rows
  unfolding produce
  produce-bound i op outputs rows w w' io h =
      let (input, w1, e1, e2) = then_ok (input_at cfg plan i op outputs rows, w) _ io w' h in
      let (out, w2, e3, e4) = then_ok (apply_op cfg plan i op input w1) _ io w' e2 in
      subst (λ o. length o.1 ≤ cfg.max_rows) (ok_same (input, out) io w2 w' e4).0
        (apply_op-bound i op input out w1 w2 e3)

  next_run-rows :
      (b : Bool) (i : ℕ) (run : Run F) (out : List (Row F)) (outputs : Outputs F)
      (stats : List (StageStat F))
      → (next_run cfg plan b i run out outputs stats).rows ≡ out
  next_run-rows true i run out outputs stats = refl
  next_run-rows false i run out outputs stats = refl

  run_stages-bound :
      (collect : Bool) (ops : List (Operator F W)) (i : ℕ) (run run' : Run F) (w w' : W)
      → length run.rows ≤ cfg.max_rows
      → run_stages cfg plan collect i ops run w ≡ (ok run', w')
      → length run'.rows ≤ cfg.max_rows
  unfolding run_stages
  run_stages-bound collect [] i run run' w w' bound h =
      subst (λ r. length r.rows ≤ cfg.max_rows) (ok_same run run' w w' h).0 bound
  run_stages-bound collect (op ∷ ops) i run run' w w' bound h =
      let (run1, w1, first, rest) = then_ok (run_stage cfg plan collect i op run w) _ run' w' h in
      let round = run_stage-Round cfg plan collect i op run run1 w w1 first in
      let rows : run1.rows ≡ round.out =
        ap (λ r. r.rows) round.next ∙ next_run-rows op.live_safe i run round.out _ round.stats in
      let made = produce-bound i op run.outputs run.rows w w1 (round.input, round.out) round.made in
      run_stages-bound collect ops (suc i) run1 run' w1 w'
        (subst (λ o. length o ≤ cfg.max_rows) (sym rows) made) rest

  run_tail-bound :
      (collect : Bool) (base : ClassicResult F) (res : ExecResult F W) (w w' : W)
      → run_tail cfg collect plan base w ≡ (ok res, w')
      → length res.rows ≤ cfg.max_rows
  unfolding run_tail apply_in_memory_ops
  run_tail-bound collect base res w w' h = elim (Bool-cases (ltb cfg.max_rows (length base.rows))) [
    | inl b ↦ let bad = if-true _ _ _ _ b h in absurd (ground arith)
    | inr b ↦
        let (run, w1, e1, e2) =
          then_ok (apply_in_memory_ops cfg plan collect base.rows w) _ res w'
            (if-false _ _ _ _ b h) in
        let bound =
          run_stages-bound collect plan.ops 0 (start_run cfg plan base.rows) run w w1
            (not_over cfg.max_rows (length base.rows) b) e1 in
        subst (λ r. length r.rows ≤ cfg.max_rows)
          (ok_same (exec_result plan base run) res w1 w' e2).0 bound
  ]

module _ {J F W : Type 0} (codec : Codec J F) (registry : List (String × Factory J F W))
    (execute : Query F → W → Outcome String (ClassicResult F) × W) where
  -- An execution that succeeds had no more stages than the limit, and returns no more rows than
  -- the limit, whatever the classic engine and the operators return.
  pub execute_detailed-bounded :
      (cfg : ExecutorConfig) (collect : Bool) (q : Option (Query F)) (stages : List (Stage J))
      (res : ExecResult F W) (w w' : W)
      → execute_detailed codec registry execute cfg collect q stages w ≡ (ok res, w')
      → (length stages ≤ cfg.max_stages) × (length res.rows ≤ cfg.max_rows)
  unfolding execute_detailed
  execute_detailed-bounded cfg collect q stages res w w' h =
      elim (Bool-cases (ltb cfg.max_stages (length stages))) [
        | inl b ↦ let bad = if-true _ _ _ _ b h in absurd (ground arith)
        | inr b ↦
            let (plan, w1, e1, e2) =
              then_ok (in_world (plan_pipe codec registry q stages) w) _ res w'
                (if-false _ _ _ _ b h) in
            let (base, w2, e3, e4) =
              then_ok (classic_error (execute (prefix_query cfg plan) w1)) _ res w' e2 in
            (
              not_over cfg.max_stages (length stages) b,
              run_tail-bound cfg plan collect base res w2 w' e4,
            )
      ]

module _ {F W : Type 0} where
  classify_from-safe :
      (i : ℕ) (ops : List (Operator F W))
      → is_nil (map (λ e. e.0) (classify_from i ops)) ≡ all_live_safe ops
  classify_from-safe i [] = refl
  classify_from-safe i (op ∷ ops) = ground (arith, classify_from-safe (suc i) ops)

  -- A plan is classified as live-safe exactly if every operator of its tail says that it is.
  pub classify-safe : (plan : PipePlan F W) → is_live_safe (classify plan) ≡ all_live_safe plan.ops
  unfolding classify
  classify-safe plan = classify_from-safe 0 plan.ops
