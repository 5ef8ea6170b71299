-- ===== src/Pipe/Execute/Replay.antt =====
-- The replay of a primed pipe (`ExecuteFromStage` of pipe/executor.go) against the run that primed
-- it.
use dql.Prelude.{
  ℕ, suc, ◌+◌, ◌-◌, ◌≤◌, Bool, true, false, ◌≡◌, refl, sym, ◌∙◌, ap, subst, List, [], ◌∷◌, ok,
  length, drop, ltb, ltb→lt, All, arith, Bool-cases, ◌⊎◌, inl, inr,
}
use dql.Go.Row.{Row}
use dql.Pipe.Operator.{Operator, then_ok, ok_same, wrapping, wrapping-world}
use dql.Pipe.Execute.Quiet.{IsQuiet, quiet_call}
use dql.Pipe.Execute.Steps.{Round, run_stage-Round}
use dql.Pipe.Execute.{
  ExecutorConfig, PipePlan, Outputs, Run, StageStat, input_at, apply_op, produce, store_output,
  next_run, run_stage, run_stages, start_run, apply_in_memory_ops, replay_stage, replay_stages,
  execute_from_stage,
}

module _ {F W : Type 0} (cfg : ExecutorConfig) (plan : PipePlan F W) where
  -- A run that came from another without a stage that is not live-safe.
  record Kept (i : ℕ) (ops : List (Operator F W)) (run run' : Run F) (w w' : W) : Type 0 where
    pub at : run'.primed_at ≡ run.primed_at
    pub rows : run'.primed_rows ≡ run.primed_rows
    pub outputs : run'.primed_outputs ≡ run.primed_outputs
    pub replay :
        replay_stages cfg plan i ops run.rows run.outputs w' ≡ (ok (run'.rows, run'.outputs), w')
    pub world : w' ≡ w

  -- A run that such a stage has primed anew.
  record Renewed (i : ℕ) (ops : List (Operator F W)) (run' : Run F) (w' : W) : Type 0 where
    pub after : i ≤ run'.primed_at
    pub within : run'.primed_at ≤ i + length ops
    pub replay :
        replay_stages cfg plan run'.primed_at
          (drop (run'.primed_at - i) ops)
          run'.primed_rows
          run'.primed_outputs
          w'
        ≡ (ok (run'.rows, run'.outputs), w')

  produce-IsQuiet :
      (i : ℕ) (op : Operator F W) (outputs : Outputs F) (rows : List (Row F)) (w w' : W)
      (io : List (Row F) × List (Row F))
      → ((rows : List (Row F)) (w : W) → (op.apply rows w).1 ≡ w)
      → produce cfg plan i op outputs rows w ≡ (ok io, w')
      → w' ≡ w
  unfolding produce apply_op
  produce-IsQuiet i op outputs rows w w' io h e =
      let (input, w1, e1, e2) = then_ok (input_at cfg plan i op outputs rows, w) _ io w' e in
      let (out, w2, e3, e4) = then_ok (apply_op cfg plan i op input w1) _ io w' e2 in
      let (out', w3, e5, e6) = then_ok (wrapping _ (op.apply input w1)) _ out w2 e3 in
      let same : w2 ≡ w3 = elim (Bool-cases (ltb cfg.max_rows (length out'))) [
        | inl b ↦ absurd (ground arith)
        | inr b ↦ ground arith
      ] in
      let start : w ≡ w1 = ap (λ r. r.1) e1 in
      let end : w2 ≡ w' = ap (λ r. r.1) e4 in
      let applied : (op.apply input w1).1 ≡ w3 =
        sym (wrapping-world _ (op.apply input w1)) ∙ ap (λ r. r.1) e5 in
      sym end ∙ same ∙ sym applied ∙ h input w1 ∙ sym start

  -- A live-safe stage ahead of a run whose priming is kept, or made anew.
  extend :
      (i : ℕ) (op : Operator F W) (ops : List (Operator F W)) (run run1 run' : Run F) (w w' : W)
      (input out : List (Row F)) (stats : List (StageStat F))
      → op.live_safe ≡ true
      → produce cfg plan i op run.outputs run.rows w ≡ (ok (input, out), w)
      → run1 ≡ next_run cfg plan true i run out (store_output cfg plan i run.outputs out) stats
      → Kept (suc i) ops run1 run' w w'
      → Kept i (op ∷ ops) run run' w w'
  unfolding replay_stages replay_stage
  extend i op ops run run1 run' w w' input out stats live made next k = record {
    at = k.at ∙ ap (λ r. r.primed_at) next;
    rows = k.rows ∙ ap (λ r. r.primed_rows) next;
    outputs = k.outputs ∙ ap (λ r. r.primed_outputs) next;
    world = k.world;
    replay =
        let made' =
          subst (λ x. produce cfg plan i op run.outputs run.rows x ≡ (ok (input, out), x))
            (sym k.world) made in
        let tail =
          subst
            (λ r.
              replay_stages cfg plan (suc i) ops r.rows r.outputs w'
              ≡ (ok (run'.rows, run'.outputs), w'))
            next k.replay in
        rw (live, made') tail;
  }

  drop_one :
      (i : ℕ) (op : Operator F W) (ops : List (Operator F W)) → drop (suc i - i) (op ∷ ops) ≡ ops
  drop_one i op ops = let e : suc i - i ≡ 1 = omega arith in ap (λ m. drop m (op ∷ ops)) e

  Kept-by_live :
      (i : ℕ) (op : Operator F W) (ops : List (Operator F W)) (run run1 run' : Run F) (w w1 w' : W)
      → IsQuiet op
      → op.live_safe ≡ true
      → (collect : Bool) → Round cfg plan collect i op run run1 w w1
      → Kept (suc i) ops run1 run' w1 w'
      → Kept i (op ∷ ops) run run' w w'
  Kept-by_live i op ops run run1 run' w w1 w' quiet live collect r k =
      let same =
        produce-IsQuiet i op run.outputs run.rows w w1 (r.input, r.out) (quiet_call op quiet live)
          r.made in
      extend i op ops run run1 run' w w' r.input r.out r.stats live
        (r.made ∙ ap (λ x. (ok (r.input, r.out), x)) same)
        (subst
          (λ b.
            run1
            ≡ next_run cfg plan b i run r.out (store_output cfg plan i run.outputs r.out) r.stats)
          live r.next)
        (subst (λ x. Kept (suc i) ops run1 run' x w') same k)

  -- A stage that is not live-safe primes the run with its output.
  renewed_by :
      (i : ℕ) (op : Operator F W) (ops : List (Operator F W)) (run run1 run' : Run F) (w w1 w' : W)
      → op.live_safe ≡ false
      → (collect : Bool) → Round cfg plan collect i op run run1 w w1
      → Kept (suc i) ops run1 run' w1 w'
      → Renewed i (op ∷ ops) run' w'
  renewed_by i op ops run run1 run' w w1 w' live collect r k =
      let next =
        subst
          (λ b.
            run1
            ≡ next_run cfg plan b i run r.out (store_output cfg plan i run.outputs r.out) r.stats)
          live r.next in
      let at : run'.primed_at ≡ suc i = k.at ∙ ap (λ x. x.primed_at) next in
      let rows : run'.primed_rows ≡ run1.rows =
        k.rows ∙ ap (λ x. x.primed_rows) next ∙ sym (ap (λ x. x.rows) next) in
      let outputs : run'.primed_outputs ≡ run1.outputs =
        k.outputs ∙ ap (λ x. x.primed_outputs) next ∙ sym (ap (λ x. x.outputs) next) in
      let tail : drop (run'.primed_at - i) (op ∷ ops) ≡ ops =
        ap (λ n. drop (n - i) (op ∷ ops)) at ∙ drop_one i op ops in
      record {
        after = omega arith;
        within = omega arith;
        replay = rw (tail, at, rows, outputs) k.replay;
      }

  drop_later :
      (i n : ℕ) (op : Operator F W) (ops : List (Operator F W))
      → suc i ≤ n
      → drop (n - i) (op ∷ ops) ≡ drop (n - suc i) ops
  drop_later i n op ops h =
      let e : n - i ≡ suc (n - suc i) = omega arith in ap (λ m. drop m (op ∷ ops)) e

  later :
      (i : ℕ) (op : Operator F W) (ops : List (Operator F W)) (run' : Run F) (w' : W)
      → Renewed (suc i) ops run' w'
      → Renewed i (op ∷ ops) run' w'
  later i op ops run' w' r = record {
    after = omega (arith, r.after);
    within = omega (arith, r.within);
    replay =
        subst
          (λ os.
            replay_stages cfg plan run'.primed_at os run'.primed_rows run'.primed_outputs w'
            ≡ (ok (run'.rows, run'.outputs), w'))
          (sym (drop_later i run'.primed_at op ops r.after)) r.replay;
  }

  run_stages-replay :
      (collect : Bool) (i : ℕ) (ops : List (Operator F W)) (run run' : Run F) (w w' : W)
      → All IsQuiet ops
      → run_stages cfg plan collect i ops run w ≡ (ok run', w')
      → Kept i ops run run' w w' ⊎ Renewed i ops run' w'
  unfolding run_stages replay_stages
  run_stages-replay collect i [] run run' w w' quiet h =
      let (same, world) = ok_same run run' w w' h in
      inl record {
        at = ap (λ r. r.primed_at) (sym same);
        rows = ap (λ r. r.primed_rows) (sym same);
        outputs = ap (λ r. r.primed_outputs) (sym same);
        world = sym world;
        replay = ap (λ r. (ok (r.rows, r.outputs), w')) same;
      }
  run_stages-replay collect i (op ∷ ops) run run' w w' quiet h =
      let (run1, w1, first, rest) = then_ok (run_stage cfg plan collect i op run w) _ run' w' h in
      let round = run_stage-Round cfg plan collect i op run run1 w w1 first in
      elim (run_stages-replay collect (suc i) ops run1 run' w1 w' quiet.1 rest) [
        | inr r ↦ inr (later i op ops run' w' r)
        | inl k ↦ elim (Bool-cases op.live_safe) [
          | inl live ↦
              inl (Kept-by_live i op ops run run1 run' w w1 w' quiet.0 live collect round k)
          | inr live ↦ inr (renewed_by i op ops run run1 run' w w1 w' live collect round k)
        ]
      ]

  replay_in_range :
      (at : ℕ) (rows : List (Row F)) (outputs : Outputs F) (w : W) (r : List (Row F) × Outputs F)
      → at ≤ length plan.ops
      → replay_stages cfg plan at (drop at plan.ops) rows outputs w ≡ (ok r, w)
      → execute_from_stage cfg plan at rows outputs w ≡ (ok r.0, w)
  unfolding execute_from_stage
  replay_in_range at rows outputs w r h e = elim (Bool-cases (ltb (length plan.ops) at)) [
    | inl b ↦ absurd (omega (arith, ltb→lt (length plan.ops) at b))
    | inr b ↦ rw (b, e) refl
  ]

  -- Where every operator that says it is live-safe leaves the world as it was: the snapshot that a
  -- run of the tail leaves behind, replayed in the world that the run left, gives the rows that
  -- the run gave, and does not change the world, so no side effect of the run happens twice.
  pub replay_exact :
      (collect : Bool) (rows : List (Row F)) (run : Run F) (w w' : W)
      → All IsQuiet plan.ops
      → apply_in_memory_ops cfg plan collect rows w ≡ (ok run, w')
      → execute_from_stage cfg plan run.primed_at run.primed_rows run.primed_outputs w'
        ≡ (ok run.rows, w')
  unfolding apply_in_memory_ops
  replay_exact collect rows run w w' quiet h =
      elim (run_stages-replay collect 0 plan.ops (start_run cfg plan rows) run w w' quiet h) [
        | inl k ↦
            rw (k.at, k.rows, k.outputs)
              (replay_in_range 0 rows [] w' (run.rows, run.outputs) (omega arith) k.replay)
        | inr r ↦
            let e : run.primed_at - 0 ≡ run.primed_at = omega arith in
            replay_in_range run.primed_at run.primed_rows run.primed_outputs w'
              (run.rows, run.outputs) (omega (arith, r.within))
              (subst
                (λ n.
                  replay_stages cfg plan run.primed_at (drop n plan.ops) run.primed_rows
                    run.primed_outputs w'
                  ≡ (ok (run.rows, run.outputs), w'))
                e r.replay)
      ]
