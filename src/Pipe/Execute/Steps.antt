-- ===== src/Pipe/Execute/Steps.antt =====
-- One round of the loop of `applyInMemoryOps` (pipe/executor.go) that goes well.
use dql.Prelude.{ℕ, Bool, ◌≡◌, sym, ◌∙◌, ap, List, [], ◌∷◌, ◌++◌, ok, if◌then◌else◌}
use dql.Go.Row.{Row}
use dql.Pipe.Operator.{Operator, then_ok, ok_same}
use dql.Pipe.Execute.{
  ExecutorConfig, PipePlan, Run, StageStat, produce, store_output, next_run, stat_of, run_stage,
}

module _ {F W : Type 0} (cfg : ExecutorConfig) (plan : PipePlan F W) where
  -- What a round that goes well is made of.
  pub record Round (collect : Bool) (i : ℕ) (op : Operator F W) (run run' : Run F) (w w' : W)
      : Type 0 where
    pub input : List (Row F)
    pub out : List (Row F)
    pub made : produce cfg plan i op run.outputs run.rows w ≡ (ok (input, out), w')
    pub stats : List (StageStat F)
    pub next :
        run'
        ≡ next_run cfg plan op.live_safe i run out (store_output cfg plan i run.outputs out) stats

  pub run_stage-Round :
      (collect : Bool) (i : ℕ) (op : Operator F W) (run run' : Run F) (w w' : W)
      → run_stage cfg plan collect i op run w ≡ (ok run', w')
      → Round collect i op run run' w w'
  unfolding run_stage
  run_stage-Round collect i op run run' w w' h =
      let (io, w1, made, e) = then_ok (produce cfg plan i op run.outputs run.rows w) _ run' w' h in
      record {
        input = io.0;
        out = io.1;
        made = made ∙ ap (λ x. (ok io, x)) (ok_same _ run' w1 w' e).1;
        stats = if collect then run.stats ++ stat_of cfg plan i op io.0 io.1 ∷ [] else run.stats;
        next = sym (ok_same _ run' w1 w' e).0;
      }
