-- ===== src/Pipe/Branching/Factories.antt =====
-- The factories of the stages that run other stages: pipe/branch.go, pipe/merge.go, and `intersect`
-- and `except` of pipe/setops.go, on configurations that decode.

use dql.Prelude.{
  ℕ, suc, String, ◌||◌, List, [], ◌∷◌, Option, none, some, Outcome, ok, err, ◌>>=◌, map_err, is_nil,
  str_eq, if◌then◌else◌,
}
use dql.Go.Runtime.{Runtime}
use dql.Dsl.Tree.{Evaluator}
use dql.Pipe.Operator.{PipeError, at_stage, under, bad_config, Stage, Operator, ◌then◌}
use dql.Pipe.Branching.{build_ops, branch_op, merge_op, intersect_op, except_op}

module _ {J : Type 0} (go : Runtime) {W : Type 0}
    (make : Stage J → Outcome PipeError (Operator go.Float W)) where
  open go use {Float}

  -- `branchFactory`, on a configuration that decodes.
  unfoldable pub branch_factory :
      Option (Evaluator Float)
      → String
      → List (Stage J)
      → List (Stage J)
      → Outcome PipeError (Operator Float W)
  unfolding build_ops branch_op
  branch_factory none cond then_stages else_stages =
      if str_eq cond ""
      then err (bad_config "branch: when is required")
      else err (bad_config "branch: expression evaluator not available")
  branch_factory (some run) cond then_stages else_stages =
      if str_eq cond ""
      then err (bad_config "branch: when is required")
      else if is_nil then_stages
      then err (bad_config "branch: then is required and must be non-empty")
      else map_err (under "branch.then") (build_ops make 0 then_stages) >>= λ then_ops.
          map_err (under "branch.else") (build_ops make 0 else_stages) >>= λ else_ops.
          ok (branch_op go run cond then_ops else_ops)

  -- The loop of `intersectFactory` over its sources, from source `i`.
  unfoldable pub build_sources :
      String → ℕ → List (List (Stage J)) → Outcome PipeError (List (List (Operator Float W)))
  unfolding build_ops
  build_sources name i [] = ok []
  build_sources name i (p ∷ ps) = map_err (at_stage i name) (build_ops make 0 p) >>= λ ops.
      build_sources name (suc i) ps >>= λ subs. ok (ops ∷ subs)

  unfoldable pub intersect_factory :
      List String → List (List (Stage J)) → Outcome PipeError (Operator Float W)
  unfolding build_sources intersect_op
  intersect_factory by (p ∷ q ∷ ps) =
      build_sources "intersect.sources" 0 (p ∷ q ∷ ps) >>= λ subs. ok (intersect_op go by subs)
  intersect_factory by _ = err (bad_config "intersect: at least two sources required")

  unfoldable pub except_factory :
      List String → List (Stage J) → List (Stage J) → Outcome PipeError (Operator Float W)
  unfolding build_ops except_op
  except_factory by left right =
      if is_nil left || is_nil right
      then err (bad_config "except: left.pipe and right.pipe are required")
      else map_err (under "except.left") (build_ops make 0 left) >>= λ left_ops.
          map_err (under "except.right") (build_ops make 0 right) >>= λ right_ops.
          ok (except_op go by left_ops right_ops)

  -- The loop of `mergeFactory`: a source without stages is refused.
  unfoldable pub build_merged :
      ℕ → List (List (Stage J)) → Outcome PipeError (List (List (Operator Float W)))
  unfolding build_ops
  build_merged i [] = ok []
  build_merged i (p ∷ ps) =
      (if is_nil p
        then err (at_stage i "merge.sources" (bad_config "pipe is required and must be non-empty"))
        else map_err (at_stage i "merge.sources") (build_ops make 0 p))
      >>= λ ops. build_merged (suc i) ps >>= λ subs. ok (ops ∷ subs)

  unfoldable pub merge_factory : List (List (Stage J)) → Outcome PipeError (Operator Float W)
  unfolding build_merged merge_op
  merge_factory sources =
      if is_nil sources
      then err (bad_config "merge: at least one source is required")
      else build_merged 0 sources >>= λ subs. ok (merge_op subs)
