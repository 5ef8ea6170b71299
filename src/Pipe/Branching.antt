-- ===== src/Pipe/Branching.antt =====
-- The stages that run other stages: pipe/branch.go, pipe/merge.go, and `intersect` and `except` of
-- pipe/setops.go.
use Prim.Native.String.{◌++◌ as str_append}
use dql.Prelude.{
  ℕ, zero, suc, String, Bool, true, false, not, ◌&&◌, ◌||◌, List, [], ◌∷◌, ◌++◌, map, Option, none,
  some, Outcome, ok, err, ◌>>=◌, map_err, all, keep, contains, is_nil, str_eq, if◌then◌else◌,
}
use dql.Go.Runtime.{Runtime}
use dql.Go.Row.{Row}
use dql.Go.Coerce.{to_bool}
use dql.Dsl.Tree.{EvalError, Evaluator}
use dql.Processor.Aggregate.{group_key}
use dql.Pipe.Operator.{
  PipeError, at_stage, under, bad_config, evaluation, Stage, Operator, Factory, build, ◌then◌,
  wrapping, apply_chain, all_live_safe,
}
use dql.Pipe.Rows.{sorted_columns, is_missing_evaluator}
pub mod Keys
pub mod Ways
pub mod Quiet
pub mod Factories

module _ {J F W : Type 0} where
  -- `buildOps`, from stage `i`; `build` is the registry's.
  unfoldable pub build_ops :
      (Stage J → Outcome PipeError (Operator F W))
      → ℕ
      → List (Stage J)
      → Outcome PipeError (List (Operator F W))
  build_ops make i [] = ok []
  build_ops make i (s ∷ ss) =
      map_err (at_stage i "") (make s) >>= λ op. build_ops make (suc i) ss >>= λ ops. ok (op ∷ ops)

module _ {F W : Type 0} where
  -- The `IsLiveSafe` of an operator over several chains.
  abbrev pub all_chains_safe : List (List (Operator F W)) → Bool
  all_chains_safe subs = all all_live_safe subs

  -- The loop of `mergeOp.Apply`, from source `i`: each source starts from the same rows.
  unfoldable pub merge_from :
      ℕ → List (List (Operator F W)) → List (Row F) → W → Outcome PipeError (List (Row F)) × W
  unfolding apply_chain
  merge_from i [] rows w = (ok [], w)
  merge_from i (sub ∷ subs) rows w =
      wrapping (at_stage i "merge.sources") (apply_chain sub rows w) then λ out w1.
      merge_from (suc i) subs rows w1 then λ outs w2. (ok (out ++ outs), w2)

  unfoldable pub merge_op : List (List (Operator F W)) → Operator F W
  unfolding merge_from
  merge_op subs = record {
    name = "merge";
    label = "";
    live_safe = all_chains_safe subs;
    apply = merge_from 0 subs;
  }

  -- The first loop of `intersectOp.Apply`: the rows of each source.
  unfoldable pub run_sources :
      ℕ
      → List (List (Operator F W))
      → List (Row F)
      → W
      → Outcome PipeError (List (List (Row F))) × W
  unfolding apply_chain
  run_sources i [] rows w = (ok [], w)
  run_sources i (sub ∷ subs) rows w =
      wrapping (at_stage i "intersect.sources") (apply_chain sub rows w) then λ out w1.
      run_sources (suc i) subs rows w1 then λ outs w2. (ok (out ∷ outs), w2)

module _ (go : Runtime) where
  open go use {Float}

  -- `intersectKey`.
  unfoldable pub intersect_key : List String → Row Float → String
  unfolding group_key sorted_columns
  intersect_key by row =
      if not (is_nil by) then group_key go by row else group_key go (sorted_columns go row) row

  -- The keys of each source, and the rows of the first that all the others have.
  unfoldable pub common_rows : List String → List (List (Row Float)) → List (Row Float)
  unfolding intersect_key
  common_rows by [] = []
  common_rows by (first ∷ others) =
      keep (λ row. all (λ rs. contains (map (intersect_key by) rs) (intersect_key by row)) others)
        first

  -- The rows of the left source whose key the right one lacks.
  unfoldable pub other_rows : List String → List (Row Float) → List (Row Float) → List (Row Float)
  unfolding intersect_key
  other_rows by left right =
      keep (λ row. not (contains (map (intersect_key by) right) (intersect_key by row))) left

  -- The loop of `branchOp.Apply` that sends each row one way or the other, from row `i`.
  unfoldable pub route :
      Evaluator Float
      → String
      → ℕ
      → List (Row Float)
      → Outcome PipeError (List (Row Float) × List (Row Float))
  unfolding to_bool
  route run cond i [] = ok ([], [])
  route run cond i (row ∷ rows) =
      map_err (λ e. at_stage i "branch: row" (evaluation e)) (run cond row) >>= λ v.
      route run cond (suc i) rows >>= λ r.
      ok (if to_bool go v then (row ∷ r.0, r.1) else (r.0, row ∷ r.1))

module _ (go : Runtime) {W : Type 0} where
  open go use {Float}

  -- `intersectOp.Apply`.
  unfoldable pub intersect_apply :
      List String
      → List (List (Operator Float W))
      → List (Row Float)
      → W
      → Outcome PipeError (List (Row Float)) × W
  unfolding run_sources common_rows
  intersect_apply by [] rows w = (ok rows, w)
  intersect_apply by (sub ∷ subs) rows w =
      run_sources 0 (sub ∷ subs) rows w then λ results w1. (ok (common_rows go by results), w1)

  -- `exceptOp.Apply`.
  unfoldable pub except_apply :
      List String
      → List (Operator Float W)
      → List (Operator Float W)
      → List (Row Float)
      → W
      → Outcome PipeError (List (Row Float)) × W
  unfolding apply_chain other_rows
  except_apply by left_ops right_ops rows w =
      wrapping (under "except.left") (apply_chain left_ops rows w) then λ left w1.
      wrapping (under "except.right") (apply_chain right_ops rows w1) then λ right w2.
      (ok (other_rows go by left right), w2)

  -- `branchOp.Apply`.
  unfoldable pub branch_apply :
      Evaluator Float
      → String
      → List (Operator Float W)
      → List (Operator Float W)
      → List (Row Float)
      → W
      → Outcome PipeError (List (Row Float)) × W
  unfolding route apply_chain
  branch_apply run cond then_ops else_ops rows w = (route go run cond 0 rows, w) then λ r w1.
      wrapping (under "branch.then") (apply_chain then_ops r.0 w1) then λ then_out w2.
      wrapping (under "branch.else") (apply_chain else_ops r.1 w2) then λ else_out w3.
      (ok (then_out ++ else_out), w3)

  unfoldable pub intersect_op : List String → List (List (Operator Float W)) → Operator Float W
  unfolding intersect_apply
  intersect_op by subs = record {
    name = "intersect";
    label = "";
    live_safe = all_chains_safe subs;
    apply = intersect_apply by subs;
  }

  unfoldable pub except_op :
      List String → List (Operator Float W) → List (Operator Float W) → Operator Float W
  unfolding except_apply
  except_op by left_ops right_ops = record {
    name = "except";
    label = "";
    live_safe = all_live_safe left_ops && all_live_safe right_ops;
    apply = except_apply by left_ops right_ops;
  }

  unfoldable pub branch_op :
      Evaluator Float
      → String
      → List (Operator Float W)
      → List (Operator Float W)
      → Operator Float W
  unfolding branch_apply
  branch_op run cond then_ops else_ops = record {
    name = "branch";
    label = "";
    live_safe = all_live_safe then_ops && all_live_safe else_ops;
    apply = branch_apply run cond then_ops else_ops;
  }
