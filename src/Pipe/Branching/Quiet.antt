-- ===== src/Pipe/Branching/Quiet.antt =====
-- What `IsLiveSafe` of the stages that run other stages (pipe/branch.go, pipe/merge.go,
-- pipe/setops.go) promises.
use dql.Prelude.{ℕ, suc, String, true, ◌≡◌, refl, ◌∙◌, List, [], ◌∷◌, Outcome, ok, err, arith, All}
use dql.Go.Runtime.{Runtime}
use dql.Go.Row.{Row}
use dql.Dsl.Tree.{Evaluator}
use dql.Pipe.Operator.{
  PipeError, at_stage, under, Operator, ◌then◌, wrapping, wrapping-world, apply_chain,
  apply_chain_from, all_live_safe,
}
use dql.Pipe.Execute.Quiet.{IsQuiet, quiet_call, IsQuiet-if}
use dql.Pipe.Branching.{
  all_chains_safe, merge_from, merge_op, run_sources, route, intersect_apply, intersect_op,
  except_apply, except_op, branch_apply, branch_op,
}

module _ {W A B : Type 0} where
  -- A call that leaves the world, before a call that does.
  then-world :
      (m : Outcome PipeError A × W) (f : A → W → Outcome PipeError B × W) (w : W)
      → m.1 ≡ w
      → ((a : A) (v : W) → (f a v).1 ≡ v)
      → (m then f).1 ≡ w
  then-world (ok a, v) f w h k = k a v ∙ h
  then-world (err e, v) f w h k = h

module _ {F W : Type 0} where
  chain-quiet :
      (i : ℕ) (ops : List (Operator F W)) (rows : List (Row F)) (w : W)
      → All IsQuiet ops
      → all_live_safe ops ≡ true
      → (apply_chain_from i ops rows w).1 ≡ w
  unfolding apply_chain_from
  chain-quiet i [] rows w quiet safe = refl
  chain-quiet i (op ∷ ops) rows w quiet safe =
      then-world (wrapping (at_stage i op.name) (op.apply rows w)) _ w
        (wrapping-world _ (op.apply rows w) ∙ quiet_call op quiet.0 (ground arith) rows w)
        (λ out v. chain-quiet (suc i) ops out v quiet.1 (ground arith))

  named-quiet :
      (f : PipeError → PipeError) (ops : List (Operator F W)) (rows : List (Row F)) (w : W)
      → All IsQuiet ops
      → all_live_safe ops ≡ true
      → (wrapping f (apply_chain ops rows w)).1 ≡ w
  unfolding apply_chain
  named-quiet f ops rows w quiet safe =
      wrapping-world f (apply_chain ops rows w) ∙ chain-quiet 0 ops rows w quiet safe

  merge-quiet :
      (i : ℕ) (subs : List (List (Operator F W))) (rows : List (Row F)) (w : W)
      → All (All IsQuiet) subs
      → all_chains_safe subs ≡ true
      → (merge_from i subs rows w).1 ≡ w
  unfolding merge_from
  merge-quiet i [] rows w quiet safe = refl
  merge-quiet i (sub ∷ subs) rows w quiet safe =
      then-world (wrapping (at_stage i "merge.sources") (apply_chain sub rows w)) _ w
        (named-quiet (at_stage i "merge.sources") sub rows w quiet.0 (ground arith))
        (λ out v.
          then-world (merge_from (suc i) subs rows v) _ v
            (merge-quiet (suc i) subs rows v quiet.1 (ground arith)) (λ outs u. refl))

  sources-quiet :
      (i : ℕ) (subs : List (List (Operator F W))) (rows : List (Row F)) (w : W)
      → All (All IsQuiet) subs
      → all_chains_safe subs ≡ true
      → (run_sources i subs rows w).1 ≡ w
  unfolding run_sources
  sources-quiet i [] rows w quiet safe = refl
  sources-quiet i (sub ∷ subs) rows w quiet safe =
      then-world (wrapping (at_stage i "intersect.sources") (apply_chain sub rows w)) _ w
        (named-quiet (at_stage i "intersect.sources") sub rows w quiet.0 (ground arith))
        (λ out v.
          then-world (run_sources (suc i) subs rows v) _ v
            (sources-quiet (suc i) subs rows v quiet.1 (ground arith)) (λ outs u. refl))

module _ (go : Runtime) {W : Type 0} where
  open go use {Float}

  intersect-quiet :
      (by : List String) (subs : List (List (Operator Float W)))
      → All (All IsQuiet) subs
      → all_chains_safe subs ≡ true
      → (rows : List (Row Float)) (w : W) → (intersect_apply go by subs rows w).1 ≡ w
  unfolding intersect_apply
  intersect-quiet by [] quiet safe rows w = refl
  intersect-quiet by (sub ∷ subs) quiet safe rows w =
      then-world (run_sources 0 (sub ∷ subs) rows w) _ w
        (sources-quiet 0 (sub ∷ subs) rows w quiet safe) (λ results v. refl)

  -- The stages that run other stages keep what `IsLiveSafe` says: if every operator below them that
  -- calls itself live-safe leaves the world as it was, so does a `merge`, an `intersect`, an
  -- `except` and a `branch` that calls itself live-safe.
  pub composites-IsQuiet :
      (subs : List (List (Operator Float W))) (first second : List (Operator Float W))
      (by : List String) (run : Evaluator Float) (cond : String)
      → All (All IsQuiet) subs
      → All IsQuiet first
      → All IsQuiet second
      → IsQuiet (merge_op subs)
        × (IsQuiet (intersect_op go by subs)
            × (IsQuiet (except_op go by first second)
                × IsQuiet (branch_op go run cond first second)))
  unfolding merge_op intersect_op except_op branch_op intersect_apply except_apply branch_apply
  composites-IsQuiet subs first second by run cond quiet quiet1 quiet2 = (
    IsQuiet-if (merge_op subs) (λ safe rows w. merge-quiet 0 subs rows w quiet safe),
    (
      IsQuiet-if (intersect_op go by subs)
          (λ safe rows w. intersect-quiet by subs quiet safe rows w),
      (
        IsQuiet-if (except_op go by first second) (λ safe rows w.
            then-world (wrapping (under "except.left") (apply_chain first rows w)) _ w
              (named-quiet (under "except.left") first rows w quiet1 (ground arith))
              (λ left v.
                then-world (wrapping (under "except.right") (apply_chain second rows v)) _ v
                  (named-quiet (under "except.right") second rows v quiet2 (ground arith))
                  (λ right u. refl))),
        IsQuiet-if (branch_op go run cond first second) (λ safe rows w.
            then-world (route go run cond 0 rows, w) _ w refl
              (λ r v.
                then-world (wrapping (under "branch.then") (apply_chain first r.0 v)) _ v
                  (named-quiet (under "branch.then") first r.0 v quiet1 (ground arith))
                  (λ left u.
                    then-world (wrapping (under "branch.else") (apply_chain second r.1 u)) _ u
                      (named-quiet (under "branch.else") second r.1 u quiet2 (ground arith))
                      (λ right x. refl)))),
      ),
    ),
  )
