-- ===== src/Pipe/Branching/Ways.antt =====
-- Which rows go which way at a `branch` (pipe/branch.go).
use dql.Prelude.{
  ℕ, suc, String, Bool, true, false, not, ◌≡◌, refl, sym, ◌∙◌, ap, subst, List, [], ◌∷◌, ◌++◌,
  Outcome, ok, err, map_err, bind_ok, ok_inj, arith, keep, All, if◌then◌else◌,
}
use dql.Go.Runtime.{Runtime}
use dql.Go.Value.{Value}
use dql.Go.Row.{Row}
use dql.Go.Coerce.{to_bool}
use dql.Dsl.Tree.{EvalError, Evaluator}
use dql.Pipe.Operator.{PipeError, Operator, ◌then◌, then_ok, ok_same, wrapping, apply_chain}
use dql.Pipe.Branching.{route, branch_apply}

module _ (go : Runtime) (run : Evaluator go.Float) (cond : String) where
  open go use {Float}

  abbrev holds_in : Outcome EvalError (Value Float) → Bool
  holds_in (ok v) = to_bool go v
  holds_in (err e) = false

  -- The condition holds of a row.
  abbrev pub holds : Row Float → Bool
  holds row = holds_in (run cond row)

  -- The condition has a value on a row.
  abbrev pub Evaluates : Row Float → Type 0
  Evaluates row = (v : Value Float) × (run cond row ≡ ok v)

  route_ways :
      (i : ℕ) (rows : List (Row Float)) (out : List (Row Float) × List (Row Float))
      → route go run cond i rows ≡ ok out
      → (out ≡ (keep holds rows, keep (λ row. not (holds row)) rows)) × All Evaluates rows
  unfolding route
  route_ways i [] out h = (sym (ok_inj _ out h), tt)
  route_ways i (row ∷ rows) out h =
      let (v, e1, h1) = bind_ok (map_err _ (run cond row)) _ out h in
      let (r, e2, h2) = bind_ok (route go run cond (suc i) rows) _ out h1 in
      let (ih, all) = route_ways (suc i) rows r e2 in
      let e = value_of (run cond row) _ v e1 in
      let split = sym (ok_inj _ out h2) ∙ ap (sent (to_bool go v) row) ih in
      (split ∙ sides (to_bool go v) (ap holds_in e), ((v, e), all))
    where
      sent :
          Bool
          → Row Float
          → List (Row Float) × List (Row Float)
          → List (Row Float) × List (Row Float)
      sent b a r = if b then (a ∷ r.0, r.1) else (r.0, a ∷ r.1)

      value_of :
          {E : Type 0} (o : Outcome EvalError (Value Float)) (f : EvalError → E) (v : Value Float)
          → map_err f o ≡ ok v
          → o ≡ ok v
      value_of (ok x) f v h = ap ok (ok_inj x v h)
      value_of (err x) f v h = absurd (ground arith)

      sides :
          (b : Bool)
          → holds row ≡ b
          → sent b row (keep holds rows, keep (λ x. not (holds x)) rows)
            ≡ (keep holds (row ∷ rows), keep (λ x. not (holds x)) (row ∷ rows))
      sides true h = rw h refl
      sides false h = rw h refl

  wrapped :
      {W A : Type 0} (f : PipeError → PipeError) (r : Outcome PipeError A × W) (a : A) (w : W)
      → wrapping f r ≡ (ok a, w)
      → r ≡ (ok a, w)
  wrapped f (ok x, v) a w h = h
  wrapped f (err x, v) a w h = absurd (ground arith)

  -- A `branch` that succeeds has evaluated its condition on every row. It has run the operators of
  -- `then` over the rows of which the condition holds and then, in the world that they left, those
  -- of `else` over the rows of which it does not hold, each in the order of the input, and returns
  -- the rows of `then` in front of those of `else`.
  pub branch_apply-keep :
      {W : Type 0} (then_ops else_ops : List (Operator Float W)) (rows out : List (Row Float))
      (w w' : W)
      → branch_apply go run cond then_ops else_ops rows w ≡ (ok out, w')
      → (thens : List (Row Float)) × (elses : List (Row Float)) × (mid : W) × (apply_chain then_ops
            (keep holds rows)
            w
          ≡ (ok thens, mid))
        × (apply_chain else_ops (keep (λ row. not (holds row)) rows) mid ≡ (ok elses, w'))
        × (out ≡ thens ++ elses)
        × All Evaluates rows
  unfolding branch_apply
  branch_apply-keep then_ops else_ops rows out w w' h =
      let (r, w1, e1, h1) = then_ok (route go run cond 0 rows, w) _ out w' h in
      let (a, w2, e2, h2) = then_ok (wrapping _ (apply_chain then_ops r.0 w1)) _ out w' h1 in
      let (b, w3, e3, h3) = then_ok (wrapping _ (apply_chain else_ops r.1 w2)) _ out w' h2 in
      let (ways, all) = route_ways 0 rows r (ap (λ x. x.0) e1) in
      let stays : w ≡ w1 = ap (λ x. x.1) e1 in
      let (same, ends) = ok_same (a ++ b) out w3 w' h3 in
      let first =
        subst (λ x. apply_chain then_ops x.0 w1 ≡ (ok a, w2)) ways (wrapped _ _ a w2 e2) in
      let second =
        subst (λ x. apply_chain else_ops x.1 w2 ≡ (ok b, w3)) ways (wrapped _ _ b w3 e3) in
      (
        a,
        b,
        w2,
        ap (apply_chain then_ops (keep holds rows)) stays ∙ first,
        second ∙ ap (λ v. (ok b, v)) ends,
        sym same,
        all,
      )
