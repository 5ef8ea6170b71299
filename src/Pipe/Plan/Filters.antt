-- ===== src/Pipe/Plan/Filters.antt =====
-- Two pushed filters folded into one clause (`mergeAnd` of pipe/planner.go), against the two
-- filters run one after the other (pipe/filter.go).
use dql.Prelude.{
  Bool, true, false, ◌≡◌, refl, List, [], ◌∷◌, Option, none, some, Outcome, ok, err, ◌>>=◌, arith,
  Outcome-cases, inl, inr,
}
use dql.Go.Runtime.{Runtime}
use dql.Go.Row.{Row}
use dql.Dsl.Where.{
  WhereClause, clause, Clauses, done, more, MaybeClause, absent, present, and_clause,
}
use dql.Dsl.Tree.{
  EvalError, Evaluator, Semantics, has_expr, has_expr_in, has_expr_not, has_expr_where, eval_tree,
  eval_every, eval_some, eval_not, eval_maybe, filter_rows,
}
use dql.Pipe.Where.{pipe_semantics}
use dql.Pipe.Rows.{filter_apply}
use dql.Pipe.Moves.{merge_and}

-- Whether an evaluation went well.
abbrev is_fine : Outcome EvalError Bool → Bool
is_fine (ok b) = true
is_fine (err e) = false

module _ {F : Type 0} (s : Semantics F) (row : Row F) where
  mutual
    unfolding has_expr eval_tree

    fine_where : (w : WhereClause F) → has_expr w ≡ false → is_fine (eval_tree s row w) ≡ true
    fine_where (clause f o v e ands ors neg) h =
        ground (arith, fine_every ands, fine_some ors, fine_not neg)

    fine_every : (ws : Clauses F) → has_expr_in ws ≡ false → is_fine (eval_every s row ws) ≡ true
    fine_every done h = refl
    fine_every (more w ws) h = ground (arith, fine_where w, fine_every ws)

    fine_some : (ws : Clauses F) → has_expr_in ws ≡ false → is_fine (eval_some s row ws) ≡ true
    fine_some done h = refl
    fine_some (more w ws) h = ground (arith, fine_where w, fine_some ws)

    fine_not : (n : MaybeClause F) → has_expr_not n ≡ false → is_fine (eval_not s row n) ≡ true
    fine_not absent h = refl
    fine_not (present w) h = ground (arith, fine_where w)

fine_value : (r : Outcome EvalError Bool) → is_fine r ≡ true → (b : Bool) × (r ≡ ok b)
fine_value (ok b) h = (b, refl)
fine_value (err e) h = absurd (ground arith)

module _ {F : Type 0} (s : Semantics F) where
  -- Both filters go well, and the second gives what the conjunction gives.
  record Chained (a b : WhereClause F) (rows : List (Row F)) : Type 0 where
    pub mid : List (Row F)
    pub out : List (Row F)
    pub first : filter_rows s (some a) rows ≡ ok mid
    pub second : filter_rows s (some b) mid ≡ ok out
    pub both : filter_rows s (some (and_clause (more a (more b done)))) rows ≡ ok out

  next_row :
      (a b : WhereClause F) (row : Row F) (rows : List (Row F)) (x y : Bool)
      → eval_tree s row a ≡ ok x
      → eval_tree s row b ≡ ok y
      → Chained a b rows
      → Chained a b (row ∷ rows)
  unfolding filter_rows eval_maybe eval_tree
  next_row a b row rows true true ea eb c = record {
    mid = row ∷ c.mid;
    out = row ∷ c.out;
    first = rw (ea, c.first) refl;
    second = rw (eb, c.second) refl;
    both = rw (ea, eb, c.both) refl;
  }
  next_row a b row rows true false ea eb c = record {
    mid = row ∷ c.mid;
    out = c.out;
    first = rw (ea, c.first) refl;
    second = rw (eb, c.second) refl;
    both = rw (ea, eb, c.both) refl;
  }
  next_row a b row rows false y ea eb c = record {
    mid = c.mid;
    out = c.out;
    first = rw (ea, c.first) refl;
    second = c.second;
    both = rw (ea, c.both) refl;
  }

  chained :
      (a b : WhereClause F) (rows : List (Row F))
      → has_expr a ≡ false
      → has_expr b ≡ false
      → Chained a b rows
  unfolding filter_rows
  chained a b [] ha hb = record { mid = []; out = []; first = refl; second = refl; both = refl }
  chained a b (row ∷ rows) ha hb =
      let (x, ea) = fine_value (eval_tree s row a) (fine_where s row a ha) in
      let (y, eb) = fine_value (eval_tree s row b) (fine_where s row b hb) in
      next_row a b row rows x y ea eb (chained a b rows ha hb)

  no_filter : (rows : List (Row F)) → filter_rows s none rows ≡ ok rows
  unfolding filter_rows eval_maybe
  no_filter [] = refl
  no_filter (row ∷ rows) = rw (no_filter rows) refl

module _ (go : Runtime) (eval : Option (Evaluator go.Float)) where
  open go use {Float}

  -- Two filters without expressions that are folded into one clause let through the rows that the
  -- filters let through one after the other.
  pub merge_and-filters :
      (a b : Option (WhereClause Float)) (rows : List (Row Float))
      → has_expr_where a ≡ false
      → has_expr_where b ≡ false
      → filter_apply go eval (merge_and a b) rows
        ≡ (filter_apply go eval a rows >>= λ mid. filter_apply go eval b mid)
  unfolding filter_apply merge_and
  merge_and-filters none b rows ha hb = rw (no_filter (pipe_semantics go eval) rows) refl
  merge_and-filters (some a) none rows ha hb =
      elim (Outcome-cases (filter_rows (pipe_semantics go eval) (some a) rows)) [
        | inl r ↦ rw (r.1, no_filter (pipe_semantics go eval) r.0) refl
        | inr r ↦ rw r.1 refl
      ]
  merge_and-filters (some a) (some b) rows ha hb =
      let c = chained (pipe_semantics go eval) a b rows ha hb in rw (c.both, c.first, c.second) refl
