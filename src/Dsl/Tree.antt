-- ===== src/Dsl/Tree.antt =====
-- The walk over a WHERE tree that the processor (`evalWhereExpr`) and the pipe (`evalWhere`) each
-- write out, over what differs between the two: the test of a simple condition, and which values
-- count as true. The host's expression evaluator is a parameter of both.
use dql.Prelude.{
  String, Bool, true, false, List, [], ◌∷◌, not, ◌&&◌, ◌||◌, Option, none, some, Outcome, ok, err,
  ◌>>=◌, str_eq, if◌then◌else◌,
}
use dql.Go.Value.{Value}
use dql.Go.Row.{Row}
use dql.Dsl.Where.{WhereClause, clause, Clauses, done, more, MaybeClause, absent, present, has_any}

pub data EvalError : Type 0 where
  -- "expression evaluator not available"
  no_evaluator : EvalError
  -- what the host's evaluator reports
  failed : String → EvalError

-- `ExprEvaluator.Eval` with the context fixed.
abbrev pub Evaluator : Type 0 → Type 0
Evaluator F = String → Row F → Outcome EvalError (Value F)

unfoldable mutual
  -- Whether a tree holds an expression anywhere.
  pub has_expr : {F : Type 0} → WhereClause F → Bool
  has_expr (clause f o v e ands ors neg) =
      not (str_eq e "") || (has_expr_in ands || (has_expr_in ors || has_expr_not neg))

  pub has_expr_in : {F : Type 0} → Clauses F → Bool
  has_expr_in done = false
  has_expr_in (more w ws) = has_expr w || has_expr_in ws

  pub has_expr_not : {F : Type 0} → MaybeClause F → Bool
  has_expr_not absent = false
  has_expr_not (present w) = has_expr w

-- `qhelp.HasExprWhere` on a pointer.
abbrev pub has_expr_where : {F : Type 0} → Option (WhereClause F) → Bool
has_expr_where none = false
has_expr_where (some w) = has_expr w

pub record Semantics (F : Type 0) : Type 0 where
  -- field, op, value, row
  pub simple : String → String → Value F → Row F → Bool
  pub truthy : Value F → Bool
  pub eval : Option (Evaluator F)

-- `if err != nil …; if !ok { return false, nil }` before the rest of a conjunction.
abbrev pub and_then : Outcome EvalError Bool → Outcome EvalError Bool → Outcome EvalError Bool
and_then (err e) rest = err e
and_then (ok false) rest = ok false
and_then (ok true) rest = rest

abbrev pub or_else : Outcome EvalError Bool → Outcome EvalError Bool → Outcome EvalError Bool
or_else (err e) rest = err e
or_else (ok true) rest = ok true
or_else (ok false) rest = rest

abbrev pub negated : Outcome EvalError Bool → Outcome EvalError Bool
negated (err e) = err e
negated (ok b) = ok (not b)

module _ {F : Type 0} (s : Semantics F) (row : Row F) where
  unfoldable pub eval_expr : String → Outcome EvalError Bool
  eval_expr e = elim s.eval [
    | none ↦ err no_evaluator
    | some run ↦ run e row >>= λ v. ok (s.truthy v)
  ]

  unfoldable mutual
    -- The walk on a clause; on a nil clause it is `ok true`.
    pub eval_tree : WhereClause F → Outcome EvalError Bool
    eval_tree (clause f o v e ands ors neg) =
        if not (str_eq e "")
        then eval_expr e
        else if not (str_eq f "") && not (str_eq o "")
        then ok (s.simple f o v row)
        else if has_any ands
        then eval_every ands
        else if has_any ors
        then eval_some ors
        else eval_not neg

    pub eval_every : Clauses F → Outcome EvalError Bool
    eval_every done = ok true
    eval_every (more w ws) = and_then (eval_tree w) (eval_every ws)

    pub eval_some : Clauses F → Outcome EvalError Bool
    eval_some done = ok false
    eval_some (more w ws) = or_else (eval_tree w) (eval_some ws)

    pub eval_not : MaybeClause F → Outcome EvalError Bool
    eval_not absent = ok true
    eval_not (present w) = negated (eval_tree w)

-- The walk on the pointer that a filter or a query holds.
unfoldable pub eval_maybe :
    {F : Type 0} → Semantics F → Row F → Option (WhereClause F) → Outcome EvalError Bool
unfolding eval_tree
eval_maybe s row none = ok true
eval_maybe s row (some w) = eval_tree s row w

-- The loop of a filter: it stops at the first error.
unfoldable pub filter_rows :
    {F : Type 0}
    → Semantics F
    → Option (WhereClause F)
    → List (Row F)
    → Outcome EvalError (List (Row F))
unfolding eval_maybe
filter_rows s w [] = ok []
filter_rows s w (row ∷ rows) =
    let rest = filter_rows s w rows in
    eval_maybe s row w >>= λ match. rest >>= λ out. ok (if match then row ∷ out else out)
