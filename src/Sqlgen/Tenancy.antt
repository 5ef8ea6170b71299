-- ===== src/Sqlgen/Tenancy.antt =====
-- The partition predicates of a generated statement (sqlgen/sql_generator.go, scope/scope.go).
use dql.Prelude.{
  ℕ, suc, String, Bool, true, ◌||◌, ◌≡◌, refl, sym, ◌∙◌, ap, subst, List, [], ◌∷◌, ◌++◌, map, keep,
  some, ok, arith, length, get_elem?, All, keep-append, All-append,
}
use Prim.Native.String.{◌++◌ as str_append}
use dql.Go.Runtime.{Runtime}
use dql.Go.Value.{Value}
use dql.Dsl.Query.{QueryPlan}
use dql.Scope.{Scope, ScopeColumn}
use dql.Sqlgen.Emit.{text, placeholder, Sql, Emit, write, bind_value, ◌⨾◌}
use dql.Sqlgen.Placeholders.{
  having-IsNumbered, order-IsNumbered, limit-IsNumbered, offset-IsNumbered,
}
use dql.Sqlgen.Generate.{
  where_parts, scope_column, scope_predicate, dataset_has_column, applied_scope, build_where,
  build_select, build_from, build_joins, build_group_by, build_having, build_order_by,
  build_limit_offset, statement, generate_sql,
}
use dql.Sqlgen.Numbering.{
  IsNumbered, write-IsNumbered, then-IsNumbered, map-IsNumbered, bind-IsNumbered, numbering_rules,
}
use dql.Sqlgen.Bound.{get_elem?-last, length-snoc}
use dql.Sqlgen.Operands.{
  HasKnownOpsWhere, joined, written, params_after, is_equation, AreOperands, WritesOperand,
  written-AreOperands,
}
use dql.Sqlgen.Joining.{
  kept, all_kept, then_assoc, pushed, pushed-WritesOperand, pushed-IsNumbered, around,
}

-- The clauses in front of WHERE, and those behind it.
abbrev pub front : (go : Runtime) → QueryPlan go.Float → Scope go.Float → Emit go.Float
front go plan sc = build_select plan ⨾ build_from plan ⨾ build_joins go plan sc

abbrev pub tail : (go : Runtime) → QueryPlan go.Float → Emit go.Float
tail go plan =
    build_group_by plan ⨾ build_having go plan ⨾ build_order_by go plan ⨾ build_limit_offset plan

-- Between the clauses in front of it and those behind it, the statement's WHERE clause is operands
-- with AND between them, and one of those operands is `column = $n`, where the parameter of that
-- number is the value.
pub record Confines (go : Runtime) (plan : QueryPlan go.Float) (sc : Scope go.Float)
    (column : String) (v : Value go.Float) (r : Sql × List (Value go.Float)) : Type 0 where
  pub before : List Sql
  pub after : List Sql
  pub index : ℕ
  pub bound : List (Value go.Float)
  pub split :
      r.0
      ≡ (front go plan sc []).0
        ++ (text " WHERE "
              ∷ joined " AND " (
                  before ++ (text (str_append column " = ") ∷ placeholder (suc index) ∷ []) ∷ after)
            ++ (tail go plan bound).0)
  pub before_AreOperands : AreOperands go before
  pub after_AreOperands : AreOperands go after
  pub value : get_elem? r.1 index ≡ some v

keep-keeps {ℓ} :
    {A : Type ℓ} (p : A → Bool) (xs : List A) (a : A) (ys : List A)
    → p a ≡ true
    → keep p (xs ++ a ∷ ys) ≡ keep p xs ++ a ∷ keep p ys
keep-keeps p xs a ys h = keep-append p xs (a ∷ ys) ∙ ap (λ zs. keep p xs ++ zs) (ground arith)

map-append {ℓ} :
    {A B : Type ℓ} (f : A → B) (xs ys : List A) → map f (xs ++ ys) ≡ map f xs ++ map f ys
map-append f [] ys = refl
map-append f (x ∷ xs) ys = ap (◌∷◌ (f x)) (map-append f xs ys)

module _ (go : Runtime) (plan : QueryPlan go.Float) (c : ScopeColumn go.Float) where
  open go use {Float}

  predicates-WriteOperands :
      (sc : Scope Float) → All (WritesOperand go) (map (scope_predicate plan) sc)
  unfolding scope_predicate write bind_value ◌⨾◌
  predicates-WriteOperands [] = tt
  predicates-WriteOperands (x ∷ xs) = (λ ps. is_equation _ _, predicates-WriteOperands xs)

  predicates-IsNumbered : (sc : Scope Float) → All IsNumbered (map (scope_predicate plan) sc)
  unfolding scope_predicate
  predicates-IsNumbered =
      map-IsNumbered (scope_predicate plan)
        (λ x. then-IsNumbered _ _ (write-IsNumbered _) (bind-IsNumbered x.value))

  tail-IsNumbered : IsNumbered (tail go plan)
  unfolding build_group_by build_having build_order_by build_limit_offset
  tail-IsNumbered =
      search
        (numbering_rules, having-IsNumbered, order-IsNumbered, limit-IsNumbered, offset-IsNumbered)
        depth 14

  -- The statement, once its WHERE clause is known.
  statement_around :
      (sc : Scope Float) (w : Sql) (bound : List (Value Float))
      → build_where go plan sc (front go plan sc []).1 ≡ (w, bound)
      → statement go plan sc []
        ≡ ((front go plan sc []).0 ++ (w ++ (tail go plan bound).0), (tail go plan bound).1)
  unfolding ◌⨾◌
  statement_around sc w bound h =
      let rest = build_where go plan sc ⨾ tail go plan in
      ap (λ r. ((build_select plan []).0 ++ r.0, r.1))
        (sym (then_assoc (build_from plan) (build_joins go plan sc) rest (build_select plan []).1))
      ∙ sym (then_assoc (build_select plan) (build_from plan ⨾ build_joins go plan sc) rest [])
      ∙ ap (λ r. ((front go plan sc []).0 ++ (r.0 ++ (tail go plan r.1).0), (tail go plan r.1).1)) h

  where_around :
      (before after : Scope Float) (ps : List (Value Float))
      → c.required ≡ true
      → let es = map (scope_predicate plan) (applied_scope plan before) in
        let fs = map (scope_predicate plan) (applied_scope plan after) in
        let mid = params_after es ps in
        let e = scope_predicate plan c in
        let zs = fs ++ pushed go plan.pushed_where in
        build_where go plan (before ++ c ∷ after) ps ≡ (
          text " WHERE " ∷ joined " AND " (written es ps ++ (e mid).0 ∷ written zs (e mid).1),
          params_after zs (e mid).1,
        )
  unfolding build_where applied_scope
  where_around before after ps h =
      let p : ScopeColumn Float → Bool =
        λ x. x.required || dataset_has_column plan.dataset.columns x.name in
      let f = scope_predicate plan in
      ap (λ es. where_parts go es plan.pushed_where ps)
        (ap (map f) (
            keep-keeps p before c after
              (ap (λ b. b || dataset_has_column plan.dataset.columns c.name) h))
          ∙ map-append f (keep p before) (c ∷ keep p after))
      ∙ around go (map f (keep p before)) (f c) (map f (keep p after)) plan.pushed_where ps

  -- A required partition column confines every statement that is generated from a plan whose pushed
  -- condition, if there is one, has only the operators of the language: wherever the column stands
  -- in the scope, and whatever the plan's joins, the shape of its condition and its other clauses
  -- are, the statement has a WHERE clause, and it is operands with AND between them, of which one is
  -- the predicate `column = $n` with the scope's value as parameter n. Each of the others is empty,
  -- a single condition, or operands in brackets, negated or not, so that no OR of the pushed
  -- condition stands beside the predicate.
  pub required_column-Confines :
      (before after : Scope Float) (sql : Sql) (params : List (Value Float))
      → c.required ≡ true
      → HasKnownOpsWhere plan.pushed_where
      → generate_sql go plan (some (before ++ c ∷ after)) ≡ ok (sql, params)
      → Confines go plan (before ++ c ∷ after) (scope_column plan c.name) c.value (sql, params)
  unfolding generate_sql scope_predicate write bind_value ◌⨾◌
  required_column-Confines before after sql params hr known h =
      let sc = before ++ c ∷ after in
      let es = map (scope_predicate plan) (applied_scope plan before) in
      let others = applied_scope plan after in
      let fs = map (scope_predicate plan) others in
      let clause = pushed go plan.pushed_where in
      let zs = fs ++ clause in
      let ps = (front go plan sc []).1 in
      let mid = params_after es ps in
      let qs = mid ++ c.value ∷ [] in
      let bound = params_after zs qs in
      let same : statement go plan sc [] ≡ (sql, params) = cc in
      subst (Confines go plan sc (scope_column plan c.name) c.value)
        (sym (statement_around sc _ bound (where_around before after ps hr)) ∙ same)
        (record {
          before = written es ps;
          after = written zs qs;
          index = length mid;
          bound = bound;
          split = rw (length-snoc mid c.value) refl;
          before_AreOperands =
              written-AreOperands go es (predicates-WriteOperands (applied_scope plan before)) ps;
          after_AreOperands =
              written-AreOperands go zs
                (All-append (WritesOperand go) fs clause (predicates-WriteOperands others)
                  (pushed-WritesOperand go plan.pushed_where known))
                qs;
          value = kept _ _ _ bound tail-IsNumbered (
              all_kept zs _ _ qs
                (All-append IsNumbered fs clause (predicates-IsNumbered others)
                  (pushed-IsNumbered go plan.pushed_where))
                (get_elem?-last mid c.value));
        })
