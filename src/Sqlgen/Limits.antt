-- ===== src/Sqlgen/Limits.antt =====
-- The LIMIT of a generated statement (sqlgen/sql_generator.go).
use dql.Prelude.{◌≡◌, subst, sym, List, [], Option, none, some, ok, arith}
use dql.Prelude.Int.{ℤ}
use dql.Go.Runtime.{Runtime}
use dql.Go.Value.{Value, num, int}
use dql.Dsl.Query.{QueryPlan}
use dql.Scope.{Scope}
use dql.Sqlgen.Emit.{Sql}
use dql.Sqlgen.Placeholders.{offset-IsNumbered}
use dql.Sqlgen.Generate.{
  limit_clause, offset_clause, build_limit_offset, build_select, build_from, build_joins,
  build_where, build_group_by, build_having, build_order_by, statement, generate_sql,
}
use dql.Sqlgen.Bound.{Binds, AlwaysBinds, predicate-Binds, left-Binds, right-Binds}

module _ (go : Runtime) (plan : QueryPlan go.Float) (n : ℤ) where
  open go use {Float}

  limit-Binds :
      plan.pushed_limit ≡ some n → AlwaysBinds " LIMIT " (num int n) (build_limit_offset plan)
  unfolding build_limit_offset
  limit-Binds h =
      left-Binds _ _ (limit_clause plan.pushed_limit) (offset_clause plan.pushed_offset)
        (subst (λ l. AlwaysBinds {F = Float} " LIMIT " (num int n) (limit_clause l)) (sym h)
          (predicate-Binds _ _))
        (offset-IsNumbered go plan.pushed_offset)

  -- A limit that is pushed stands in the statement, with its number as the parameter.
  pub pushed_limit-Binds :
      (sc : Option (Scope Float)) (sql : Sql) (params : List (Value Float))
      → generate_sql go plan sc ≡ ok (sql, params)
      → plan.pushed_limit ≡ some n
      → Binds " LIMIT " (num int n) (sql, params)
  unfolding generate_sql
  pushed_limit-Binds (some sc) sql params h hl =
      let same : statement go plan sc [] ≡ (sql, params) = cc in
      subst (Binds " LIMIT " (num int n)) same (
        (right-Binds _ _ (build_select plan) _ (
            right-Binds _ _ (build_from plan) _ (
              right-Binds _ _ (build_joins go plan sc) _ (
                right-Binds _ _ (build_where go plan sc) _ (
                  right-Binds _ _ (build_group_by plan) _ (
                    right-Binds _ _ (build_having go plan) _
                      (right-Binds _ _ (build_order_by go plan) _ (limit-Binds hl)))))))).at
          [])
  pushed_limit-Binds none sql params h hl = absurd (ground arith)
