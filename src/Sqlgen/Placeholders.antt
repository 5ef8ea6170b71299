-- ===== src/Sqlgen/Placeholders.antt =====
-- Every placeholder of a generated statement has its parameter, and every parameter its
-- placeholder (sqlgen/sql_generator.go).
use dql.Prelude.{
  zero, suc, String, Bool, ◌≡◌, List, [], ◌∷◌, Option, none, some, ok, All, ◌∙◌, sym, ap, subst,
}
use dql.Prelude.Int.{ℤ, pos, negsuc}
use dql.Go.Runtime.{Runtime}
use dql.Go.Value.{Value}
use dql.Dsl.Where.{WhereClause, clause, Clauses, done, more, MaybeClause, absent, present}
use dql.Dsl.Query.{QueryPlan, JoinPlan, OrderByClause}
use dql.Scope.{Scope}
use dql.Sqlgen.Emit.{Sql, Emit, write, bind_value, ◌⨾◌, join_emits}
use dql.Sqlgen.Condition.{
  affix_condition, simple_condition, where_clause, where_clauses, where_not, in_values,
  between_values,
}
use dql.Sqlgen.Generate.{
  build_select, build_from, scope_join, build_join, build_joins, build_where, build_group_by,
  build_having, build_order_by, build_limit_offset, generate_sql, scope_predicate, applied_scope,
  statement, scope_joins, build_each_join, where_parts, having_clause, order_part, order_parts,
  limit_clause, offset_clause,
}
use dql.Sqlgen.Numbering.{
  Appends, IsNumbered, numbering_rules, numbers, positions, nothing-IsNumbered, if-IsNumbered,
  then-IsNumbered, write-IsNumbered, join-IsNumbered, map-IsNumbered, bind-IsNumbered,
}

numbered_of : {F : Type 0} (r : Sql × List (Value F)) → Appends [] r → numbers r.0 ≡ positions 0 r.1
numbered_of r a = a.numbered ∙ ap (λ vs. positions 0 vs) (sym a.params)

module _ (go : Runtime) where
  open go use {Float}

  affix-IsNumbered :
      (col : String) (v : Value Float) (a b : String) → IsNumbered (affix_condition go col v a b)
  unfolding affix_condition
  affix-IsNumbered col v a b = search numbering_rules

  in_values-IsNumbered :
      (col : String) (b : Bool) (vs : Option (List (Value Float)))
      → IsNumbered (in_values go col b vs)
  in_values-IsNumbered col b none = write-IsNumbered _
  in_values-IsNumbered col b (some []) = write-IsNumbered _
  in_values-IsNumbered col b (some (v ∷ vs)) = then-IsNumbered _ _ (write-IsNumbered _) (
      then-IsNumbered _ _
        (join-IsNumbered ", " _ (map-IsNumbered bind_value bind-IsNumbered (v ∷ vs)))
        (write-IsNumbered _))

  between_values-IsNumbered :
      (col : String) (vs : Option (List (Value Float))) → IsNumbered (between_values go col vs)
  between_values-IsNumbered col (some (a ∷ b ∷ [])) = search numbering_rules
  between_values-IsNumbered col _ = write-IsNumbered _

  simple-IsNumbered :
      (field op : String) (v : Value Float) → IsNumbered (simple_condition go field op v)
  unfolding simple_condition
  simple-IsNumbered field op v =
      search (numbering_rules, affix-IsNumbered, in_values-IsNumbered, between_values-IsNumbered)
        depth 14

  parens-IsNumbered :
      (sep : String) (es : List (Emit Float))
      → All IsNumbered es
      → IsNumbered (write "(" ⨾ join_emits sep es ⨾ write ")")
  parens-IsNumbered sep es h = search numbering_rules

  mutual
    unfolding where_clause

    pub where-IsNumbered : (w : WhereClause Float) → IsNumbered (where_clause go w)
    where-IsNumbered (clause f o v e ands ors neg) = if-IsNumbered _ _ _ (simple-IsNumbered f o v) (
        if-IsNumbered _ _ _ (parens-IsNumbered " AND " _ (clauses-IsNumbered ands)) (
          if-IsNumbered _ _ _ (parens-IsNumbered " OR " _ (clauses-IsNumbered ors))
            (not-IsNumbered neg)))

    clauses-IsNumbered : (ws : Clauses Float) → All IsNumbered (where_clauses go ws)
    clauses-IsNumbered done = tt
    clauses-IsNumbered (more w ws) = (where-IsNumbered w, clauses-IsNumbered ws)

    not-IsNumbered : (n : MaybeClause Float) → IsNumbered (where_not go n)
    not-IsNumbered absent = nothing-IsNumbered
    not-IsNumbered (present w) =
        then-IsNumbered _ _ (write-IsNumbered _)
          (then-IsNumbered _ _ (where-IsNumbered w) (write-IsNumbered _))

  scope_join-IsNumbered :
      (alias : String) (sc : Scope Float) (name : String) → IsNumbered (scope_join alias sc name)
  unfolding scope_join
  scope_join-IsNumbered alias [] name = nothing-IsNumbered
  scope_join-IsNumbered alias (c ∷ sc) name =
      if-IsNumbered _ _ _ (then-IsNumbered _ _ (write-IsNumbered _) (bind-IsNumbered c.value))
        (scope_join-IsNumbered alias sc name)

  pub scope_joins-IsNumbered :
      (alias : String) (sc : Scope Float) (names : List String)
      → IsNumbered (scope_joins alias sc names)
  scope_joins-IsNumbered alias sc [] = nothing-IsNumbered
  scope_joins-IsNumbered alias sc (n ∷ ns) =
      then-IsNumbered _ _ (scope_join-IsNumbered alias sc n) (scope_joins-IsNumbered alias sc ns)

  pub each_join-IsNumbered :
      (plan : QueryPlan Float) (sc : Scope Float) (js : List JoinPlan)
      → IsNumbered (build_each_join go plan sc js)
  unfolding build_join
  each_join-IsNumbered plan sc [] = nothing-IsNumbered
  each_join-IsNumbered plan sc (j ∷ js) =
      then-IsNumbered _ _
        (then-IsNumbered _ _ (write-IsNumbered _)
          (scope_joins-IsNumbered j.alias sc j.scope_columns))
        (each_join-IsNumbered plan sc js)

  where_parts-IsNumbered :
      (ps : List (Emit Float)) (w : Option (WhereClause Float))
      → All IsNumbered ps
      → IsNumbered (where_parts go ps w)
  where_parts-IsNumbered [] none h = nothing-IsNumbered
  where_parts-IsNumbered [] (some w) h = search (numbering_rules, where-IsNumbered)
  where_parts-IsNumbered (p ∷ ps) none h = search numbering_rules
  where_parts-IsNumbered (p ∷ ps) (some w) h = search (numbering_rules, where-IsNumbered)

  build_where-IsNumbered :
      (plan : QueryPlan Float) (sc : Scope Float) → IsNumbered (build_where go plan sc)
  unfolding build_where
  build_where-IsNumbered plan sc = where_parts-IsNumbered _ plan.pushed_where (
      map-IsNumbered (scope_predicate plan)
        (λ c. then-IsNumbered _ _ (write-IsNumbered _) (bind-IsNumbered c.value))
        (applied_scope plan sc))

  pub having-IsNumbered : (w : Option (WhereClause Float)) → IsNumbered (having_clause go w)
  having-IsNumbered none = nothing-IsNumbered
  having-IsNumbered (some w) = then-IsNumbered _ _ (write-IsNumbered _) (where-IsNumbered w)

  pub order-IsNumbered : (os : List OrderByClause) → IsNumbered (order_parts go os)
  order-IsNumbered [] = nothing-IsNumbered
  order-IsNumbered (o ∷ os) = then-IsNumbered _ _ (write-IsNumbered _) (
      join-IsNumbered ", " _
        (map-IsNumbered (order_part go) (λ p. search numbering_rules) (o ∷ os)))

  pub limit-IsNumbered : (n : Option ℤ) → IsNumbered (limit_clause {F = Float} n)
  limit-IsNumbered none = nothing-IsNumbered
  limit-IsNumbered (some n) = search numbering_rules

  pub offset-IsNumbered : (n : Option ℤ) → IsNumbered (offset_clause {F = Float} n)
  offset-IsNumbered none = nothing-IsNumbered
  offset-IsNumbered (some (pos zero)) = nothing-IsNumbered
  offset-IsNumbered (some (pos (suc n))) = search numbering_rules
  offset-IsNumbered (some (negsuc n)) = nothing-IsNumbered

  statement-IsNumbered :
      (plan : QueryPlan Float) (sc : Scope Float) → IsNumbered (statement go plan sc)
  unfolding build_select build_from build_joins build_group_by build_having build_order_by
      build_limit_offset
  statement-IsNumbered plan sc =
      search
        (
          numbering_rules, each_join-IsNumbered, build_where-IsNumbered, having-IsNumbered,
          order-IsNumbered, limit-IsNumbered, offset-IsNumbered,
        )
        depth 14

  -- In every statement that is generated, the numbers of the placeholders, read in the order of
  -- the text, are 1, 2, … up to the number of parameters: each parameter has one placeholder and
  -- no placeholder is without its parameter.
  pub generate_sql-numbered :
      (plan : QueryPlan Float) (sc : Scope Float) (sql : Sql) (params : List (Value Float))
      → generate_sql go plan (some sc) ≡ ok (sql, params)
      → numbers sql ≡ positions 0 params
  unfolding generate_sql
  generate_sql-numbered plan sc sql params h =
      let same : statement go plan sc [] ≡ (sql, params) = cc in
      subst (λ r. numbers r.0 ≡ positions 0 r.1) same
        (numbered_of _ ((statement-IsNumbered plan sc).at []))
