-- ===== src/Planner/Where/Kept.antt =====
-- Why a clause is kept for memory: where no column is computed, it holds an expression.
use dql.Prelude.{
  String, Bool, true, false, not, ◌&&◌, ◌||◌, ◌≡◌, refl, List, [], Option, none, some, arith,
  Bool-cases, inl, inr, str_eq, contains,
}
use dql.Dsl.Where.{WhereClause, clause, Clauses, done, more, MaybeClause, absent, present, has_any}
use dql.Dsl.Tree.{has_expr, has_expr_in, has_expr_not}
use dql.Planner.Where.{
  Parts, conjunction, disjunction, split_simple, split_where, split_every, split_some, split_not,
}

module _ {F : Type 0} where
  -- Nothing is lost, and what is kept has the expression `e`.
  abbrev pub IsKept : Bool → Parts F → Type 0
  IsKept e (p, true) = e ≡ true
  IsKept e (none, false) = ⊥
  IsKept e (some p, false) = Unit

  abbrev IsKeptEvery : Clauses F → Clauses F × Bool → Type 0
  IsKeptEvery ws (ps, true) = has_expr_in ws ≡ true
  IsKeptEvery ws (ps, false) = has_any ps ≡ has_any ws

  abbrev IsKeptSome : Clauses F → Option (Clauses F) → Type 0
  IsKeptSome ws none = has_expr_in ws ≡ true
  IsKeptSome ws (some ps) = Unit

  and-IsKept :
      (ws ps : Clauses F) (m e : Bool)
      → has_any ws ≡ true
      → (has_expr_in ws ≡ true → e ≡ true)
      → IsKeptEvery ws (ps, m)
      → IsKept e (conjunction ps, m)
  and-IsKept ws ps true e h up k = up k
  and-IsKept ws done false e h up k = cc
  and-IsKept ws (more p ps) false e h up k = tt

  or-IsKept :
      (ws : Clauses F) (r : Option (Clauses F)) (e : Bool)
      → (has_expr_in ws ≡ true → e ≡ true)
      → IsKeptSome ws r
      → IsKept e (disjunction r)
  or-IsKept ws none e up k = up k
  or-IsKept ws (some ps) e up k = tt

  simple-IsKept :
      (raw : List String) (w : WhereClause F) (name : String) (e : Bool)
      → IsKept e (split_simple raw [] w name)
  simple-IsKept raw w name e =
      elim (Bool-cases
        (contains raw name || (str_eq name "workspace_id" || str_eq name "project_id"))) [
          | inl k ↦ rw k tt
          | inr k ↦ rw k tt
        ]

  module _ (raw : List String) where
    mutual
      unfolding split_where has_expr

      pub IsKept-where : (w : WhereClause F) → IsKept (has_expr w) (split_where raw [] w)
      IsKept-where (clause f o v e ands ors neg) = elim (Bool-cases (str_eq e "")) [
        | inr named ↦ rw named refl
        | inl plain ↦ elim (Bool-cases (not (str_eq f "") && not (str_eq o ""))) [
          | inl simple ↦ rw (plain, simple) (simple-IsKept raw (clause f o v e ands ors neg) f _)
          | inr compound ↦ elim (Bool-cases (has_any ands)) [
            | inl h ↦
                rw (plain, compound, h)
                  (and-IsKept ands (split_every raw [] ands).0 (split_every raw [] ands).1 _ h
                    (λ k. ground arith) (kept_every ands))
            | inr h ↦ elim (Bool-cases (has_any ors)) [
              | inl k ↦
                  rw (plain, compound, h, k)
                    (or-IsKept ors (split_some raw [] ors) _ (λ x. ground arith) (kept_some ors))
              | inr k ↦
                  rw (plain, compound, h, k)
                    (IsKept-not neg (clause f o v e ands ors neg) _ (λ x. ground arith))
            ]
          ]
        ]
      ]

      kept_every : (ws : Clauses F) → IsKeptEvery ws (split_every raw [] ws)
      kept_every done = refl
      kept_every (more w ws) = ground (arith, IsKept-where w, kept_every ws)

      kept_some : (ws : Clauses F) → IsKeptSome ws (split_some raw [] ws)
      kept_some done = tt
      kept_some (more w ws) = ground (arith, IsKept-where w, kept_some ws)

      IsKept-not :
          (n : MaybeClause F) (whole : WhereClause F) (e : Bool)
          → (has_expr_not n ≡ true → e ≡ true)
          → IsKept e (split_not raw [] whole n)
      IsKept-not absent whole e up = tt
      IsKept-not (present w) whole e up = ground (arith, IsKept-where w)
