-- ===== src/Planner/Where/Total.antt =====
-- What is pushed holds no expression, and what is kept for memory, when no column is computed,
-- holds one.
use dql.Prelude.{
  String, Bool, not, ◌&&◌, ◌||◌, contains, ◌≡◌, List, Option, none, some, arith, Bool-cases, inl,
  inr, str_eq,
}
use dql.Go.Row.{Row}
use dql.Dsl.Where.{WhereClause, clause, Clauses, done, more, MaybeClause, absent, present, has_any}
use dql.Dsl.Tree.{Semantics, eval_tree, eval_every, eval_some, eval_not}
use dql.Dsl.Filters.{Returns}
use dql.Planner.Where.{
  Parts, conjunction, disjunction, split_simple, split_where, split_every, split_some, split_not,
}

module _ {F : Type 0} (s : Semantics F) (row : Row F) where
  abbrev pub IsTotal : Parts F → Type 0
  IsTotal (none, m) = Unit
  IsTotal (some p, m) = Returns (eval_tree s row p)

  abbrev IsTotalSome : Option (Clauses F) → Type 0
  IsTotalSome none = Unit
  IsTotalSome (some ps) = Returns (eval_some s row ps)

  conjunction-IsTotal :
      (ps : Clauses F) (m : Bool) → Returns (eval_every s row ps) → IsTotal (conjunction ps, m)
  unfolding eval_tree
  conjunction-IsTotal done m h = tt
  conjunction-IsTotal (more p ps) m h = h

  disjunction-IsTotal : (r : Option (Clauses F)) → IsTotalSome r → IsTotal (disjunction r)
  unfolding eval_tree
  disjunction-IsTotal none h = tt
  disjunction-IsTotal (some done) h = tt
  disjunction-IsTotal (some (more p ps)) h = h

  module _ (raw computed : List String) where
    simple-IsTotal :
        (w : WhereClause F) (name : String)
        → Returns (eval_tree s row w)
        → IsTotal (split_simple raw computed w name)
    simple-IsTotal w name h = elim (Bool-cases (contains computed name)) [
      | inl e ↦ rw e tt
      | inr e ↦
          elim (Bool-cases
            (contains raw name || (str_eq name "workspace_id" || str_eq name "project_id"))) [
              | inl k ↦ rw (e, k) h
              | inr k ↦ rw (e, k) h
            ]
    ]

    mutual
      unfolding split_where eval_tree

      pub IsTotal-where : (w : WhereClause F) → IsTotal (split_where raw computed w)
      IsTotal-where (clause f o v e ands ors neg) = elim (Bool-cases (str_eq e "")) [
        | inr named ↦ rw named tt
        | inl plain ↦ elim (Bool-cases (not (str_eq f "") && not (str_eq o ""))) [
          | inl simple ↦
              rw (plain, simple)
                (simple-IsTotal (clause f o v e ands ors neg) f (rw (plain, simple) tt))
          | inr compound ↦ elim (Bool-cases (has_any ands)) [
            | inl h ↦
                rw (plain, compound, h)
                  (conjunction-IsTotal (split_every raw computed ands).0
                    (split_every raw computed ands).1 (total_every ands))
            | inr h ↦ elim (Bool-cases (has_any ors)) [
              | inl k ↦
                  rw (plain, compound, h, k)
                    (disjunction-IsTotal (split_some raw computed ors) (total_some ors))
              | inr k ↦
                  rw (plain, compound, h, k)
                    (IsTotal-not neg (clause f o v e ands ors neg) (rw (plain, compound, h, k)))
            ]
          ]
        ]
      ]

      total_every : (ws : Clauses F) → Returns (eval_every s row (split_every raw computed ws).0)
      total_every done = tt
      total_every (more w ws) = ground (arith, IsTotal-where w, total_every ws)

      total_some : (ws : Clauses F) → IsTotalSome (split_some raw computed ws)
      total_some done = tt
      total_some (more w ws) = ground (arith, IsTotal-where w, total_some ws)

      IsTotal-not :
          (n : MaybeClause F) (whole : WhereClause F)
          → eval_tree s row whole ≡ eval_not s row n
          → IsTotal (split_not raw computed whole n)
      IsTotal-not absent whole h = rw h tt
      IsTotal-not (present w) whole h = ground (arith, IsTotal-where w)
