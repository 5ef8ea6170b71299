-- ===== src/Planner/Where/Split.antt =====
-- What the two parts of a split WHERE clause mean.
use dql.Prelude.{
  String, Bool, true, false, not, ◌&&◌, ◌≡◌, refl, List, Option, none, some, Outcome, ok, arith,
  Bool-cases, inl, inr, str_eq,
}
use dql.Go.Row.{Row}
use dql.Dsl.Where.{WhereClause, clause, Clauses, done, more, MaybeClause, absent, present, has_any}
use dql.Dsl.Tree.{Semantics, EvalError, eval_tree, eval_every, eval_some, eval_not}
use dql.Planner.Where.{
  Parts, conjunction, disjunction, split_where, split_every, split_some, split_not,
}

module _ {F : Type 0} (s : Semantics F) (row : Row F) where
  -- What is pushed whole means the clause; what is pushed in part follows from it.
  abbrev pub IsSound : Outcome EvalError Bool → Parts F → Type 0
  IsSound r (none, true) = Unit
  IsSound r (none, false) = ⊥
  IsSound r (some p, false) = eval_tree s row p ≡ r
  IsSound r (some p, true) = r ≡ ok true → eval_tree s row p ≡ ok true

  abbrev IsSoundEvery : Clauses F → Clauses F × Bool → Type 0
  IsSoundEvery ws (ps, false) =
      (eval_every s row ps ≡ eval_every s row ws) × (has_any ps ≡ has_any ws)
  IsSoundEvery ws (ps, true) = eval_every s row ws ≡ ok true → eval_every s row ps ≡ ok true

  abbrev IsSoundSome : Clauses F → Option (Clauses F) → Type 0
  IsSoundSome ws none = Unit
  IsSoundSome ws (some ps) = (eval_some s row ps ≡ eval_some s row ws) × (has_any ps ≡ has_any ws)

  and-IsSound :
      (ws ps : Clauses F) (in_mem : Bool)
      → has_any ws ≡ true
      → IsSoundEvery ws (ps, in_mem)
      → IsSound (eval_every s row ws) (conjunction ps, in_mem)
  unfolding eval_tree
  and-IsSound ws done true h sound = tt
  and-IsSound ws done false h sound = cc
  and-IsSound ws (more p ps) true h sound = sound
  and-IsSound ws (more p ps) false h sound = sound.0

  or-IsSound :
      (ws : Clauses F) (r : Option (Clauses F))
      → has_any ws ≡ true
      → IsSoundSome ws r
      → IsSound (eval_some s row ws) (disjunction r)
  unfolding eval_tree
  or-IsSound ws none h sound = tt
  or-IsSound ws (some done) h sound = cc
  or-IsSound ws (some (more p ps)) h sound = sound.0

  module _ (raw computed : List String) where
    mutual
      unfolding split_where eval_tree

      pub split_where-IsSound :
          (w : WhereClause F) → IsSound (eval_tree s row w) (split_where raw computed w)
      split_where-IsSound (clause f o v e ands ors neg) = elim (Bool-cases (str_eq e "")) [
        | inr named ↦ rw named tt
        | inl plain ↦ elim (Bool-cases (not (str_eq f "") && not (str_eq o ""))) [
          | inl simple ↦ ground (arith)
          | inr compound ↦ elim (Bool-cases (has_any ands)) [
            | inl h ↦
                rw (plain, compound, h)
                  (and-IsSound ands (split_every raw computed ands).0
                    (split_every raw computed ands).1 h (split_every-IsSound ands))
            | inr h ↦ elim (Bool-cases (has_any ors)) [
              | inl k ↦
                  rw (plain, compound, h, k)
                    (or-IsSound ors (split_some raw computed ors) k (split_some-IsSound ors))
              | inr k ↦
                  rw (plain, compound, h, k)
                    (split_not-IsSound neg (clause f o v e ands ors neg) (ground arith))
            ]
          ]
        ]
      ]

      split_every-IsSound : (ws : Clauses F) → IsSoundEvery ws (split_every raw computed ws)
      split_every-IsSound done = (refl, refl)
      split_every-IsSound (more w ws) =
          ground (arith, split_where-IsSound w, split_every-IsSound ws)

      split_some-IsSound : (ws : Clauses F) → IsSoundSome ws (split_some raw computed ws)
      split_some-IsSound done = (refl, refl)
      split_some-IsSound (more w ws) = ground (arith, split_where-IsSound w, split_some-IsSound ws)

      split_not-IsSound :
          (n : MaybeClause F) (whole : WhereClause F)
          → eval_tree s row whole ≡ eval_not s row n
          → IsSound (eval_not s row n) (split_not raw computed whole n)
      split_not-IsSound absent whole h = h
      split_not-IsSound (present w) whole h = ground (arith, split_where-IsSound w)
