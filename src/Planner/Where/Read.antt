-- ===== src/Planner/Where/Read.antt =====
-- What is pushed of a WHERE clause (planner/planner.go) has the same value for a database that
-- agrees with the processor on the simple conditions of the clause.
use dql.Prelude.{
  String, Bool, true, false, not, ◌&&◌, ◌||◌, contains, ◌≡◌, refl, sym, subst, List, Option, none,
  some, Bool-cases, inl, inr, str_eq,
}
use dql.Go.Row.{Row}
use dql.Dsl.Where.{
  WhereClause, clause, Clauses, done, more, MaybeClause, absent, present, has_any, not_clause,
}
use dql.Dsl.Tree.{Semantics, eval_tree, eval_every, eval_some}
use dql.Planner.Where.{
  Parts, conjunction, disjunction, add_pushed, add_whole, negation, split_simple, split_where,
  split_every, split_some, split_not,
}
use dql.Planner.Where.Sql.{
  Database, IsSql, Agrees, AgreesIn, AgreesNot, ReadAs, every_truth, some_truth, read_and, read_or,
  read_not,
}

module _ {F : Type 0} (db : Database F) (laws : IsSql db) (s : Semantics F) (row : Row F) where
  abbrev pub IsRead : Parts F → Type 0
  IsRead (none, m) = Unit
  IsRead (some p, m) = ReadAs db s row (eval_tree s row p) (db p row)

  abbrev EveryIsRead : Clauses F → Type 0
  EveryIsRead ps = ReadAs db s row (eval_every s row ps) (every_truth db row ps)

  abbrev SomeIsRead : Clauses F → Option (Clauses F) → Type 0
  SomeIsRead ws none = Unit
  SomeIsRead ws (some ps) =
      ReadAs db s row (eval_some s row ps) (some_truth db row ps) × (has_any ps ≡ has_any ws)

  conjunction-IsRead : (ps : Clauses F) (m : Bool) → EveryIsRead ps → IsRead (conjunction ps, m)
  unfolding eval_tree
  conjunction-IsRead done m h = tt
  conjunction-IsRead (more p ps) m h =
      subst (ReadAs db s row (eval_every s row (more p ps))) (sym (laws.sql_every row p ps)) h

  disjunction-IsRead :
      (ws : Clauses F) (r : Option (Clauses F))
      → has_any ws ≡ true
      → SomeIsRead ws r
      → IsRead (disjunction r)
  unfolding eval_tree
  disjunction-IsRead ws none e h = tt
  disjunction-IsRead ws (some done) e h = absurd (cc)
  disjunction-IsRead ws (some (more p ps)) e h =
      subst (ReadAs db s row (eval_some s row (more p ps))) (sym (laws.sql_some row p ps)) h.0

  negation-IsRead : (parts : Parts F) → IsRead parts → IsRead (negation parts)
  unfolding eval_tree
  negation-IsRead (none, true) h = tt
  negation-IsRead (none, false) h = tt
  negation-IsRead (some p, true) h = tt
  negation-IsRead (some p, false) h =
      subst (ReadAs db s row (eval_tree s row (not_clause p))) (sym (laws.sql_negation row p))
        (read_not db s row (eval_tree s row p) (db p row) h)

  add_pushed-IsRead :
      (parts : Parts F) (rest : Clauses F)
      → IsRead parts
      → EveryIsRead rest
      → EveryIsRead (add_pushed parts.0 rest)
  unfolding eval_tree
  add_pushed-IsRead (none, m) rest h k = k
  add_pushed-IsRead (some p, m) rest h k = read_and db s row (eval_tree s row p) _ (db p row) _ h k

  add_whole-IsRead :
      (parts : Parts F) (w : WhereClause F) (ws : Clauses F) (rest : Option (Clauses F))
      → IsRead parts
      → SomeIsRead ws rest
      → SomeIsRead (more w ws) (add_whole parts rest)
  unfolding eval_tree
  add_whole-IsRead (p, true) w ws rest h k = tt
  add_whole-IsRead (none, false) w ws rest h k = tt
  add_whole-IsRead (some p, false) w ws none h k = tt
  add_whole-IsRead (some p, false) w ws (some ps) h k =
      (read_or db s row (eval_tree s row p) _ (db p row) _ h k.0, refl)

  module _ (raw computed : List String) where
    simple-IsRead :
        (w : WhereClause F) (name : String)
        → ReadAs db s row (eval_tree s row w) (db w row)
        → IsRead (split_simple raw computed w name)
    simple-IsRead w name h = elim (Bool-cases (contains computed name)) [
      | inl e ↦ rw e tt
      | inr e ↦
          elim (Bool-cases
            (contains raw name || (str_eq name "workspace_id" || str_eq name "project_id"))) [
              | inl k ↦ rw (e, k) h
              | inr k ↦ rw (e, k) h
            ]
    ]

    mutual
      unfolding split_where eval_tree Agrees

      pub split_where-IsRead :
          (w : WhereClause F) → Agrees db s row w → IsRead (split_where raw computed w)
      split_where-IsRead (clause f o v e ands ors neg) a = elim (Bool-cases (str_eq e "")) [
        | inr named ↦ rw named tt
        | inl plain ↦ elim (Bool-cases (not (str_eq f "") && not (str_eq o ""))) [
          | inl simple ↦
              rw (plain, simple)
                (simple-IsRead (clause f o v e ands ors neg) f
                  (rw (plain, simple) (rw (plain, simple) at a)))
          | inr compound ↦ elim (Bool-cases (has_any ands)) [
            | inl h ↦
                rw (plain, compound, h)
                  (conjunction-IsRead (split_every raw computed ands).0
                    (split_every raw computed ands).1
                    (every-IsRead ands (rw (plain, compound, h) at a)))
            | inr h ↦ elim (Bool-cases (has_any ors)) [
              | inl k ↦
                  rw (plain, compound, h, k)
                    (disjunction-IsRead ors (split_some raw computed ors) k
                      (some-IsRead ors (rw (plain, compound, h, k) at a)))
              | inr k ↦
                  rw (plain, compound, h, k)
                    (not-IsRead neg (clause f o v e ands ors neg) (rw (plain, compound, h, k) at a))
            ]
          ]
        ]
      ]

      every-IsRead :
          (ws : Clauses F) → AgreesIn db s row ws → EveryIsRead (split_every raw computed ws).0
      every-IsRead done a = refl
      every-IsRead (more w ws) a =
          add_pushed-IsRead (split_where raw computed w) (split_every raw computed ws).0
            (split_where-IsRead w a.0) (every-IsRead ws a.1)

      some-IsRead :
          (ws : Clauses F) → AgreesIn db s row ws → SomeIsRead ws (split_some raw computed ws)
      some-IsRead done a = (refl, refl)
      some-IsRead (more w ws) a =
          add_whole-IsRead (split_where raw computed w) w ws (split_some raw computed ws)
            (split_where-IsRead w a.0) (some-IsRead ws a.1)

      not-IsRead :
          (n : MaybeClause F) (whole : WhereClause F)
          → AgreesNot db s row n
          → IsRead (split_not raw computed whole n)
      not-IsRead absent whole a = absurd a
      not-IsRead (present w) whole a =
          negation-IsRead (split_where raw computed w) (split_where-IsRead w a)
