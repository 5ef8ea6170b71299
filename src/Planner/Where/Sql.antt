-- ===== src/Planner/Where/Sql.antt =====
-- What a pushed clause (planner/planner.go) means to a database, in SQL's logic of three values. The
-- database is a parameter: which value it gives to a clause on a row.
use dql.Prelude.{Bool, true, false, not, ◌&&◌, ◌≡◌, refl, Outcome, ok, err, str_eq, if◌then◌else◌}
use dql.Go.Row.{Row}
use dql.Dsl.Where.{
  WhereClause, clause, Clauses, done, more, MaybeClause, absent, present, has_any, and_clause,
  or_clause, not_clause,
}
use dql.Dsl.Tree.{EvalError, Semantics, and_then, or_else, negated}

pub data Truth : Type 0 where
  is_true : Truth
  is_false : Truth
  is_unknown : Truth

abbrev pub truth : Bool → Truth
truth true = is_true
truth false = is_false

abbrev pub sql_and : Truth → Truth → Truth
sql_and is_true t = t
sql_and is_false t = is_false
sql_and is_unknown is_false = is_false
sql_and is_unknown is_true = is_unknown
sql_and is_unknown is_unknown = is_unknown

abbrev pub sql_not : Truth → Truth
sql_not is_true = is_false
sql_not is_false = is_true
sql_not is_unknown = is_unknown

abbrev pub sql_or : Truth → Truth → Truth
sql_or s t = sql_not (sql_and (sql_not s) (sql_not t))

abbrev pub Database : Type 0 → Type 0
Database F = WhereClause F → Row F → Truth

module _ {F : Type 0} (db : Database F) (row : Row F) where
  abbrev pub every_truth : Clauses F → Truth
  every_truth done = is_true
  every_truth (more w ws) = sql_and (db w row) (every_truth ws)

  abbrev pub some_truth : Clauses F → Truth
  some_truth done = is_false
  some_truth (more w ws) = sql_or (db w row) (some_truth ws)

-- The database evaluates AND, OR and NOT as SQL documents them.
pub record IsSql {F : Type 0} (db : Database F) : Type 0 where
  pub sql_every :
      (row : Row F) (w : WhereClause F) (ws : Clauses F)
      → db (and_clause (more w ws)) row ≡ every_truth db row (more w ws)
  pub sql_some :
      (row : Row F) (w : WhereClause F) (ws : Clauses F)
      → db (or_clause (more w ws)) row ≡ some_truth db row (more w ws)
  pub sql_negation : (row : Row F) (w : WhereClause F) → db (not_clause w) row ≡ sql_not (db w row)

module _ {F : Type 0} (db : Database F) (s : Semantics F) (row : Row F) where
  unfoldable mutual
    -- On this row, the database gives each simple condition of the clause the value that the
    -- processor's test has, and the clause has no operand of no shape. An expression is free.
    pub Agrees : WhereClause F → Type 0
    Agrees (clause f o v e ands ors neg) =
        if not (str_eq e "")
        then Unit
        else if not (str_eq f "") && not (str_eq o "")
        then db (clause f o v e ands ors neg) row ≡ truth (s.simple f o v row)
        else if has_any ands
        then AgreesIn ands
        else if has_any ors
        then AgreesIn ors
        else AgreesNot neg

    pub AgreesIn : Clauses F → Type 0
    AgreesIn done = Unit
    AgreesIn (more w ws) = Agrees w × AgreesIn ws

    pub AgreesNot : MaybeClause F → Type 0
    AgreesNot absent = ⊥
    AgreesNot (present w) = Agrees w

  -- The walk over the tree has a value, and the database's is the same.
  abbrev pub ReadAs : Outcome EvalError Bool → Truth → Type 0
  ReadAs (err e) t = ⊥
  ReadAs (ok b) t = t ≡ truth b

  pub read_and :
      (r rs : Outcome EvalError Bool) (t ts : Truth)
      → ReadAs r t
      → ReadAs rs ts
      → ReadAs (and_then r rs) (sql_and t ts)
  read_and (err e) rs t ts h k = absurd h
  read_and (ok b) (err e) t ts h k = absurd k
  read_and (ok true) (ok c) t ts h k = rw (h, k) refl
  read_and (ok false) (ok c) t ts h k = rw h refl

  pub read_or :
      (r rs : Outcome EvalError Bool) (t ts : Truth)
      → ReadAs r t
      → ReadAs rs ts
      → ReadAs (or_else r rs) (sql_or t ts)
  read_or (err e) rs t ts h k = absurd h
  read_or (ok b) (err e) t ts h k = absurd k
  read_or (ok true) (ok c) t ts h k = rw h refl
  read_or (ok false) (ok true) t ts h k = rw (h, k) refl
  read_or (ok false) (ok false) t ts h k = rw (h, k) refl

  pub read_not :
      (r : Outcome EvalError Bool) (t : Truth) → ReadAs r t → ReadAs (negated r) (sql_not t)
  read_not (err e) t h = absurd h
  read_not (ok true) t h = rw h refl
  read_not (ok false) t h = rw h refl
