-- ===== src/Planner/Pushdown.antt =====
-- The two halves of a WHERE clause, what the planner pushes (planner/planner.go) and what the
-- processor filters (processor/processor.go), against the clause itself, for a database that agrees
-- with the processor on the simple conditions. It need not: on `between`, the patterns of `like`,
-- upper and lower case, and null values that are compared, SQL and the processor differ.
use dql.Prelude.{true, false, ◌≡◌, List, keep, Option, none, some, ok}
use dql.Go.Runtime.{Runtime}
use dql.Go.Row.{Row}
use dql.Dsl.Where.{WhereClause}
use dql.Dsl.Tree.{Semantics, Evaluator}
use dql.Dsl.Query.{Query}
use dql.Scope.{Scope}
use dql.Planner.Where.Sql.{is_true, Database}
use dql.Processor.Where.{processor_semantics, filter_by_expr}
use dql.Processor.Process.{where_step}

module _ (go : Runtime) (eval : Option (Evaluator go.Float)) where
  open go use {Float}

  abbrev pub Rows : Type 0
  Rows = List (Row Float)

  -- The rows that the processor's evaluation of the pushed clause lets through, and what the filter step leaves of them.
  abbrev Answers : Query Float → Option (WhereClause Float) → Rows → Rows → Type 0
  Answers q pushed rows out =
      (mid : Rows) × (filter_by_expr go eval pushed rows ≡ ok mid)
      × (where_step go eval q mid ≡ ok out)

  abbrev sem : Semantics Float
  sem = processor_semantics go eval

  -- The rows that the database returns for a pushed clause: those on which it is true.
  abbrev pub returned : Database Float → Option (WhereClause Float) → Rows → Rows
  returned db none rows = rows
  returned db (some p) rows = keep (λ row. elim (db p row) [ is_true ↦ true | _ ↦ false ]) rows
