-- ===== src/Processor/Pages.antt =====
-- How many rows `Process` of processor/processor.go returns, paged in memory or by SQL.
use dql.Prelude.{
  ℕ, ◌≤◌, true, false, ◌≡◌, sym, ◌∙◌, ap, List, Option, none, some, ok, err, arith, length,
  contains, if-true, if-false,
}
use dql.Prelude.Int.{pos}
use dql.Go.Runtime.{Runtime}
use dql.Go.Row.{Row}
use dql.Dsl.Tree.{Evaluator}
use dql.Dsl.Query.{Query, QueryPlan}
use dql.Processor.Steps.{paginate}
use dql.Processor.Process.{QueryResult, having_step, process}
use dql.Processor.Sizes.{paginate-le, process-Steps}

module _ (go : Runtime) (eval : Option (Evaluator go.Float)) where
  open go use {Float}

  -- Paged in memory, no more rows than the limit are returned.
  pub process_paged :
      (plan : QueryPlan Float) (q : Query Float) (rows : List (Row Float)) (r : QueryResult Float)
      (n : ℕ)
      → process go eval plan q rows ≡ ok r
      → contains plan.in_memory "paginate" ≡ true
      → q.limit ≡ some (pos n)
      → length r.rows ≤ n
  process_paged plan q rows r n h paged limit =
      let s = process-Steps go eval plan q rows r h in
      let (sorted, order, page) = s.from_having in
      let capped = if-true _ _ _ _ paged page in
      rw s.paged (
        paginate-le n q.offset sorted s.page
          (sym (ap (λ l. paginate l q.offset sorted) limit) ∙ capped))

  -- Where SQL has grouped and paged, no row is added, and the total is the count of the rows.
  pub process_pushed :
      (plan : QueryPlan Float) (q : Query Float) (rows : List (Row Float)) (r : QueryResult Float)
      → process go eval plan q rows ≡ ok r
      → contains plan.in_memory "aggregate" ≡ false
      → contains plan.in_memory "having" ≡ false
      → contains plan.in_memory "paginate" ≡ false
      → (length r.rows ≤ length rows) × (r.total ≡ length r.rows)
  unfolding having_step
  process_pushed plan q rows r h no_aggregate no_having no_page =
      let s = process-Steps go eval plan q rows r h in
      let (sorted, order, page) = s.from_having in
      let kept : length sorted ≡ length s.page =
        ap (λ o. elim o [ none ↦ 0 | some l ↦ length l ]) (if-false _ _ _ _ no_page page) in
      let unchanged : length s.matching ≡ length s.having =
        ap (λ o. elim o [ err e ↦ 0 | ok l ↦ length l ])
          (rw (no_aggregate, no_having) at s.from_matching) in
      let fewer = s.from_computed in
      let same = s.from_rows in
      let paged = s.paged in
      let total = s.total in
      (
        omega (arith, kept, unchanged, fewer, same, paged, order),
        omega (arith, kept, paged, order, total),
      )
