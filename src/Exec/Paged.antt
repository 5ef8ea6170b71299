-- ===== src/Exec/Paged.antt =====
-- The page that the engine's classic path returns, against the limits of its configuration
-- (exec/engine.go), for a database that heeds LIMIT.
use Prim.Native.Nat.{◌<◌}
use dql.Prelude.{
  ℕ, zero, suc, ◌+◌, ◌≤◌, subst, String, false, ◌≡◌, refl, sym, ◌∙◌, ap, List, Option, none, some,
  ok, ok_inj, arith, length, contains, Bool-cases, inl, inr,
}
use dql.Prelude.Int.{ℤ, pos, negsuc, pos_part}
use dql.Go.Runtime.{Runtime}
use dql.Dsl.Tree.{Evaluator}
use dql.Dsl.Query.{Query, QueryPlan}
use dql.Planner.Joins.{Resolver}
use dql.Planner.Plan.{has_row_changing}
use dql.Planner.Paging.{plan_query-pages, plan_query-paging}
use dql.Processor.Steps.{offset_or_zero}
use dql.Processor.Pages.{process_paged, process_pushed}
use dql.Sqlgen.Limits.{pushed_limit-Binds}
use dql.Parser.Validate.{is_negative}
use dql.Go.Wrap.{half_range, add_int-small}
use dql.Exec.Scan.{Querier, Decoder}
use dql.Exec.Config.{EngineConfig, Engine, new_engine, effective_limit, apply_defaults}
use dql.Exec.Classic.{
  ExecError, EngineResult, Expansion, with_pages, is_before, prepare, execute_classic,
  explain_classic,
}
use dql.Exec.Trace.{Trace, execute_classic-Trace}
use dql.Exec.Bounds.{ObeysLimit, KeepsRows, read_rows-length, effective_limit-bound}

with_pages-rows :
    {F : Type 0} (limit offset : Option ℤ) (r : EngineResult F)
    → ((with_pages limit offset r).rows ≡ r.rows) × ((with_pages limit offset r).total ≡ r.total)
unfolding with_pages
with_pages-rows (some (pos (suc l))) offset r = (refl, refl)
with_pages-rows (some (pos zero)) offset r = (refl, refl)
with_pages-rows (some (negsuc l)) offset r = (refl, refl)
with_pages-rows none offset r = (refl, refl)

defaulted_offset :
    (o : Option ℤ) → is_negative o ≡ false → is_negative (some (offset_or_zero o)) ≡ false
defaulted_offset none h = refl
defaulted_offset (some n) h = h

nothing_changing :
    (steps : List String)
    → has_row_changing steps ≡ false
    → (contains steps "aggregate" ≡ false) × (contains steps "having" ≡ false)
nothing_changing steps h = (ground arith, ground arith)

module _ (go : Runtime) {T W : Type 0} (decoder : Decoder go.Float T) (db : Querier go.Float T W)
    (schema : String → String → Resolver) (eval : Option (Evaluator go.Float))
    (engine : Engine go.Float) (expansion : Expansion go.Float) (q : Query go.Float)
    (workspace project : String) (w w' : W) (r : EngineResult go.Float) where
  open go use {Float}

  abbrev Traced : Type 0
  Traced = Trace go decoder db schema eval engine expansion q workspace project w w' r

  prepare-paging :
      ((prepare go decoder db schema eval engine q).limit ≡ some (effective_limit engine q.limit))
      × ((prepare go decoder db schema eval engine q).offset ≡ some (offset_or_zero q.offset))
  unfolding prepare apply_defaults dql.Parser.Normalize.normalize_aggregate_fns
      dql.Parser.Normalize.normalize_order_dir
  prepare-paging = (refl, refl)

  left-paging :
      (t : Traced)
      → (t.left.limit ≡ some (effective_limit engine q.limit))
        × (t.left.offset ≡ some (offset_or_zero q.offset))
  left-paging t =
      let (l, o) = plan_query-paging _ _ _ _ _ t.planned in
      (l ∙ prepare-paging.0, o ∙ prepare-paging.1)

  -- Paged in SQL: at most as many rows as the limit, none of them dropped from the count.
  pushed_page :
      (t : Traced) (n : ℕ)
      → ObeysLimit db
      → effective_limit engine q.limit ≡ pos n
      → has_row_changing t.plan.in_memory ≡ false
      → (length t.result.rows ≤ n) × (t.result.total ≡ length t.result.rows)
  pushed_page t n obeys limit same =
      let (pushed, (o, paged)) = plan_query-pages _ _ _ _ _ t.planned in
      let (no_aggregate, no_having) = nothing_changing t.plan.in_memory same in
      let asks : t.plan.pushed_limit ≡ some (pos n) =
        (rw same at pushed) ∙ prepare-paging.0 ∙ ap some limit in
      let fetched =
        obeys t.sql t.params w w' t.answer n
          (pushed_limit-Binds go t.plan (pos n) _ t.sql t.params t.stated asks) t.asked in
      let read = read_rows-length decoder t.answer t.rows t.scanned t.read in
      let (fewer, total) =
        process_pushed go eval t.plan t.left t.rows t.result t.processed no_aggregate no_having
          (paged ∙ ground (arith, same)) in
      (omega (arith, fewer, read, fetched), total)

  result-bound :
      (t : Traced) (n : ℕ)
      → ObeysLimit db
      → effective_limit engine q.limit ≡ pos n
      → length t.result.rows ≤ n
  result-bound t n obeys limit = elim (Bool-cases (has_row_changing t.plan.in_memory)) [
    | inr b ↦ (pushed_page t n obeys limit b).0
    | inl b ↦
        let (pushed, (o, paged)) = plan_query-pages _ _ _ _ _ t.planned in
        process_paged go eval t.plan t.left t.rows t.result n t.processed
          (paged ∙ rw (b, prepare-paging.0) refl) ((left-paging t).0 ∙ ap some limit)
  ]

  returned-rows :
      (t : Traced)
      → KeepsRows expansion
      → (length r.rows ≡ length t.result.rows) × (r.total ≡ t.result.total)
  returned-rows t keeps =
      let (rows, total) = with_pages-rows t.left.limit t.left.offset _ in
      let same = t.returned in
      (
        sym (ap (λ x. length x.rows) same)
            ∙ ap length rows
            ∙ keeps t.plan.dataset t.result.rows t.expanded t.enriched,
        sym (ap (λ x. x.total) same) ∙ total,
      )

  -- A classic query that asks for no negative limit, run by an engine that `NewEngine` has made over
  -- a database that heeds LIMIT and with an expansion that keeps the number of rows, returns at most
  -- as many rows as the limit it runs with, its own or the default, which is at most the engine's
  -- maximum; so it is whatever is pushed and whatever is computed, filtered, grouped, sorted or
  -- paged in memory.
  pub execute_classic-bound :
      (config : EngineConfig Float)
      → new_engine config ≡ some engine
      → ObeysLimit db
      → KeepsRows expansion
      → is_negative q.limit ≡ false
      → execute_classic go decoder db schema eval engine expansion q workspace project w
        ≡ (ok r, w')
      → (n : ℕ) × (effective_limit engine q.limit ≡ pos n)
        × (length r.rows ≤ n)
        × (n ≤ pos_part engine.max_limit)
  execute_classic-bound config made obeys keeps valid h =
      let t = execute_classic-Trace go decoder db schema eval engine _ _ _ _ _ _ _ h in
      let (n, limit, most) = effective_limit-bound config engine q.limit made valid in
      let bound = result-bound t n obeys limit in
      let same = (returned-rows t keeps).0 in (n, limit, omega (arith, same, bound), most)

  with_pages-last :
      (n : ℕ) (offset : Option ℤ) (x : EngineResult Float)
      → is_negative offset ≡ false
      → pos_part (offset_or_zero offset) + n < half_range
      → x.total ≤ n
      → x.has_more ≡ false
      → (with_pages (some (pos n)) offset x).has_more ≡ false
  unfolding with_pages is_before
  with_pages-last zero offset x valid small few h = h
  with_pages-last (suc l) none x valid small few h =
      rw (add_int-small 0 (suc l) small) (ground arith)
  with_pages-last (suc l) (some (pos o)) x valid small few h =
      rw (add_int-small o (suc l) small) (ground arith)
  with_pages-last (suc l) (some (negsuc o)) x valid small few h = absurd (ground arith)

  explained :
      (t : Traced)
      → explain_classic go decoder db schema eval engine q workspace project ≡ ok t.plan
  unfolding explain_classic dql.Exec.Classic.plan_statement
  explained t = rw (t.planned, t.stated) refl

  -- Where no step in memory changes the number of rows, so that SQL does the paging, a classic query
  -- that succeeds, with no negative limit or offset, whose offset and effective limit add up to less
  -- than 2^63, run
  -- by an engine that `NewEngine` has made over a database that heeds LIMIT and with an
  -- expansion that keeps the number of rows, reports the number of rows on the page as the
  -- total, and that there are no more: whatever rows the database holds beyond the page.
  pub execute_classic-no_more :
      (config : EngineConfig Float) (plan : QueryPlan Float)
      → new_engine config ≡ some engine
      → ObeysLimit db
      → KeepsRows expansion
      → is_negative q.limit ≡ false
      → is_negative q.offset ≡ false
      → pos_part (offset_or_zero q.offset) + pos_part (effective_limit engine q.limit) < half_range
      → explain_classic go decoder db schema eval engine q workspace project ≡ ok plan
      → has_row_changing plan.in_memory ≡ false
      → execute_classic go decoder db schema eval engine expansion q workspace project w
        ≡ (ok r, w')
      → (r.total ≡ length r.rows) × (r.has_more ≡ false)
  execute_classic-no_more config plan made obeys keeps valid valid' small planned same h =
      let t = execute_classic-Trace go decoder db schema eval engine _ _ _ _ _ _ _ h in
      let (n, limit, most) = effective_limit-bound config engine q.limit made valid in
      let same_plan : plan ≡ t.plan = ok_inj plan t.plan (sym planned ∙ explained t) in
      let (few, total) =
        pushed_page t n obeys limit
          (sym (ap (λ p. has_row_changing p.in_memory) same_plan) ∙ same) in
      let (rows, total') = returned-rows t keeps in
      let (left, offset) = left-paging t in
      (
        total' ∙ total ∙ sym rows,
        sym (ap (λ x. x.has_more) t.returned)
            ∙ (rw (left, offset, limit)
                (with_pages-last n (some (offset_or_zero q.offset)) _
                  (defaulted_offset q.offset valid')
                  (subst (λ m. pos_part (offset_or_zero q.offset) + pos_part m < half_range) limit
                    small)
                  (omega (arith, few, total)) refl)),
      )
