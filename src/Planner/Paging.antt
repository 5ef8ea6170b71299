-- ===== src/Planner/Paging.antt =====
-- The paging of a planned query (planner/planner.go): in SQL or in memory, never both.
use dql.Prelude.{
  String, Bool, true, false, not, ◌&&◌, ◌||◌, ◌≡◌, refl, sym, ◌∙◌, ap, subst, List, [], ◌∷◌, ◌++◌,
  map, keep, all, Option, none, ok, bind_ok, ok_inj, map_err, arith, contains, is_nil, str_eq,
  if◌then◌else◌,
}
use dql.Prelude.Int.{ℤ}
use dql.Dsl.Query.{Query, QueryPlan, DatasetInfo, JoinPlan, is_raw}
use dql.Scope.{Scope}
use dql.Planner.Select.{plan_select}
use dql.Planner.Joins.{Resolver, resolve_dataset, plan_joins}
use dql.Planner.Plan.{
  when, is_given, has_row_changing, is_sortable, every_pushed, in_memory_steps, split_maybe,
  assemble, version_filter, plan_query,
}

-- The paging of a plan: the whole of it in SQL, or the whole of it in memory.
abbrev pub PagesOnce : Bool → Option ℤ → Option ℤ → Option ℤ → Option ℤ → Bool → Type 0
PagesOnce changed limit offset pushed_limit pushed_offset in_memory =
    (pushed_limit ≡ (if changed then none else limit))
    × ((pushed_offset ≡ (if changed then none else offset))
        × (in_memory ≡ (changed && (is_given limit || is_given offset))))

contains_append :
    (xs ys : List String) (k : String) → contains (xs ++ ys) k ≡ (contains xs k || contains ys k)
contains_append [] ys k = refl
contains_append (x ∷ xs) ys k = ground (arith, contains_append xs ys k)

contains-when : (b : Bool) (n k : String) → contains (when b n) k ≡ (b && str_eq n k)
contains-when true n k = ground arith
contains-when false n k = refl

-- A step of another name does not put the name on a list.
other_step :
    (b : Bool) (n k : String) (rest : List String)
    → str_eq n k ≡ false
    → contains rest k ≡ false
    → contains (when b n ++ rest) k ≡ false
other_step true n k rest hn hr = ground arith
other_step false n k rest hn hr = hr

-- The last step leaves the others as they are.
last_step :
    (steps : List String) (b : Bool)
    → has_row_changing (steps ++ when b "paginate") ≡ has_row_changing steps
last_step steps b = ground (
  arith,
  contains_append steps (when b "paginate") "filter_expr",
  contains-when b "paginate" "filter_expr",
  contains_append steps (when b "paginate") "aggregate",
  contains-when b "paginate" "aggregate",
  contains_append steps (when b "paginate") "having",
  contains-when b "paginate" "having",
)

module _ {F : Type 0} where
  unpaged :
      (raw computed : List String) (in_mem : Bool) (q : Query F)
      → contains (in_memory_steps raw computed in_mem q) "paginate" ≡ false
  unfolding in_memory_steps
  unpaged raw computed in_mem q =
      let raw_groups = all (contains raw) q.group_by in
      let no_aggregate = not (every_pushed raw_groups raw q.aggregate) in
      let no_having = is_given q.having && not raw_groups in
      let no_sort = not (all (is_sortable raw computed) q.order_by) in
      let computes = when (not (is_nil q.computed)) "computed_columns" in
      other_step in_mem "filter_expr" "paginate"
        (when no_aggregate "aggregate"
          ++ (when no_having "having" ++ (when no_sort "sort" ++ computes)))
        refl
        (other_step no_aggregate "aggregate" "paginate"
          (when no_having "having" ++ (when no_sort "sort" ++ computes)) refl
          (other_step no_having "having" "paginate" (when no_sort "sort" ++ computes) refl (
            other_step no_sort "sort" "paginate" computes refl (
              contains-when (not (is_nil q.computed)) "computed_columns" "paginate"
              ∙ ground arith))))

  assemble-pages :
      (info : DatasetInfo) (select first_raw : List String) (joins : List JoinPlan)
      (raw : List String) (q : Query F)
      → PagesOnce
          (has_row_changing (assemble info select first_raw joins raw q).in_memory)
          q.limit
          q.offset
          (assemble info select first_raw joins raw q).pushed_limit
          (assemble info select first_raw joins raw q).pushed_offset
          (contains (assemble info select first_raw joins raw q).in_memory "paginate")
  unfolding assemble
  assemble-pages info select first_raw joins raw q =
      let computed = map (λ c. c.name) q.computed in
      let steps = in_memory_steps raw computed (split_maybe first_raw computed q.filter).1 q in
      let pages = has_row_changing steps in
      let paged = pages && (is_given q.limit || is_given q.offset) in
      let same = last_step steps paged in
      (
        sym (ap (λ b. if b then none else q.limit) same),
        (
          sym (ap (λ b. if b then none else q.offset) same),
          contains_append steps (when paged "paginate") "paginate"
              ∙ ap (λ b. b || contains (when paged "paginate") "paginate")
                  (unpaged raw computed _ q)
              ∙ contains-when paged "paginate" "paginate"
              ∙ ground (arith, same),
        ),
      )

  -- A query that is planned is paged exactly once: if a step in memory changes the number of rows
  -- (filter, aggregate or having), nothing of LIMIT and OFFSET is pushed and they are applied in
  -- memory where one of them is given; otherwise both are pushed as they are and neither is
  -- applied in memory.
  pub plan_query-pages :
      (resolve : Resolver) (sc : Scope F) (q q' : Query F) (plan : QueryPlan F)
      → plan_query resolve sc q ≡ ok (plan, q')
      → PagesOnce
          (has_row_changing plan.in_memory)
          q.limit
          q.offset
          plan.pushed_limit
          plan.pushed_offset
          (contains plan.in_memory "paginate")
  unfolding plan_query
  plan_query-pages resolve sc q q' plan h =
      let (info, e1, h1) =
        bind_ok (map_err (resolve_dataset q.dataset) (resolve q.dataset)) _ (plan, q') h in
      let first_raw = map (λ c. c.name) (keep is_raw info.columns) in
      let (joined, e2, h2) = bind_ok (plan_joins resolve sc q.joins first_raw) _ (plan, q') h1 in
      subst
        (λ r.
          PagesOnce (has_row_changing r.0.in_memory) q.limit q.offset r.0.pushed_limit
            r.0.pushed_offset (contains r.0.in_memory "paginate"))
        (ok_inj _ (plan, q') h2)
        (assemble-pages info (plan_select first_raw (map (λ c. c.name) q.computed) q) first_raw
          joined.0 joined.1 (record q { filter = version_filter info first_raw q.filter }))

  -- What the planner leaves of a query's paging.
  pub plan_query-paging :
      (resolve : Resolver) (sc : Scope F) (q q' : Query F) (plan : QueryPlan F)
      → plan_query resolve sc q ≡ ok (plan, q')
      → (q'.limit ≡ q.limit) × (q'.offset ≡ q.offset)
  unfolding plan_query
  plan_query-paging resolve sc q q' plan h =
      let (info, e1, h1) =
        bind_ok (map_err (resolve_dataset q.dataset) (resolve q.dataset)) _ (plan, q') h in
      let first_raw = map (λ c. c.name) (keep is_raw info.columns) in
      let (joined, e2, h2) = bind_ok (plan_joins resolve sc q.joins first_raw) _ (plan, q') h1 in
      let same = ok_inj _ (plan, q') h2 in
      (sym (ap (λ r. r.1.limit) same), sym (ap (λ r. r.1.offset) same))
