-- ===== src/Processor/Sizes.antt =====
-- What the steps of `Process` (processor/processor.go) do to the number of rows.
use dql.Prelude.{
  ℕ, suc, ◌≤◌, Bool, true, false, ◌≡◌, refl, sym, ◌∙◌, ap, subst, List, [], ◌∷◌, Option, none, some,
  Outcome, ok, err, map_err, bind_ok, ok_inj, arith, length, length-map, length-take,
  length-sort_slice, take, ltb, contains, is_nil, Bool-cases, inl, inr, if-true, if-false,
  Option-cases, if◌then◌else◌,
}
use dql.Prelude.Int.{ℤ, pos}
use dql.Go.Runtime.{Runtime}
use dql.Go.Row.{Row}
use dql.Dsl.Where.{WhereClause}
use dql.Dsl.Tree.{Evaluator, Semantics, eval_maybe, filter_rows, has_expr_where}
use dql.Dsl.Query.{Query, QueryPlan, OrderByClause, ComputedColumn}
use dql.Processor.Where.{filter_by_expr, processor_semantics}
use dql.Processor.Aggregate.{aggregate}
use dql.Processor.Steps.{
  paginate, cap_rows, slice_from, beyond, offset_or_zero, project, sort_rows, compute_row,
  compute_rows, eval_computed_columns,
}
use dql.Processor.Process.{
  QueryResult, or_panic, computed_step, where_step, having_step, project_step, process,
}

pub map_err_ok :
    {E E' A : Type 0} (f : E → E') (r : Outcome E A) (a : A) → map_err f r ≡ ok a → r ≡ ok a
map_err_ok f (ok b) a h = ap ok (ok_inj b a h)
map_err_ok f (err e) a h = absurd (ground arith)

or_panic_ok : {A : Type 0} (o : Option A) (a : A) → or_panic o ≡ ok a → o ≡ some a
or_panic_ok (some b) a h = ap some (ok_inj b a h)
or_panic_ok none a h = absurd (ground arith)

kept_le :
    {A : Type 0} (match : Bool) (row : A) (out : List A) (n : ℕ)
    → length out ≤ n
    → length (if match then row ∷ out else out) ≤ suc n
kept_le true row out n h = omega arith
kept_le false row out n h = omega arith

filter_rows-le :
    {F : Type 0} (s : Semantics F) (w : Option (WhereClause F)) (rows out : List (Row F))
    → filter_rows s w rows ≡ ok out
    → length out ≤ length rows
unfolding filter_rows
filter_rows-le s w [] out h = subst (λ o. length o ≤ 0) (ok_inj [] out h) (omega arith)
filter_rows-le s w (row ∷ rows) out h =
    let (match, e1, h1) = bind_ok (eval_maybe s row w) _ out h in
    let (rest, e2, h2) = bind_ok (filter_rows s w rows) _ out h1 in
    subst (λ o. length o ≤ suc (length rows)) (ok_inj _ out h2)
      (kept_le match row rest (length rows) (filter_rows-le s w rows rest e2))

module _ {ℓ} {A : Type ℓ} where
  cap_rows-le :
      (n : ℕ) (rows page : List A) → cap_rows (some (pos n)) rows ≡ some page → length page ≤ n
  cap_rows-le n rows page h = elim (Bool-cases (ltb n (length rows))) [
    | inl b ↦
        let e : take n rows ≡ page = ground arith in rw (sym e) (omega (arith, length-take n rows))
    | inr b ↦ let e : rows ≡ page = ground arith in rw (sym e) (ground arith)
  ]

  pub paginate-le :
      (n : ℕ) (offset : Option ℤ) (rows page : List A)
      → paginate (some (pos n)) offset rows ≡ some page
      → length page ≤ n
  unfolding paginate
  paginate-le n offset rows page h = elim (Bool-cases (beyond (offset_or_zero offset) rows)) [
    | inl b ↦ let e : [] ≡ page = ground arith in rw (sym e) (omega arith)
    | inr b ↦
        let capped = if-false _ _ _ _ b h in
        elim (Option-cases (slice_from (offset_or_zero offset) rows)) [
          | inl e ↦ absurd (ground arith)
          | inr e ↦ cap_rows-le n e.0 page (ground arith)
        ]
  ]

module _ (go : Runtime) (eval : Option (Evaluator go.Float)) where
  open go use {Float}

  compute_rows-length :
      (run : Evaluator Float) (cs : List ComputedColumn) (rows out : List (Row Float))
      → compute_rows go run cs rows ≡ ok out
      → length out ≡ length rows
  unfolding compute_rows
  compute_rows-length run cs [] out h = ap length (sym (ok_inj [] out h))
  compute_rows-length run cs (row ∷ rows) out h =
      let (r, e1, h1) = bind_ok (compute_row go run cs row) _ out h in
      let (rest, e2, h2) = bind_ok (compute_rows go run cs rows) _ out h1 in
      sym (ap length (ok_inj (r ∷ rest) out h2)) ∙ ap suc (compute_rows-length run cs rows rest e2)

  eval_computed_columns-length :
      (e : Option (Evaluator Float)) (cs : List ComputedColumn) (rows out : List (Row Float))
      → eval_computed_columns go e cs rows ≡ ok out
      → length out ≡ length rows
  unfolding eval_computed_columns
  eval_computed_columns-length none cs rows out h = absurd (ground arith)
  eval_computed_columns-length (some run) cs rows out h = compute_rows-length run cs rows out h

  computed_step-length :
      (q : Query Float) (rows out : List (Row Float))
      → computed_step go eval q rows ≡ ok out
      → length out ≡ length rows
  unfolding computed_step
  computed_step-length q rows out h = elim (Bool-cases (is_nil q.computed)) [
    | inl b ↦ ap length (sym (ok_inj rows out (if-true _ _ _ _ b h)))
    | inr b ↦
        eval_computed_columns-length eval q.computed rows out
          (map_err_ok _ _ out (if-false _ _ _ _ b h))
  ]

  where_step-le :
      (q : Query Float) (rows out : List (Row Float))
      → where_step go eval q rows ≡ ok out
      → length out ≤ length rows
  unfolding where_step filter_by_expr
  where_step-le q rows out h = elim (Bool-cases (has_expr_where q.filter)) [
    | inl b ↦
        filter_rows-le (processor_semantics go eval) q.filter rows out
          (map_err_ok _ _ out (if-true _ _ _ _ b h))
    | inr b ↦ let same = ap length (ok_inj rows out (if-false _ _ _ _ b h)) in omega (arith, same)
  ]

  sort_rows-length :
      (os : List OrderByClause) (rows : List (Row Float))
      → length (sort_rows go os rows) ≡ length rows
  unfolding sort_rows
  sort_rows-length [] rows = refl
  sort_rows-length (o ∷ os) rows = length-sort_slice _ rows

  sorted-length :
      (b : Bool) (os : List OrderByClause) (rows : List (Row Float))
      → length (if b then sort_rows go os rows else rows) ≡ length rows
  sorted-length true os rows = sort_rows-length os rows
  sorted-length false os rows = refl

  project_step-length :
      (q : Query Float) (rows : List (Row Float))
      → length (project_step go eval q rows) ≡ length rows
  unfolding project
  project_step-length q rows = grind (arith, length-map)

  -- What `process` went through, where it returns.
  pub record Steps (plan : QueryPlan Float) (q : Query Float) (rows : List (Row Float))
      (r : QueryResult Float) : Type 0 where
    pub computed : List (Row Float)
    pub matching : List (Row Float)
    pub having : List (Row Float)
    pub page : List (Row Float)
    pub from_rows : length computed ≡ length rows
    pub from_computed : length matching ≤ length computed
    pub from_matching :
        having_step go eval (if contains plan.in_memory "having" then q.having else none) (
          if contains plan.in_memory "aggregate"
          then aggregate go q.group_by q.aggregate matching
          else matching)
        ≡ ok having
    pub total : r.total ≡ length having
    pub paged : length r.rows ≡ length page
    pub from_having :
        (sorted : List (Row Float)) × (length sorted ≡ length having)
        × ((if contains plan.in_memory "paginate"
              then paginate q.limit q.offset sorted
              else some sorted)
            ≡ some page)

  pub process-Steps :
      (plan : QueryPlan Float) (q : Query Float) (rows : List (Row Float)) (r : QueryResult Float)
      → process go eval plan q rows ≡ ok r
      → Steps plan q rows r
  unfolding process
  process-Steps plan q rows r h =
      let (computed, e1, h1) = bind_ok (computed_step go eval q rows) _ r h in
      let (matching, e2, h2) = bind_ok (where_step go eval q computed) _ r h1 in
      let clause : Option (WhereClause Float) =
        if contains plan.in_memory "having" then q.having else none in
      let grouped : List (Row Float) =
        if contains plan.in_memory "aggregate"
        then aggregate go q.group_by q.aggregate matching
        else matching in
      let (having, e3, h3) = bind_ok (having_step go eval clause grouped) _ r h2 in
      let sorted : List (Row Float) =
        if contains plan.in_memory "sort" then sort_rows go q.order_by having else having in
      let paged : Option (List (Row Float)) =
        if contains plan.in_memory "paginate"
        then paginate q.limit q.offset sorted
        else some sorted in
      let (page, e4, h4) = bind_ok (or_panic paged) _ r h3 in
      let same =
        ok_inj
          (record {
            rows = project_step go eval q page;
            total = length sorted;
            columns = plan.columns;
          })
          r h4 in
      let order = sorted-length (contains plan.in_memory "sort") q.order_by having in
      record {
        computed = computed;
        matching = matching;
        having = having;
        page = page;
        from_rows = computed_step-length q rows computed e1;
        from_computed = where_step-le q computed matching e2;
        from_matching = e3;
        total = sym (ap (λ x. x.total) same) ∙ order;
        paged = sym (ap (λ x. length x.rows) same) ∙ project_step-length q page;
        from_having = (sorted, order, or_panic_ok paged page e4);
      }
