-- ===== src/Processor/Steps.antt =====
-- The steps of processor/processor.go that sort, page, project and compute columns.

use dql.Prelude.{
  String, Bool, false, ◌||◌, List, [], ◌∷◌, ◌++◌, map, Option, none, some, Outcome, ok, err, ◌>>=◌,
  any, length, take, drop, ltb, sort_slice, str_eq, if◌then◌else◌,
}
use dql.Prelude.Int.{ℤ, pos, negsuc}
use dql.Go.Runtime.{Runtime}
use dql.Go.Row.{Row, lookup, put, field}
use dql.Go.Coerce.{compare_values, is_lt, is_gt, is_eq}
use dql.Dsl.Tree.{EvalError, Evaluator, no_evaluator}
use dql.Dsl.Query.{SelectField, output_name, ComputedColumn, OrderByClause}

abbrev pub offset_or_zero : Option ℤ → ℤ
offset_or_zero none = pos 0
offset_or_zero (some n) = n

module _ {ℓ} {A : Type ℓ} where
  -- `rows[offset:]`; none is the panic of an offset out of range.
  abbrev pub slice_from : ℤ → List A → Option (List A)
  slice_from (pos n) rows = if ltb (length rows) n then none else some (drop n rows)
  slice_from (negsuc n) rows = none

  -- `if q.Limit != nil && *q.Limit < len(rows) { rows = rows[:*q.Limit] }`.
  abbrev pub cap_rows : Option ℤ → List A → Option (List A)
  cap_rows none rows = some rows
  cap_rows (some (pos n)) rows = some (if ltb n (length rows) then take n rows else rows)
  cap_rows (some (negsuc n)) rows = none

  -- `offset > len(rows)`.
  abbrev pub beyond : ℤ → List A → Bool
  beyond (pos n) rows = ltb (length rows) n
  beyond (negsuc n) rows = false

  -- `paginate`; none is a panic, at a negative offset or limit.
  unfoldable pub paginate : Option ℤ → Option ℤ → List A → Option (List A)
  paginate limit offset rows =
      let start = offset_or_zero offset in
      if beyond start rows
      then some []
      else elim (slice_from start rows) [ none ↦ none | some rest ↦ cap_rows limit rest ]

unfoldable pub is_wildcard_select : List SelectField → Bool
is_wildcard_select sel = any (λ s. str_eq s.field "*") sel

-- `struct{ from, to string }`.
pub record Mapping : Type 0 where
  pub from : String
  pub to : String

unfoldable pub select_mapping : SelectField → Mapping
unfolding output_name
select_mapping s = record {
  from = if str_eq s.field "" then s.as_name else s.field;
  to = output_name s;
}

-- The loop over the computed columns: one that no mapping names is added.
unfoldable pub add_computed : List ComputedColumn → List Mapping → List Mapping
add_computed [] cols = cols
add_computed (c ∷ cs) cols =
    let found = any (λ m. str_eq m.from c.name || str_eq m.to c.name) cols in
    add_computed cs (if found then cols else cols ++ record { from = c.name; to = c.name } ∷ [])

module _ {F : Type 0} where
  -- The loop that fills an output row.
  unfoldable pub fill_row : List Mapping → Row F → Row F → Row F
  unfolding put
  fill_row [] row out = out
  fill_row (m ∷ ms) row out =
      fill_row ms row (elim (lookup row m.from) [ none ↦ out | some v ↦ put out m.to v ])

  -- `project`.
  unfoldable pub project : List SelectField → List ComputedColumn → List (Row F) → List (Row F)
  unfolding is_wildcard_select select_mapping add_computed fill_row
  project select computed rows =
      if is_wildcard_select select
      then rows
      else (let cols = add_computed computed (map select_mapping select) in
          map (λ row. fill_row cols row []) rows)

module _ (go : Runtime) where
  open go use {Float, to_lower}

  -- The comparison that `sortRows` hands to the sort: the first clause that tells rows apart.
  unfoldable pub row_less : List OrderByClause → Row Float → Row Float → Bool
  unfolding compare_values
  row_less [] a b = false
  row_less (o ∷ os) a b =
      let later = row_less os a b in
      let c = compare_values go (field a o.field) (field b o.field) in
      if str_eq o.field ""
      then later
      else if is_eq c
      then later
      else if str_eq (to_lower o.dir) "desc"
      then is_gt c
      else is_lt c

  -- `sortRows`, on Go's stable sort.
  unfoldable pub sort_rows : List OrderByClause → List (Row Float) → List (Row Float)
  unfolding sort_slice row_less
  sort_rows [] rows = rows
  sort_rows (o ∷ os) rows = sort_slice (row_less (o ∷ os)) rows

  -- The inner loop of `evalComputedColumns`: a later column sees the earlier ones.
  unfoldable pub compute_row :
      Evaluator Float → List ComputedColumn → Row Float → Outcome EvalError (Row Float)
  unfolding put
  compute_row run [] row = ok row
  compute_row run (c ∷ cs) row = run c.expr row >>= λ val. compute_row run cs (put row c.name val)

  unfoldable pub compute_rows :
      Evaluator Float
      → List ComputedColumn
      → List (Row Float)
      → Outcome EvalError (List (Row Float))
  unfolding compute_row
  compute_rows run cs [] = ok []
  compute_rows run cs (row ∷ rows) =
      let rest = compute_rows run cs rows in
      compute_row run cs row >>= λ r. rest >>= λ rs. ok (r ∷ rs)

  -- `evalComputedColumns`.
  unfoldable pub eval_computed_columns :
      Option (Evaluator Float)
      → List ComputedColumn
      → List (Row Float)
      → Outcome EvalError (List (Row Float))
  unfolding compute_rows
  eval_computed_columns none cs rows = err no_evaluator
  eval_computed_columns (some run) cs rows = compute_rows run cs rows
