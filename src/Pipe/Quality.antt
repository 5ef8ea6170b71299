-- ===== src/Pipe/Quality.antt =====
-- The stages on the quality of data, pipe/quality.go, but for sample. The conversions of Go's
-- strconv and time that a cast rests on are parameters. Rows are values here: what a stage does to
-- a row in place is what it returns.
use dql.Prelude.{
  ℕ, zero, suc, ◌+◌, String, Bool, true, false, not, ◌&&◌, ◌||◌, List, [], ◌∷◌, ◌++◌, map, keep,
  Option, none, some, Outcome, ok, err, ◌>>=◌, contains, is_nil, any, length, get_or, take, drop,
  ltb, ◌==◌, sort_slice, str_eq, if◌then◌else◌,
}
use dql.Prelude.Int.{ℤ, pos, negsuc}
use dql.Go.Runtime.{Runtime}
use dql.Go.Value.{Value, nil, num, int, float64, str, bool, is_null, sprint}
use dql.Go.Row.{Row, lookup, put, field, keys}
use dql.Go.Coerce.{to_float, to_bool, is_numeric}
use dql.Dsl.Query.{OrderByClause}
use dql.Dsl.Tree.{EvalError, Evaluator}
use dql.Processor.Aggregate.{group_key, group_loop}
use dql.Pipe.Operator.{PipeError, bad_config, evaluation, at_stage, Operator}
use dql.Pipe.Order.{SortKey, new_order_spec, order_keys, perm_less, new_perm, sort_perm_rows}
use dql.Pipe.Rows.{pure_op, is_empty_spec, is_missing_evaluator}
pub mod Dedupe
pub mod Cast

pub record FillNullsConfig (F : Type 0) : Type 0 where
  pub columns : List String
  pub method : String
  pub fill : Value F
  pub partition_by : List String
  pub order_by : List OrderByClause

abbrev pub default_true : Option Bool → Bool
default_true none = true
default_true (some b) = b

module _ {F : Type 0} where
  -- `!exists || v == nil`.
  unfoldable pub is_missing_at : Row F → String → Bool
  is_missing_at row c = is_null (field row c)

  abbrev pub null_count : Row F → List String → ℕ
  null_count row [] = 0
  null_count row (c ∷ cs) = (if is_missing_at row c then 1 else 0) + null_count row cs

  abbrev pub columns_or_all : List String → Row F → List String
  columns_or_all cols row = if is_nil cols then keys row else cols

  -- Whether `dropNullsOp.Apply` keeps a row.
  unfoldable pub keeps_row : Bool → List String → Row F → Bool
  unfolding is_missing_at
  keeps_row on_any cols row =
      let n = null_count row (columns_or_all cols row) in
      if on_any then n == 0 else not (n == length (columns_or_all cols row))

  -- `dropNullsOp.Apply`.
  unfoldable pub drop_nulls_apply : List String → Option Bool → List (Row F) → List (Row F)
  unfolding keeps_row
  drop_nulls_apply cols on_any rows = keep (keeps_row (default_true on_any) cols) rows

  -- The inner loop that sets each missing column.
  unfoldable pub fill_row_with : (String → Option (Value F)) → List String → Row F → Row F
  unfolding is_missing_at put
  fill_row_with value_for [] row = row
  fill_row_with value_for (c ∷ cs) row = fill_row_with value_for cs (
      if is_missing_at row c then elim (value_for c) [ none ↦ row | some v ↦ put row c v ] else row)

  -- The columns of the first row, where none are named.
  abbrev pub fill_columns_of : List String → List (Row F) → List String
  fill_columns_of (c ∷ cs) rows = c ∷ cs
  fill_columns_of [] [] = []
  fill_columns_of [] (row ∷ rows) = keys row

abbrev pub reversed : List ℕ → List ℕ
reversed [] = []
reversed (n ∷ ns) = reversed ns ++ n ∷ []

abbrev pub message_or : String → String
message_or m = if str_eq m "" then "assert failed" else m

module _ (go : Runtime) where
  open go use {Float, add, div, of_int, to_lower, equal_fold}

  -- The loop that sums a column's numbers and counts them.
  abbrev pub mean_loop : String → Float → ℕ → List (Row Float) → Float × ℕ
  mean_loop c sum n [] = (sum, n)
  mean_loop c sum n (row ∷ rows) =
      let v = field row c in
      let counts = not (is_null v) && is_numeric v in
      mean_loop c (if counts then add sum (to_float go v) else sum) (if counts then suc n else n)
        rows

  unfoldable pub mean_of : List (Row Float) → String → Option (Value Float)
  unfolding to_float is_numeric
  mean_of rows c =
      let r = mean_loop c go.zero 0 rows in
      if ltb 0 r.1 then some (float64 (div r.0 (of_int (pos r.1)))) else none

  -- The loop over the columns of a row that is carried to: the row, and the values seen last.
  unfoldable pub carry_row : List String → Row Float → Row Float → Row Float × Row Float
  unfolding is_missing_at put
  carry_row [] row last = (row, last)
  carry_row (c ∷ cs) row last =
      if is_missing_at row c
      then carry_row cs (elim (lookup last c) [ none ↦ row | some v ↦ put row c v ]) last
      else carry_row cs row (put last c (field row c))

  -- `in[idx] = row`.
  abbrev pub replace_at : List (Row Float) → ℕ → Row Float → List (Row Float)
  replace_at [] idx row = []
  replace_at (r ∷ rs) zero row = row ∷ rs
  replace_at (r ∷ rs) (suc idx) row = r ∷ replace_at rs idx row

  -- The walk over one group.
  unfoldable pub carry_walk : List String → List ℕ → Row Float → List (Row Float) → List (Row Float)
  unfolding carry_row
  carry_walk cols [] last rows = rows
  carry_walk cols (idx ∷ idxs) last rows =
      let r = carry_row cols (get_or rows idx []) last in
      carry_walk cols idxs r.1 (replace_at rows idx r.0)

  abbrev pub in_order : List SortKey → List (List (Value Float)) → List ℕ → List ℕ
  in_order spec ks idxs =
      if is_empty_spec go spec then idxs else sort_slice (perm_less go spec ks) idxs

  abbrev pub carry_groups :
      List String → (List ℕ → List ℕ) → List (String × List ℕ) → List (Row Float) → List (Row Float)
  carry_groups cols walk [] rows = rows
  carry_groups cols walk (g ∷ gs) rows =
      carry_groups cols walk gs (carry_walk cols (walk g.1) [] rows)

  -- `fillCarry`.
  unfoldable pub fill_carry :
      FillNullsConfig Float → List String → Bool → List (Row Float) → List (Row Float)
  unfolding group_key group_loop new_order_spec order_keys carry_walk sort_slice
  fill_carry cfg cols forward rows =
      let spec = new_order_spec go cfg.order_by in
      let ks = order_keys go spec rows in
      let groups =
        group_loop (λ i. group_key go cfg.partition_by (get_or rows i [])) []
          (new_perm (length rows)) in
      carry_groups cols
        (λ idxs. let sorted = in_order spec ks idxs in if forward then sorted else reversed sorted)
        groups rows

  -- `fillNullsOp.Apply`.
  unfoldable pub fill_nulls_apply :
      FillNullsConfig Float → List (Row Float) → Outcome PipeError (List (Row Float))
  unfolding fill_row_with mean_of fill_carry
  fill_nulls_apply cfg rows =
      let method = to_lower (if str_eq cfg.method "" then "value" else cfg.method) in
      let cols = fill_columns_of cfg.columns rows in
      if str_eq method "value"
      then ok (map (fill_row_with (λ c. some cfg.fill) cols) rows)
      else if str_eq method "zero"
      then ok (map (fill_row_with (λ c. some (num int (pos 0))) cols) rows)
      else if str_eq method "mean"
      then ok (map (fill_row_with (mean_of rows) cols) rows)
      else if str_eq method "lastvalue" || str_eq method "nextvalue"
      then ok (fill_carry cfg cols (str_eq method "lastvalue") rows)
      else err (bad_config "fillNulls: unknown method")

  -- The rows of the loop of `dedupeOp.Apply`: `out`, with the key that each has in `seen`.
  abbrev pub replace_kept :
      String → Row Float → List (String × Row Float) → List (String × Row Float)
  replace_kept k row [] = []
  replace_kept k row ((j, r) ∷ out) =
      let rest = replace_kept k row out in if str_eq j k then (j, row) ∷ out else (j, r) ∷ rest

  unfoldable pub dedupe_loop :
      Bool
      → (Row Float → String)
      → List (String × Row Float)
      → List (Row Float)
      → List (String × Row Float)
  dedupe_loop keep_last key out [] = out
  dedupe_loop keep_last key out (row ∷ rows) =
      let k = key row in
      dedupe_loop keep_last key
        (if contains (keys out) k
          then (if keep_last then replace_kept k row out else out)
          else out ++ (k, row) ∷ [])
        rows

  -- The rows in the order by which one is picked.
  abbrev pub ordered_rows : List OrderByClause → List (Row Float) → List (Row Float)
  ordered_rows by rows =
      let spec = new_order_spec go by in
      if is_empty_spec go spec
      then rows
      else map (λ p. get_or rows p []) (sort_perm_rows go spec rows)

  -- `dedupeOp.Apply`.
  unfoldable pub dedupe_apply :
      List String → String → List OrderByClause → List (Row Float) → List (Row Float)
  unfolding dedupe_loop group_key new_order_spec sort_perm_rows
  dedupe_apply by keep_which order rows =
      map (λ e. e.1)
        (dedupe_loop (equal_fold keep_which "last") (group_key go by) [] (ordered_rows order rows))

  -- The loop of `assertOp.Apply` over the rows, from row `i`.
  unfoldable pub assert_rows :
      Evaluator Float → String → String → ℕ → List (Row Float) → Outcome PipeError ℕ
  unfolding to_bool
  assert_rows run expr message i [] = ok i
  assert_rows run expr message i (row ∷ rows) =
      let rest = assert_rows run expr message (suc i) rows in
      elim (run expr row) [
        | err e ↦ err (at_stage i "assert row" (evaluation e))
        | ok v ↦ if to_bool go v then rest else err (at_stage i message (bad_config message))
      ]

  -- `assertOp.Apply`.
  unfoldable pub assert_apply :
      Evaluator Float
      → String
      → String
      → String
      → List (Row Float)
      → Outcome PipeError (List (Row Float))
  unfolding assert_rows
  assert_apply run expr scope message rows =
      if str_eq scope "" || str_eq scope "row"
      then (assert_rows run expr (message_or message) 0 rows >>= λ n. ok rows)
      else if str_eq scope "overall"
      then elim (run expr (("count", num int (pos (length rows))) ∷ [])) [
        | err e ↦ err (evaluation e)
        | ok v ↦ if to_bool go v then ok rows else err (bad_config (message_or message))
      ]
      else err (bad_config "assert: unknown scope")
