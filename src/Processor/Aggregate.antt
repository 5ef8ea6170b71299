-- ===== src/Processor/Aggregate.antt =====
-- `aggregate`, `computeAggregate` and `groupKey` of processor/processor.go.
use dql.Prelude.{
  String, not, ◌&&◌, ◌||◌, List, [], ◌∷◌, ◌++◌, map, length, is_nil, keep, str_eq, if◌then◌else◌,
}
use dql.Prelude.Int.{pos}
use dql.Go.Runtime.{Runtime}
use dql.Go.Value.{Value, nil, num, float64, int, is_null, sprint}
use dql.Go.Row.{Row, put, field}
use dql.Go.Text.{join}
use dql.Go.Coerce.{to_float}
use dql.Dsl.Query.{AggregateClause}

module _ {ℓ} {R : Type ℓ} where
  -- `groups[k] = append(groups[k], row)`, with `groupOrder` kept by the list itself: a key is added
  -- behind the others when it is first seen.
  unfoldable pub add_to_group : String → R → List (String × List R) → List (String × List R)
  add_to_group k r [] = (k, r ∷ []) ∷ []
  add_to_group k r ((j, rs) ∷ gs) =
      let rest = add_to_group k r gs in
      if str_eq j k then (j, rs ++ r ∷ []) ∷ gs else (j, rs) ∷ rest

  -- The loop that groups rows by a key, from the groups so far.
  unfoldable pub group_loop :
      (R → String) → List (String × List R) → List R → List (String × List R)
  unfolding add_to_group
  group_loop key groups [] = groups
  group_loop key groups (r ∷ rs) = group_loop key (add_to_group (key r) r groups) rs

module _ (go : Runtime) where
  open go use {Float, lt, add, div, of_int}

  unfoldable pub group_key : List String → Row Float → String
  unfolding join sprint
  group_key group_by row = join "\0" (map (λ col. sprint go (field row col)) group_by)

  abbrev pub sum_loop : String → Float → List (Row Float) → Float
  sum_loop name sum [] = sum
  sum_loop name sum (row ∷ rows) = sum_loop name (add sum (to_float go (field row name))) rows

  abbrev pub min_loop : String → Float → List (Row Float) → Float
  min_loop name min [] = min
  min_loop name min (row ∷ rows) =
      let v = to_float go (field row name) in min_loop name (if lt v min then v else min) rows

  abbrev pub max_loop : String → Float → List (Row Float) → Float
  max_loop name max [] = max
  max_loop name max (row ∷ rows) =
      let v = to_float go (field row name) in max_loop name (if lt max v then v else max) rows

  -- The MIN and MAX of a slice whose first row starts the loop.
  abbrev pub from_first :
      (String → Float → List (Row Float) → Float) → String → List (Row Float) → Value Float
  from_first loop name [] = nil
  from_first loop name (row ∷ rows) = float64 (loop name (to_float go (field row name)) rows)

  unfoldable pub compute_aggregate : AggregateClause Float → List (Row Float) → Value Float
  unfolding to_float
  compute_aggregate agg rows =
      if str_eq agg.fn "COUNT"
      then (if str_eq agg.field "*" || str_eq agg.field ""
          then num int (pos (length rows))
          else num int (pos (length (keep (λ row. not (is_null (field row agg.field))) rows))))
      else if str_eq agg.fn "SUM"
      then float64 (sum_loop agg.field go.zero rows)
      else if str_eq agg.fn "AVG"
      then (if is_nil rows
          then nil
          else float64 (div (sum_loop agg.field go.zero rows) (of_int (pos (length rows)))))
      else if str_eq agg.fn "MIN"
      then from_first min_loop agg.field rows
      else if str_eq agg.fn "MAX"
      then from_first max_loop agg.field rows
      else nil

  -- `outRow[agg.As] = computeAggregate(agg, rows)` for each aggregate.
  unfoldable pub put_aggregates :
      List (AggregateClause Float) → List (Row Float) → Row Float → Row Float
  unfolding compute_aggregate put
  put_aggregates [] rows out = out
  put_aggregates (agg ∷ aggs) rows out =
      put_aggregates aggs rows (put out agg.as_name (compute_aggregate agg rows))

  -- `outRow[col] = groupRows[0][col]` for each grouping column.
  unfoldable pub put_keys : List String → Row Float → Row Float → Row Float
  unfolding put
  put_keys [] first out = out
  put_keys (col ∷ cols) first out = put_keys cols first (put out col (field first col))

  abbrev pub first_row : List (Row Float) → Row Float
  first_row [] = []
  first_row (row ∷ rows) = row

  -- `aggregate`: one row over all rows, or one row for each group in the order of its first row.
  unfoldable pub aggregate :
      List String → List (AggregateClause Float) → List (Row Float) → List (Row Float)
  unfolding group_key group_loop put_aggregates put_keys
  aggregate group_by aggs rows =
      if is_nil group_by && not (is_nil aggs)
      then put_aggregates aggs rows [] ∷ []
      else map (λ g. put_aggregates aggs g.1 (put_keys group_by (first_row g.1) []))
          (group_loop (group_key group_by) [] rows)
