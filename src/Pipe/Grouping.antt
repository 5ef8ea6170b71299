-- ===== src/Pipe/Grouping.antt =====
-- The `groupBy` and `aggregate` stages as they run in memory (pipe/aggregate.go). Its
-- `computeAggregate` is the processor's, written out again.
use dql.Prelude.{
  String, Bool, true, not, List, [], ◌∷◌, map, Outcome, ok, err, any, is_nil, contains, str_eq,
  if◌then◌else◌,
}
use dql.Go.Runtime.{Runtime}
use dql.Go.Row.{Row}
use dql.Dsl.Query.{AggregateClause}
use dql.Processor.Aggregate.{group_key, group_loop, put_aggregates, put_keys, first_row}
use dql.Pipe.Operator.{PipeError, bad_config, Operator}
use dql.Pipe.Rows.{pure_op}

-- `ValidAggregateFns`.
abbrev pub valid_aggregate_fns : List String
valid_aggregate_fns =
    "COUNT" ∷ "SUM" ∷ "AVG" ∷ "MIN" ∷ "MAX" ∷ "STDEV" ∷ "VARIANCE" ∷ "MEDIAN" ∷ "PERCENTILE"
    ∷ "FIRST" ∷ "LAST" ∷ "ARRAY_AGG" ∷ "STRING_AGG" ∷ "COUNTIF" ∷ "SUMIF" ∷ "EXPR" ∷ []

module _ (go : Runtime) where
  open go use {Float, to_upper}

  -- `aggregateOp.Apply`.
  unfoldable pub aggregate_apply :
      List String → List (AggregateClause Float) → List (Row Float) → List (Row Float)
  unfolding group_key group_loop put_aggregates put_keys
  aggregate_apply group_keys aggs rows =
      if is_nil group_keys
      then put_aggregates go aggs rows [] ∷ []
      else map (λ g. put_aggregates go aggs g.1 (put_keys go group_keys (first_row go g.1) []))
          (group_loop (group_key go group_keys) [] rows)

  abbrev pub in_upper : AggregateClause Float → AggregateClause Float
  in_upper a = record a { fn = to_upper a.fn }

  -- What `aggregateFactory` refuses in one aggregate.
  abbrev pub is_refused : AggregateClause Float → Bool
  is_refused a =
      if str_eq a.fn ""
      then true
      else if not (contains valid_aggregate_fns (to_upper a.fn))
      then true
      else str_eq a.as_name ""

module _ (go : Runtime) (W : Type 0) where
  open go use {Float}

  unfoldable pub group_by_factory : List String → Outcome PipeError (Operator Float W)
  group_by_factory group_keys =
      if is_nil group_keys
      then err (bad_config "groupBy: keys is required and must be non-empty")
      else ok (pure_op "groupBy" (λ rows. ok rows))

  unfoldable pub aggregate_factory :
      List String → List (AggregateClause Float) → Outcome PipeError (Operator Float W)
  unfolding aggregate_apply
  aggregate_factory group_keys aggs =
      if is_nil aggs
      then err (bad_config "aggregate: aggs is required and must be non-empty")
      else if any (is_refused go) aggs
      then err (bad_config "aggregate.aggs: fn and as are required, and fn must be known")
      else ok (
          pure_op "aggregate"
            (λ rows. ok (aggregate_apply go group_keys (map (in_upper go) aggs) rows)))
