-- ===== src/Pipe/Reshape/Factories.antt =====
-- The factories of the stages of pipe/reshape.go, on configurations that decode.

use dql.Prelude.{
  String, not, ◌&&◌, ◌||◌, List, [], ◌∷◌, Option, Outcome, ok, err, contains, is_nil, str_eq,
  if◌then◌else◌,
}
use dql.Go.Runtime.{Runtime}
use dql.Go.Value.{Value}
use dql.Go.Row.{Row}
use dql.Pipe.Operator.{PipeError, bad_config, Operator}
use dql.Pipe.Rows.{pure_op}
use dql.Pipe.Reshape.{
  PivotConfig, UnpivotConfig, UnnestObjectConfig, NestConfig, pivot_apply, unpivot_apply,
  unnest_apply, nest_apply,
}

abbrev pub pivot_fns : List String
pivot_fns = "first" ∷ "last" ∷ "count" ∷ "sum" ∷ "avg" ∷ "min" ∷ "max" ∷ []

module _ (go : Runtime) (W : Type 0) where
  open go use {Float, to_lower}

  unfoldable pub pivot_factory : PivotConfig Float → Outcome PipeError (Operator Float W)
  unfolding pivot_apply
  pivot_factory cfg =
      if str_eq cfg.column_key ""
      then err (bad_config "pivot: columnKey is required")
      else if str_eq cfg.value_field ""
      then err (bad_config "pivot: valueField is required")
      else if not (str_eq cfg.aggregate_fn "")
          && not (contains pivot_fns (to_lower cfg.aggregate_fn))
      then err (bad_config "pivot: unknown aggregate")
      else ok (pure_op "pivot" (λ rows. ok (pivot_apply go cfg rows)))

  unfoldable pub unpivot_factory : UnpivotConfig → Outcome PipeError (Operator Float W)
  unfolding unpivot_apply
  unpivot_factory cfg =
      if str_eq cfg.name_as "" || str_eq cfg.value_as ""
      then err (bad_config "unpivot: nameAs and valueAs are required")
      else ok (pure_op "unpivot" (λ rows. ok (unpivot_apply cfg rows)))

  unfoldable pub unnest_object_factory :
      (Value Float → Option (List (String × Value Float)))
      → UnnestObjectConfig
      → Outcome PipeError (Operator Float W)
  unfolding unnest_apply
  unnest_object_factory as_map cfg =
      if str_eq cfg.field_name ""
      then err (bad_config "unnestObject: field is required")
      else ok (pure_op "unnestObject" (λ rows. ok (unnest_apply as_map cfg rows)))

  unfoldable pub nest_factory :
      (List (Row Float) → Value Float) → NestConfig → Outcome PipeError (Operator Float W)
  unfolding nest_apply
  nest_factory as_value cfg =
      if is_nil cfg.by
      then err (bad_config "nest: by is required")
      else if str_eq cfg.into ""
      then err (bad_config "nest: into is required")
      else ok (pure_op "nest" (λ rows. ok (nest_apply go as_value cfg rows)))
