-- ===== src/Pipe/Reshape.antt =====
-- The stages that change the shape of rows, pipe/reshape.go: pivot, unpivot, unnestObject and nest.
-- Maps and lists of maps that stand in a column are an `any` of another type; how they stand there
-- and are read from there are parameters. Rows are values here: what a stage does to a row in place
-- is what it returns.
use Prim.Native.String.{◌++◌ as str_append}
use dql.Prelude.{
  String, Bool, not, ◌&&◌, ◌||◌, List, [], ◌∷◌, ◌++◌, map, keep, Option, none, some, Outcome, ok,
  err, contains, is_nil, length, sort_slice, str_eq, if◌then◌else◌,
}
use dql.Prelude.Int.{pos}
use dql.Go.Runtime.{Runtime}
use dql.Go.Value.{Value, num, int, float64, is_null, sprint}
use dql.Go.Row.{Row, lookup, put, remove, field, keys}
use dql.Go.Text.{lt_text}
use dql.Go.Coerce.{to_float}
use dql.Processor.Aggregate.{group_key, group_loop, put_keys, first_row}
use dql.Pipe.Operator.{PipeError, bad_config, Operator}
use dql.Pipe.Rows.{pure_op}
pub mod Factories

pub record PivotConfig (F : Type 0) : Type 0 where
  pub row_keys : List String
  pub column_key : String
  pub value_field : String
  pub aggregate_fn : String
  pub fill_value : Value F
  pub prefix : String

pub record UnpivotConfig : Type 0 where
  pub id_cols : List String
  pub value_cols : List String
  pub name_as : String
  pub value_as : String

pub record UnnestObjectConfig : Type 0 where
  pub field_name : String
  pub prefix : String
  pub drop : Bool

pub record NestConfig : Type 0 where
  pub by : List String
  pub into : String
  pub include : List String

module _ {F : Type 0} where
  -- `m[k] = append(m[k], v)`.
  unfoldable pub add_value :
      String → Value F → List (String × List (Value F)) → List (String × List (Value F))
  add_value k v [] = (k, v ∷ []) ∷ []
  add_value k v ((j, vs) ∷ cells) =
      let rest = add_value k v cells in
      if str_eq j k then (j, vs ++ v ∷ []) ∷ cells else (j, vs) ∷ rest

module _ (go : Runtime) where
  open go use {Float, lt, add, div, of_int, to_lower}

  -- The loops of `aggregateValues`.
  abbrev pub sum_values : Float → List (Value Float) → Float
  sum_values s [] = s
  sum_values s (v ∷ vs) = sum_values (add s (to_float go v)) vs

  abbrev pub min_values : Float → List (Value Float) → Float
  min_values m [] = m
  min_values m (v ∷ vs) = let f = to_float go v in min_values (if lt f m then f else m) vs

  abbrev pub max_values : Float → List (Value Float) → Float
  max_values m [] = m
  max_values m (v ∷ vs) = let f = to_float go v in max_values (if lt m f then f else m) vs

  abbrev pub last_of : Value Float → List (Value Float) → Value Float
  last_of v [] = v
  last_of v (w ∷ ws) = last_of w ws

  -- `aggregateValues`, on `v` and the values behind it.
  unfoldable pub aggregate_values : String → Value Float → List (Value Float) → Value Float
  unfolding to_float
  aggregate_values fn v vs =
      let name = to_lower fn in
      let all = v ∷ vs in
      if str_eq name "first"
      then v
      else if str_eq name "last"
      then last_of v vs
      else if str_eq name "count"
      then num int (pos (length all))
      else if str_eq name "sum"
      then float64 (sum_values go.zero all)
      else if str_eq name "avg"
      then float64 (div (sum_values go.zero all) (of_int (pos (length all))))
      else if str_eq name "min"
      then float64 (min_values (to_float go v) vs)
      else if str_eq name "max"
      then float64 (max_values (to_float go v) vs)
      else v

  -- The cells of a group of rows: the values, by the column that they go to.
  unfoldable pub cells_of :
      PivotConfig Float
      → List (String × List (Value Float))
      → List (Row Float)
      → List (String × List (Value Float))
  unfolding add_value sprint
  cells_of cfg cells [] = cells
  cells_of cfg cells (row ∷ rows) =
      cells_of cfg
        (add_value (sprint go (field row cfg.column_key)) (field row cfg.value_field) cells) rows

  -- The names of the columns, each once, in the order in which they are first seen.
  unfoldable pub column_order : String → List String → List (Row Float) → List String
  unfolding sprint
  column_order name seen [] = seen
  column_order name seen (row ∷ rows) =
      let c = sprint go (field row name) in
      column_order name (if contains seen c then seen else seen ++ c ∷ []) rows

  abbrev pub aggregate_or_first : String → String
  aggregate_or_first fn = if str_eq fn "" then "first" else fn

  abbrev pub cell_value : PivotConfig Float → Option (List (Value Float)) → Value Float
  cell_value cfg none = cfg.fill_value
  cell_value cfg (some []) = cfg.fill_value
  cell_value cfg (some (v ∷ vs)) = aggregate_values (aggregate_or_first cfg.aggregate_fn) v vs

  -- The loop over the columns that fills an output row.
  unfoldable pub put_cells :
      PivotConfig Float → List String → List (String × List (Value Float)) → Row Float → Row Float
  unfolding put aggregate_values
  put_cells cfg [] cells out = out
  put_cells cfg (c ∷ cs) cells out =
      put_cells cfg cs cells (put out (str_append cfg.prefix c) (cell_value cfg (lookup cells c)))

  -- `pivotOp.Apply`.
  unfoldable pub pivot_apply : PivotConfig Float → List (Row Float) → List (Row Float)
  unfolding group_key group_loop put_keys cells_of column_order put_cells sort_slice
  pivot_apply cfg rows =
      let cols = sort_slice lt_text (column_order cfg.column_key [] rows) in
      map
        (λ g.
          put_cells cfg cols (cells_of cfg [] g.1) (put_keys go cfg.row_keys (first_row go g.1) []))
        (group_loop (group_key go cfg.row_keys) [] rows)

module _ {F : Type 0} where
  -- The columns that a row is melted by.
  unfoldable pub value_columns : UnpivotConfig → Row F → List String
  unfolding sort_slice
  value_columns cfg row =
      if is_nil cfg.value_cols
      then sort_slice lt_text (keep (λ k. not (contains cfg.id_cols k)) (keys row))
      else cfg.value_cols

  abbrev pub copy_columns : List String → Row F → Row F → Row F
  copy_columns [] row out = out
  copy_columns (k ∷ ks) row out = copy_columns ks row (put out k (field row k))

  unfoldable pub melt_row : UnpivotConfig → Row F → String → Row F
  unfolding put
  melt_row cfg row vc =
      put (put (copy_columns cfg.id_cols row []) cfg.name_as (Value.str vc)) cfg.value_as
        (field row vc)

  -- `unpivotOp.Apply`.
  unfoldable pub unpivot_apply : UnpivotConfig → List (Row F) → List (Row F)
  unfolding value_columns melt_row
  unpivot_apply cfg [] = []
  unpivot_apply cfg (row ∷ rows) =
      map (melt_row cfg row) (value_columns cfg row) ++ unpivot_apply cfg rows

  -- `row[prefix+k] = mv` for each entry.
  abbrev pub spread : String → List (String × Value F) → Row F → Row F
  spread prefix [] row = row
  spread prefix ((k, v) ∷ m) row = spread prefix m (put row (str_append prefix k) v)

  abbrev pub spread_found : UnnestObjectConfig → Option (List (String × Value F)) → Row F → Row F
  spread_found cfg none row = row
  spread_found cfg (some m) row =
      let out = spread cfg.prefix m row in if cfg.drop then remove out cfg.field_name else out

  -- `unnestObjectOp.Apply` on one row; `as_map` tells whether an `any` is a map, with its entries.
  unfoldable pub unnest_row :
      (Value F → Option (List (String × Value F))) → UnnestObjectConfig → Row F → Row F
  unfolding put remove
  unnest_row as_map cfg row = elim (lookup row cfg.field_name) [
    | none ↦ row
    | some v ↦ if is_null v then row else spread_found cfg (as_map v) row
  ]

  unfoldable pub unnest_apply :
      (Value F → Option (List (String × Value F)))
      → UnnestObjectConfig
      → List (Row F)
      → List (Row F)
  unfolding unnest_row
  unnest_apply as_map cfg rows = map (unnest_row as_map cfg) rows

  abbrev pub included : List String → Row F → Row F → Row F
  included [] row rec = rec
  included (c ∷ cs) row rec =
      included cs row (elim (lookup row c) [ none ↦ rec | some v ↦ put rec c v ])

  -- The record that a row leaves in the nested list.
  unfoldable pub nested_record : NestConfig → Row F → Row F
  unfolding put
  nested_record cfg row =
      if is_nil cfg.include
      then keep (λ e. not (contains cfg.by e.0)) row
      else included cfg.include row []

module _ (go : Runtime) where
  open go use {Float, to_lower}

  -- `nestOp.Apply`; `as_value` is a list of maps as an `any`.
  unfoldable pub nest_apply :
      (List (Row Float) → Value Float) → NestConfig → List (Row Float) → List (Row Float)
  unfolding group_key group_loop put_keys nested_record put
  nest_apply as_value cfg rows =
      map
        (λ g.
          put (put_keys go cfg.by (first_row go g.1) []) cfg.into
            (as_value (map (nested_record cfg) g.1)))
        (group_loop (group_key go cfg.by) [] rows)
