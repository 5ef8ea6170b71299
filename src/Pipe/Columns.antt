-- ===== src/Pipe/Columns.antt =====
-- The stages that reshape each row by itself, pipe/project.go and pipe/flatten.go, and the columns
-- that the executor reads off its rows, pipe/columns.go. Rows are values here: what the stages do
-- to a row in place is what they return.
use dql.Prelude.{
  ℕ, zero, suc, String, Bool, true, false, not, ◌&&◌, ◌||◌, List, [], ◌∷◌, ◌++◌, map, Option, none,
  some, Outcome, ok, err, is_nil, sort_slice, str_eq, if◌then◌else◌,
}
use dql.Prelude.Int.{ℤ, pos}
use dql.Go.Value.{
  Value, nil, bool, num, int, float32, float64, str, array, strings, ints, floats, other, items,
  is_null,
}
use dql.Go.Row.{Row, lookup, put, remove, field, keys}
use dql.Go.Text.{lt_text}
use dql.Dsl.Query.{SelectField, output_name, ColumnInfo}
use dql.Processor.Steps.{Mapping, select_mapping, fill_row}
use dql.Pipe.Operator.{PipeError, bad_config, Operator}
use dql.Pipe.Rows.{pure_op}
pub mod Fields

-- `FlattenConfig`.
pub record FlattenConfig : Type 0 where
  pub field_name : String
  pub as_name : String
  pub index_as : String
  pub preserve_empty : Bool

module _ {F : Type 0} where
  -- `delete(row, c)` for each column.
  unfoldable pub drop_columns : List String → Row F → Row F
  unfolding remove
  drop_columns [] row = row
  drop_columns (c ∷ cs) row = drop_columns cs (remove row c)

  -- `projectOp.Apply`.
  unfoldable pub project_apply : List SelectField → List String → List (Row F) → List (Row F)
  unfolding drop_columns select_mapping fill_row
  project_apply select drop rows =
      if is_nil select && is_nil drop
      then rows
      else if not (is_nil drop)
      then map (drop_columns drop) rows
      else map (λ row. fill_row (map select_mapping select) row []) rows

  -- One round of that loop, where the old name's column is given.
  abbrev pub rename_found : String → String → Row F → Option (Value F) → Row F
  rename_found from to row none = row
  rename_found from to row (some v) = remove (put row to v) from

  -- `renameOp.Apply` on one row, over the names in the order in which Go's map gives them.
  unfoldable pub rename_row : List (String × String) → Row F → Row F
  unfolding put remove
  rename_row [] row = row
  rename_row ((from, to) ∷ names) row =
      rename_row names (rename_found from to row (lookup row from))

  unfoldable pub rename_apply : List (String × String) → List (Row F) → List (Row F)
  unfolding rename_row
  rename_apply names rows = map (rename_row names) rows

  -- `dropOp.Apply`.
  unfoldable pub drop_apply : List String → List (Row F) → List (Row F)
  unfolding drop_columns
  drop_apply columns rows = map (drop_columns columns) rows

  -- `flattenItems`; an array of maps is an `other` value here, and is not recognised.
  unfoldable pub flatten_items : Value F → Option (List (Value F))
  flatten_items (array vs) = some (items vs)
  flatten_items (strings ss) = some (map str ss)
  flatten_items (ints ns) = some (map (num int) ns)
  flatten_items (floats fs) = some (map float64 fs)
  flatten_items _ = none

  -- A copy of the row for one item.
  abbrev pub item_row : FlattenConfig → Row F → ℕ → Value F → Row F
  item_row cfg row idx v =
      let dup = put row (if str_eq cfg.as_name "" then cfg.field_name else cfg.as_name) v in
      if str_eq cfg.index_as "" then dup else put dup cfg.index_as (num int (pos idx))

  abbrev pub item_rows : FlattenConfig → Row F → ℕ → List (Value F) → List (Row F)
  item_rows cfg row idx [] = []
  item_rows cfg row idx (v ∷ vs) = item_row cfg row idx v ∷ item_rows cfg row (suc idx) vs

  -- What one row becomes.
  unfoldable pub flatten_row : FlattenConfig → Row F → List (Row F)
  unfolding put flatten_items
  flatten_row cfg row = elim (flatten_items (field row cfg.field_name)) [
    | none ↦ if cfg.preserve_empty then row ∷ [] else []
    | some vs ↦
        if is_nil vs then (if cfg.preserve_empty then row ∷ [] else []) else item_rows cfg row 0 vs
  ]

  -- `flattenOp.Apply`.
  unfoldable pub flatten_apply : FlattenConfig → List (Row F) → List (Row F)
  unfolding flatten_row
  flatten_apply cfg [] = []
  flatten_apply cfg (row ∷ rows) = flatten_row cfg row ++ flatten_apply cfg rows

  -- `inferColumnType`; a map, whose type is "object", is an `other` value here.
  abbrev pub infer_column_type : Value F → String
  infer_column_type (bool b) = "bool"
  infer_column_type (num k n) = "number"
  infer_column_type (float32 f) = "number"
  infer_column_type (float64 f) = "number"
  infer_column_type (str s) = "string"
  infer_column_type (array vs) = "array"
  infer_column_type _ = ""

  -- `seen` of `deriveColumnsFromRows`: for each column the first value that is not nil.
  abbrev pub see_value : List (String × Value F) → String → Value F → List (String × Value F)
  see_value seen k v = elim (lookup seen k) [
    | none ↦ put seen k v
    | some cur ↦ if is_null cur && not (is_null v) then put seen k v else seen
  ]

  abbrev pub see_row : List (String × Value F) → Row F → List (String × Value F)
  see_row seen [] = seen
  see_row seen ((k, v) ∷ row) = see_row (see_value seen k v) row

  abbrev pub see_rows : List (String × Value F) → List (Row F) → List (String × Value F)
  see_rows seen [] = seen
  see_rows seen (row ∷ rows) = see_rows (see_row seen row) rows

  abbrev pub column_of : List (String × Value F) → String → ColumnInfo
  column_of seen name = record {
    name = name;
    type = infer_column_type (field seen name);
    source = "computed";
  }

  -- `deriveColumnsFromRows`.
  unfoldable pub derive_columns : List (Row F) → List ColumnInfo
  unfolding put sort_slice
  derive_columns rows =
      let seen = see_rows [] rows in map (column_of seen) (sort_slice lt_text (keys seen))

module _ {F W : Type 0} where
  unfoldable pub project_factory : List SelectField → List String → Outcome PipeError (Operator F W)
  unfolding project_apply
  project_factory select drop =
      if not (is_nil select) && not (is_nil drop)
      then err (bad_config "project: select and drop are mutually exclusive")
      else ok (pure_op "project" (λ rows. ok (project_apply select drop rows)))

  unfoldable pub rename_factory : List (String × String) → Outcome PipeError (Operator F W)
  unfolding rename_apply
  rename_factory names =
      if is_nil names
      then err (bad_config "rename: map is required and must be non-empty")
      else ok (pure_op "rename" (λ rows. ok (rename_apply names rows)))

  unfoldable pub drop_factory : List String → Outcome PipeError (Operator F W)
  unfolding drop_apply
  drop_factory columns =
      if is_nil columns
      then err (bad_config "drop: columns is required and must be non-empty")
      else ok (pure_op "drop" (λ rows. ok (drop_apply columns rows)))

  unfoldable pub flatten_factory : FlattenConfig → Outcome PipeError (Operator F W)
  unfolding flatten_apply
  flatten_factory cfg =
      if str_eq cfg.field_name ""
      then err (bad_config "flatten: field is required")
      else ok (pure_op "flatten" (λ rows. ok (flatten_apply cfg rows)))
