-- ===== src/Pipe/Rows.antt =====
-- The stages that choose and order rows: pipe/filter.go, pipe/sort_limit.go, pipe/topn.go and
-- pipe/distinct.go. None of them reads the world.
use dql.Prelude.{
  ℕ, zero, suc, String, Bool, true, false, not, ◌&&◌, ◌||◌, List, [], ◌∷◌, ◌++◌, map, Option, none,
  some, Outcome, ok, err, map_err, any, contains, is_nil, length, get_or, take, drop, ltb, leb,
  sort_slice, str_eq, if◌then◌else◌,
}
use Prim.Native.String.{◌++◌ as str_append}
use dql.Prelude.Int.{ℤ, pos, negsuc}
use dql.Go.Runtime.{Runtime}
use dql.Go.Value.{Value, sprint}
use dql.Go.Row.{Row, field, keys}
use dql.Go.Text.{join, gt_text, lt_text}
use dql.Dsl.Where.{WhereClause}
use dql.Dsl.Tree.{EvalError, Evaluator, filter_rows, has_expr}
use dql.Dsl.Query.{OrderByClause}
use dql.Processor.Aggregate.{group_key, group_loop}
use dql.Pipe.Operator.{PipeError, bad_config, evaluation, Operator}
use dql.Pipe.Where.{pipe_semantics}
use dql.Pipe.Order.{SortKey, new_order_spec, sort_perm_rows}
pub mod Distinct

module _ {F W : Type 0} where
  -- An operator that reads only its rows, and says that it is live-safe.
  abbrev pub pure_op : String → (List (Row F) → Outcome PipeError (List (Row F))) → Operator F W
  pure_op name f = record {
    name = name;
    label = "";
    live_safe = true;
    apply = λ rows w. (f rows, w);
  }

module _ {F : Type 0} where
  -- `limitOp.Apply`.
  unfoldable pub limit_rows : ℤ → List (Row F) → List (Row F)
  limit_rows (pos zero) rows = rows
  limit_rows (pos (suc n)) rows = if leb (length rows) (suc n) then rows else take (suc n) rows
  limit_rows (negsuc n) rows = rows

  -- `skipOp.Apply`.
  unfoldable pub skip_rows : ℤ → List (Row F) → List (Row F)
  skip_rows (pos zero) rows = rows
  skip_rows (pos (suc n)) rows = if leb (length rows) (suc n) then [] else drop (suc n) rows
  skip_rows (negsuc n) rows = rows

module _ (go : Runtime) where
  open go use {Float}

  -- `filterOp.Apply`.
  unfoldable pub filter_apply :
      Option (Evaluator Float)
      → Option (WhereClause Float)
      → List (Row Float)
      → Outcome PipeError (List (Row Float))
  unfolding filter_rows
  filter_apply eval w rows = map_err evaluation (filter_rows (pipe_semantics go eval) w rows)

  abbrev pub is_empty_spec : List SortKey → Bool
  is_empty_spec spec = is_nil spec

  -- `sortOp.Apply`.
  unfoldable pub sort_apply : List OrderByClause → List (Row Float) → List (Row Float)
  unfolding new_order_spec sort_perm_rows
  sort_apply by rows =
      let spec = new_order_spec go by in
      if is_empty_spec spec || ltb (length rows) 2
      then rows
      else map (λ p. get_or rows p []) (sort_perm_rows go spec rows)

  -- What `topPerGroupOp.Apply` appends for one group.
  abbrev pub top_of_group : ℕ → List SortKey → List (Row Float) → List (Row Float)
  top_of_group n spec bucket =
      let m = if ltb (length bucket) n then length bucket else n in
      if is_empty_spec spec
      then take m bucket
      else map (λ p. get_or bucket p []) (take m (sort_perm_rows go spec bucket))

  abbrev pub top_groups : ℕ → List SortKey → List (String × List (Row Float)) → List (Row Float)
  top_groups n spec [] = []
  top_groups n spec (g ∷ gs) = top_of_group n spec g.1 ++ top_groups n spec gs

  -- `topPerGroupOp.Apply`.
  unfoldable pub top_apply :
      ℤ → List OrderByClause → List String → List (Row Float) → List (Row Float)
  unfolding group_key group_loop new_order_spec sort_perm_rows
  top_apply (pos (suc n)) by partition rows =
      top_groups (suc n) (new_order_spec go by) (group_loop (group_key go partition) [] rows)
  top_apply _ by partition rows = []

  -- The names of a row's columns, sorted.
  unfoldable pub sorted_columns : Row Float → List String
  unfolding sort_slice
  sorted_columns row = sort_slice lt_text (keys row)

  abbrev pub column_parts : Row Float → List String → List String
  column_parts row [] = []
  column_parts row (c ∷ cs) = str_append c "=" ∷ sprint go (field row c) ∷ column_parts row cs

  -- `distinctOp.key`.
  unfoldable pub distinct_key : List String → Row Float → String
  unfolding group_key sorted_columns join sprint
  distinct_key by row =
      if not (is_nil by)
      then group_key go by row
      else join "\0" (column_parts row (sorted_columns row))

  -- The loop of `distinctOp.Apply`, from the keys seen.
  unfoldable pub distinct_loop :
      (Row Float → String) → List String → List (Row Float) → List (Row Float)
  distinct_loop key seen [] = []
  distinct_loop key seen (row ∷ rows) =
      if contains seen (key row)
      then distinct_loop key seen rows
      else row ∷ distinct_loop key (key row ∷ seen) rows

  unfoldable pub distinct_apply : List String → List (Row Float) → List (Row Float)
  unfolding distinct_key distinct_loop
  distinct_apply by rows = distinct_loop (distinct_key by) [] rows

module _ (go : Runtime) (W : Type 0) where
  open go use {Float}

  abbrev pub is_missing_evaluator : Option (Evaluator Float) → Bool
  is_missing_evaluator none = true
  is_missing_evaluator (some run) = false

  -- `filterFactory`, on a configuration that decodes.
  unfoldable pub filter_factory :
      Option (Evaluator Float) → Option (WhereClause Float) → Outcome PipeError (Operator Float W)
  unfolding filter_apply has_expr
  filter_factory eval none = err (bad_config "filter: where is required")
  filter_factory eval (some w) =
      if has_expr w && is_missing_evaluator eval
      then err
          (bad_config "filter: expression evaluator not available (function extension missing)")
      else ok (pure_op "filter" (filter_apply go eval (some w)))

  unfoldable pub sort_factory : List OrderByClause → Outcome PipeError (Operator Float W)
  unfolding sort_apply
  sort_factory by =
      if is_nil by
      then err (bad_config "sort: by is required and must be non-empty")
      else if any (λ o. str_eq o.field "" && str_eq o.expr "") by
      then err (bad_config "sort.by: field or expr is required")
      else ok (pure_op "sort" (λ rows. ok (sort_apply go by rows)))

  unfoldable pub limit_factory : ℤ → Outcome PipeError (Operator Float W)
  unfolding limit_rows
  limit_factory (negsuc n) = err (bad_config "limit: n must be non-negative")
  limit_factory (pos n) = ok (pure_op "limit" (λ rows. ok (limit_rows (pos n) rows)))

  unfoldable pub skip_factory : ℤ → Outcome PipeError (Operator Float W)
  unfolding skip_rows
  skip_factory (negsuc n) = err (bad_config "skip: n must be non-negative")
  skip_factory (pos n) = ok (pure_op "skip" (λ rows. ok (skip_rows (pos n) rows)))

  unfoldable pub top_factory :
      ℤ → List OrderByClause → List String → Outcome PipeError (Operator Float W)
  unfolding top_apply
  top_factory (pos (suc n)) by partition =
      if is_nil by
      then err (bad_config "topPerGroup: by is required")
      else if any (λ o. str_eq o.field "") by
      then err (bad_config "topPerGroup.by: field is required")
      else ok (pure_op "topPerGroup" (λ rows. ok (top_apply go (pos (suc n)) by partition rows)))
  top_factory _ by partition = err (bad_config "topPerGroup: n must be positive")

  unfoldable pub distinct_factory : List String → Outcome PipeError (Operator Float W)
  unfolding distinct_apply
  distinct_factory by = ok (pure_op "distinct" (λ rows. ok (distinct_apply go by rows)))
