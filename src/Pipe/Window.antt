-- ===== src/Pipe/Window.antt =====
-- The stage `window` (pipe/window.go). Rows are values here: what the stage writes into a row in
-- place is what it returns.
pub mod Ranks
pub mod Ties
use Prim.Native.String.{◌++◌ as str_append}
use dql.Prelude.{
  ℕ, zero, suc, ◌+◌, ◌-◌, String, Bool, true, false, not, ◌&&◌, ◌||◌, List, [], ◌∷◌, ◌++◌, map,
  keep, Outcome, ok, err, ◌>>=◌, contains, is_nil, length, get_or, ltb, leb, ◌==◌, sort_slice,
  str_eq, if◌then◌else◌,
}
use dql.Prelude.Int.{ℤ, pos, negsuc}
use dql.Go.Runtime.{Runtime}
use dql.Go.Value.{Value, nil, num, int, sprint}
use dql.Go.Row.{Row, field, put}
use dql.Go.Text.{join}
use dql.Dsl.Query.{OrderByClause}
use dql.Processor.Aggregate.{group_key, group_loop}
use dql.Pipe.Operator.{PipeError, bad_config, Operator}
use dql.Pipe.Order.{SortKey, new_order_spec, order_keys, new_perm, perm_less}
use dql.Pipe.Rows.{pure_op, is_empty_spec}

pub record WindowConfig (F : Type 0) : Type 0 where
  pub fn : String
  pub partition_by : List String
  pub order_by : List OrderByClause
  pub field_name : String
  pub offset : ℤ
  pub as_name : String
  pub default_value : Value F

-- The loop of `rank`, over the order keys of a sorted partition: from the position `i`, the rank
-- and the key so far.
unfoldable pub rank_loop : ℕ → ℕ → String → List String → List ℕ
rank_loop i rank last [] = []
rank_loop i rank last (key ∷ keys) =
    let is_new = i == 0 || not (str_eq key last) in
    let rank' = if is_new then suc i else rank in
    let last' = if is_new then key else last in rank' ∷ rank_loop (suc i) rank' last' keys

-- The loop of `dense_rank`.
unfoldable pub dense_loop : ℕ → ℕ → String → List String → List ℕ
dense_loop i rank last [] = []
dense_loop i rank last (key ∷ keys) =
    let is_new = i == 0 || not (str_eq key last) in
    let rank' = if is_new then suc rank else rank in
    let last' = if is_new then key else last in rank' ∷ dense_loop (suc i) rank' last' keys

-- The loop of `row_number`, over as many rows.
unfoldable pub number_loop : ℕ → List String → List ℕ
number_loop i [] = []
number_loop i (key ∷ keys) = suc i ∷ number_loop (suc i) keys

-- `off`, the offset of `lag` and `lead`.
abbrev pub offset_or_one : ℤ → ℕ
offset_or_one (pos zero) = 1
offset_or_one (pos (suc n)) = suc n
offset_or_one (negsuc n) = 1

module _ {F : Type 0} where
  abbrev pub whole : ℕ → Value F
  whole n = num int (pos n)

  -- The loops of `lag` and `lead`, over the positions from `i` in a partition whose values of the
  -- field are `vs`.
  unfoldable pub lag_loop : ℕ → Value F → List (Value F) → ℕ → List ℕ → List (Value F)
  lag_loop off default vs i [] = []
  lag_loop off default vs i (idx ∷ idxs) =
      (if leb off i then get_or vs (i - off) nil else default)
      ∷ lag_loop off default vs (suc i) idxs

  unfoldable pub lead_loop : ℕ → Value F → List (Value F) → ℕ → List ℕ → List (Value F)
  lead_loop off default vs i [] = []
  lead_loop off default vs i (idx ∷ idxs) =
      (if ltb (i + off) (length vs) then get_or vs (i + off) nil else default)
      ∷ lead_loop off default vs (suc i) idxs

  abbrev pub last_value : List (Value F) → Value F
  last_value [] = nil
  last_value (v ∷ []) = v
  last_value (v ∷ w ∷ vs) = last_value (w ∷ vs)

  -- `values[idx] = v`.
  abbrev pub set_at : List (Value F) → ℕ → Value F → List (Value F)
  set_at [] idx v = []
  set_at (u ∷ us) zero v = v ∷ us
  set_at (u ∷ us) (suc idx) v = u ∷ set_at us idx v

  abbrev pub assign : List ℕ → List (Value F) → List (Value F) → List (Value F)
  assign (idx ∷ idxs) (v ∷ vs) values = assign idxs vs (set_at values idx v)
  assign _ _ values = values

  -- The last loop: the values written into the rows.
  unfoldable pub write_values : String → List (Row F) → List (Value F) → List (Row F)
  unfolding put
  write_values name [] values = []
  write_values name (row ∷ rows) [] = put row name nil ∷ write_values name rows []
  write_values name (row ∷ rows) (v ∷ vs) = put row name v ∷ write_values name rows vs

module _ (go : Runtime) where
  open go use {Float, to_lower}

  unfoldable pub order_key : List OrderByClause → Row Float → String
  unfolding join sprint
  order_key order row = join "\0" (
      map (λ (o : OrderByClause). sprint go (field row o.field))
        (keep (λ (o : OrderByClause). not (str_eq o.field "")) order))

  -- The values of the function for the rows of one sorted partition.
  unfoldable pub partition_values :
      WindowConfig Float → List (Row Float) → List ℕ → Outcome PipeError (List (Value Float))
  unfolding rank_loop dense_loop number_loop lag_loop lead_loop order_key
  partition_values cfg rows idxs =
      let fn = to_lower cfg.fn in
      let keys = map (λ i. order_key cfg.order_by (get_or rows i [])) idxs in
      let vs = map (λ i. field (get_or rows i []) cfg.field_name) idxs in
      let off = offset_or_one cfg.offset in
      if str_eq fn "row_number"
      then ok (map whole (number_loop 0 keys))
      else if str_eq fn "rank"
      then ok (map whole (rank_loop 0 0 "" keys))
      else if str_eq fn "dense_rank"
      then ok (map whole (dense_loop 0 0 "" keys))
      else if str_eq fn "lag"
      then ok (lag_loop off cfg.default_value vs 0 idxs)
      else if str_eq fn "lead"
      then ok (lead_loop off cfg.default_value vs 0 idxs)
      else if str_eq fn "first_value"
      then ok (map (λ i. get_or vs 0 nil) idxs)
      else if str_eq fn "last_value"
      then ok (map (λ i. last_value vs) idxs)
      else err (bad_config "window: unknown function")

  -- The loop over the partitions.
  unfoldable pub each_partition :
      WindowConfig Float
      → List (Row Float)
      → List (String × List ℕ)
      → List (Value Float)
      → Outcome PipeError (List (Value Float))
  unfolding partition_values new_order_spec order_keys sort_slice
  each_partition cfg rows [] values = ok values
  each_partition cfg rows ((k, group) ∷ groups) values =
      let spec = new_order_spec go cfg.order_by in
      let idxs =
        if is_empty_spec go spec
        then group
        else sort_slice (perm_less go spec (order_keys go spec rows)) group in
      partition_values cfg rows idxs >>= λ vs.
      each_partition cfg rows groups (assign idxs vs values)

  -- `windowOp.Apply`.
  unfoldable pub window_apply :
      WindowConfig Float → List (Row Float) → Outcome PipeError (List (Row Float))
  unfolding each_partition group_loop group_key write_values
  window_apply cfg [] = ok []
  window_apply cfg (r ∷ rs) =
      let rows = r ∷ rs in
      let groups =
        group_loop (λ i. group_key go cfg.partition_by (get_or rows i [])) []
          (new_perm (length rows)) in
      each_partition cfg rows groups (map (λ row. nil) rows) >>= λ values.
      ok (write_values cfg.as_name rows values)

module _ (go : Runtime) {W : Type 0} where
  open go use {Float, to_lower}

  -- `windowFactory`, on a decoded configuration.
  unfoldable pub window_factory : WindowConfig Float → Outcome PipeError (Operator Float W)
  unfolding window_apply
  window_factory cfg =
      let fn = to_lower cfg.fn in
      let done = ok (pure_op "window" (window_apply go cfg)) in
      if str_eq cfg.as_name ""
      then err (bad_config "window: as is required")
      else if contains ("row_number" ∷ "rank" ∷ "dense_rank" ∷ []) fn
      then (if is_nil cfg.order_by then err (bad_config "window: orderBy is required") else done)
      else if contains ("lag" ∷ "lead" ∷ []) fn
      then (if str_eq cfg.field_name ""
          then err (bad_config "window: field is required")
          else if is_nil cfg.order_by
          then err (bad_config "window: orderBy is required")
          else done)
      else if contains ("first_value" ∷ "last_value" ∷ []) fn
      then (if str_eq cfg.field_name "" then err (bad_config "window: field is required") else done)
      else if str_eq fn ""
      then err (bad_config "window: fn is required")
      else err (bad_config "window: unknown function")
