-- ===== src/Pipe/Lookup.antt =====
-- The join stages: pipe/lookup.go, without its cache, and `crossJoin` of pipe/setops.go. The
-- classic engine, which answers the query for the right side, is a parameter.
use Prim.Native.String.{◌++◌ as str_append}
use dql.Prelude.{
  ℕ, String, Bool, true, false, not, ◌&&◌, ◌||◌, List, [], ◌∷◌, ◌++◌, map, Option, none, some,
  Outcome, ok, err, map_err, is_nil, str_eq, if◌then◌else◌,
}
use dql.Prelude.Int.{ℤ}
use dql.Go.Runtime.{Runtime}
use dql.Go.Value.{Value, sprint}
use dql.Go.Row.{Row, lookup, put, field}
use dql.Dsl.Where.{WhereClause}
use dql.Dsl.Query.{Query}
use dql.Pipe.Operator.{PipeError, bad_config, classic, under, Operator, ◌then◌, wrapping}
use dql.Pipe.Plan.{empty_query}
pub mod Merge

module _ (F : Type 0) where
  -- `LookupConfig`, less the cache's lifetime.
  pub record LookupConfig : Type 0 where
    pub dataset : String
    pub left : String
    pub right : String
    pub as_name : String
    pub select : List String
    pub mode : String
    pub filter : Option (WhereClause F)
    pub limit : Option ℤ

-- `outKey` of a merge plan.
abbrev pub out_key : String → String → String
out_key as_name col = if str_eq as_name "" then col else str_append as_name (str_append "_" col)

module _ {F : Type 0} where
  -- `out[p.outKey(c)] = right[c]` for each selected column.
  abbrev pub put_selected : String → List String → Row F → Row F → Row F
  put_selected as_name [] right out = out
  put_selected as_name (c ∷ cs) right out =
      put_selected as_name cs right (put out (out_key as_name c) (field right c))

  -- `out[p.outKey(c)] = v` for each column of the right row.
  abbrev pub put_all : String → Row F → Row F → Row F
  put_all as_name [] out = out
  put_all as_name ((c, v) ∷ right) out = put_all as_name right (put out (out_key as_name c) v)

  -- `mergePlan.merge`.
  unfoldable pub merge_rows : String → List String → Row F → Row F → Row F
  unfolding put
  merge_rows as_name select left right =
      if is_nil select then put_all as_name right left else put_selected as_name select right left

  -- The rows of `crossJoinOp.Apply`.
  abbrev pub pair_rows : String → List String → Row F → List (Row F) → List (Row F)
  pair_rows as_name select l rights = map (merge_rows as_name select l) rights

  unfoldable pub cross_rows : String → List String → List (Row F) → List (Row F) → List (Row F)
  unfolding merge_rows
  cross_rows as_name select [] rights = []
  cross_rows as_name select (l ∷ lefts) rights =
      pair_rows as_name select l rights ++ cross_rows as_name select lefts rights

module _ (go : Runtime) where
  open go use {Float}

  -- The index of `fetchIndex`: the last row of a key wins.
  unfoldable pub build_index :
      String → List (String × Row Float) → List (Row Float) → List (String × Row Float)
  unfolding put sprint
  build_index right index [] = index
  build_index right index (r ∷ rs) = build_index right (put index (sprint go (field r right)) r) rs

  -- What a left row adds to the rows, given its match.
  abbrev pub join_row :
      LookupConfig Float → Row Float → Option (Row Float) → List (Row Float) → List (Row Float)
  join_row cfg left none rest = if str_eq cfg.mode "inner" then rest else left ∷ rest
  join_row cfg left (some match) rest = merge_rows cfg.as_name cfg.select left match ∷ rest

  -- The loop of `lookupOp.Apply`.
  unfoldable pub join_rows :
      LookupConfig Float → List (String × Row Float) → List (Row Float) → List (Row Float)
  unfolding merge_rows sprint
  join_rows cfg index [] = []
  join_rows cfg index (left ∷ rows) =
      join_row cfg left (lookup index (sprint go (field left cfg.left))) (join_rows cfg index rows)

  -- The query for the right side.
  abbrev pub right_query :
      Query Float → String → String → Option (WhereClause Float) → Option ℤ → Query Float
  right_query base dataset project filter limit = record (empty_query base) {
    dataset = dataset;
    project_id = project;
    filter = filter;
    limit = limit;
  }

module _ (go : Runtime) {W : Type 0}
    (execute : Query go.Float → W → Outcome String (List (Row go.Float)) × W)
    (base : Query go.Float) (workspace project : String) where
  open go use {Float}

  -- `classic.Execute`, with its error as this package's.
  abbrev pub fetch : Query Float → W → Outcome PipeError (List (Row Float)) × W
  fetch q w = let r = execute q w in (map_err classic r.0, r.1)

  -- `lookupOp.Apply`, without a cache.
  unfoldable pub lookup_apply :
      LookupConfig Float → List (Row Float) → W → Outcome PipeError (List (Row Float)) × W
  unfolding build_index join_rows
  lookup_apply cfg rows w =
      if str_eq workspace ""
      then (err (bad_config "lookup: workspace not set in context"), w)
      else (wrapping (under "lookup: fetch right side")
            (fetch (right_query go base cfg.dataset project cfg.filter cfg.limit) w)
          then λ rights w'. (ok (join_rows go cfg (build_index go cfg.right [] rights) rows), w'))

  -- `crossJoinOp.Apply`.
  unfoldable pub cross_apply :
      LookupConfig Float → List (Row Float) → W → Outcome PipeError (List (Row Float)) × W
  unfolding cross_rows
  cross_apply cfg rows w =
      if str_eq workspace ""
      then (err (bad_config "crossJoin: workspace not set in context"), w)
      else (wrapping (under "crossJoin: fetch right")
            (fetch (right_query go base cfg.dataset project cfg.filter cfg.limit) w)
          then λ rights w'. (ok (cross_rows cfg.as_name cfg.select rows rights), w'))
