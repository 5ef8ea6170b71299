-- ===== src/Pipe/Plan.antt =====
-- `PlanPipe` of pipe/planner.go: the longest prefix of the stages that folds into one query.
use Prim.Native.Char.{Char, code}
use dql.Prelude.{
  ℕ, zero, suc, ◌+◌, ◌-◌, String, Bool, true, false, not, ◌&&◌, ◌||◌, List, [], ◌∷◌, ◌++◌, map,
  Option, none, some, Outcome, ok, err, ◌>>=◌, map_err, all, any, contains, is_nil, length, ◌==◌,
  str_eq, if◌then◌else◌,
}
use dql.Prelude.Int.{ℤ}
use dql.Dsl.Where.{WhereClause, Clauses, done, more, and_clause}
use dql.Dsl.Tree.{has_expr_where}
use dql.Dsl.Query.{SelectField, AggregateClause, is_pushable, OrderByClause, Query}
use dql.Pipe.Operator.{
  PipeError, nil_query, no_stages, bad_config, at_stage, Stage, Operator, Factory, build,
}
use dql.Pipe.Graph.{validate_stage_graph}
use dql.Pipe.Execute.{PipePlan}
use dql.Pipe.Moves.{
  AggregateConfig, Codec, Move, Prefix, ProjectConfig, aggregate_move, all_aggregates_pushable,
  barrier, filter_move, fold, fold_last, fold_pair, group_move, limit_move, merge_and,
  normalize_fns, op_move, project_move, reading, refuse, skip_move, sort_move, upper,
}
pub mod Scan
pub mod Supply
pub mod Filters

module _ {J : Type 0} where
  -- A stage that the graph keeps in memory: it names its input, or its output is named later.
  abbrev pub is_held : List String → Stage J → Bool
  is_held referenced s =
      not (str_eq s.from "") || (not (str_eq s.id "") && contains referenced s.id)

  abbrev pub head : List (Stage J) → Option (Stage J)
  head [] = none
  head (s ∷ ss) = some s

  abbrev pub tail : List (Stage J) → List (Stage J)
  tail [] = []
  tail (s ∷ ss) = ss

  -- The ids that some stage names as its input.
  abbrev pub froms_of : List (Stage J) → List String
  froms_of [] = []
  froms_of (s ∷ ss) = let rest = froms_of ss in if str_eq s.from "" then rest else s.from ∷ rest

module _ {F : Type 0} where
  abbrev pub empty_query : Query F → Query F
  empty_query q = record {
    dataset = q.dataset;
    project_id = q.project_id;
    joins = [];
    filter = none;
    select = [];
    computed = [];
    group_by = [];
    aggregate = [];
    having = none;
    order_by = [];
    limit = none;
    offset = none;
  }

  abbrev pub start_prefix : Query F → Prefix F
  start_prefix q = record {
    query = empty_query q;
    folded = [];
    have_sort = false;
    have_limit = false;
    have_skip = false;
    have_select = false;
  }

module _ {J F : Type 0} (codec : Codec J F) where
  -- What is left to do after a move at the stage `s`: the prefix that was folded, and the stages
  -- that stay in memory.
  abbrev pub after_move :
      (Prefix F → Outcome PipeError (Prefix F × List (Stage J)))
      → Stage J
      → List (Stage J)
      → Prefix F
      → Move F
      → Outcome PipeError (Prefix F × List (Stage J))
  after_move later s ss p (refuse e) = err e
  after_move later s ss p barrier = ok (p, s ∷ ss)
  after_move later s ss p (fold p') = later p'
  after_move later s ss p (fold_last p') = ok (p', ss)
  after_move later s ss p (fold_pair p') = ok (p', tail ss)

  -- The loop.
  unfoldable pub scan :
      List String → ℕ → List (Stage J) → Prefix F → Outcome PipeError (Prefix F × List (Stage J))
  unfolding op_move
  scan referenced i [] p = ok (p, [])
  scan referenced i (s ∷ ss) p =
      if is_held referenced s
      then ok (p, s ∷ ss)
      else after_move (scan referenced (suc i) ss) s ss p (op_move codec i s (head ss) p)

module _ {J F W : Type 0} (registry : List (String × Factory J F W)) where
  -- The loop that builds the tail, from stage `i`.
  unfoldable pub build_tail : ℕ → List (Stage J) → Outcome PipeError (List (Operator F W))
  unfolding build
  build_tail i [] = ok []
  build_tail i (s ∷ ss) = map_err (at_stage i "") (build registry s) >>= λ op.
      build_tail (suc i) ss >>= λ ops. ok (op ∷ ops)

module _ {J F W : Type 0} where
  abbrev pub pipe_plan : Prefix F → List (Stage J) → List (Operator F W) → PipePlan F W
  pipe_plan p rest ops = record {
    pushed = p.query;
    ops = ops;
    pushed_stages = p.folded;
    stages = map (λ s. s.op) rest;
    ids = map (λ s. s.id) rest;
    froms = map (λ s. s.from) rest;
  }

-- `if err := …; err != nil { return nil, err }`.
abbrev pub unless : {A : Type 0} → Option PipeError → Outcome PipeError A → Outcome PipeError A
unless none r = r
unless (some e) r = err e

module _ {J F W : Type 0} (codec : Codec J F) (registry : List (String × Factory J F W)) where
  -- `PlanPipe`, on the pipe `stages` of a query.
  unfoldable pub plan_pipe : Option (Query F) → List (Stage J) → Outcome PipeError (PipePlan F W)
  unfolding validate_stage_graph scan build_tail
  plan_pipe none stages = err nil_query
  plan_pipe (some q) [] = err no_stages
  plan_pipe (some q) (s ∷ ss) = unless (validate_stage_graph (s ∷ ss)) (
      scan codec (froms_of (s ∷ ss)) 0 (s ∷ ss) (start_prefix q) >>= λ r.
      build_tail registry (length (s ∷ ss) - length r.1) r.1 >>= λ ops. ok (pipe_plan r.0 r.1 ops))
