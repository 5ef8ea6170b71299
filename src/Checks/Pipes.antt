-- ===== src/Checks/Pipes.antt =====
-- The theorems on the pipe, at the data of the parent: a pipe with a side effect and one without.
use mathlib.Core.List.{Perm}
use dql.Prelude.{
  ℕ, suc, ◌≤◌, String, true, false, not, ◌&&◌, ◌||◌, ◌≡◌, refl, List, [], ◌∷◌, ◌++◌, map, none,
  some, Outcome, ok, err, ◌>>=◌, contains, length, get_or, str_eq, keep, All,
}
use dql.Prelude.Int.{pos}
use dql.Go.Value.{str, bool, num, int, sprint}
use dql.Go.Row.{Row, lookup, field}
use dql.Dsl.Tree.{Evaluator}
use dql.Dsl.Query.{Query, AggregateClause}
use dql.Pipe.Operator.{Stage, Operator, Factory, apply_chain, apply_chain_from}
use dql.Pipe.Execute.{ExecutorConfig, PipePlan, Run, apply_in_memory_ops, execute_from_stage}
use dql.Pipe.Execute.Quiet.{IsQuiet}
use dql.Pipe.Execute.Replay.{replay_exact}
use dql.Pipe.Execute.Inputs.{is_missing}
use dql.Pipe.Graph.{is_valid_stage_id, validate_stage_graph}
use dql.Pipe.Graph.Sound.{validate_stage_graph_sound}
use dql.Pipe.Moves.{Codec, merge_and}
use dql.Pipe.Plan.{plan_pipe}
use dql.Pipe.Plan.Supply.{plan_pipe-supplied}
use dql.Pipe.Plan.Filters.{merge_and-filters}
use dql.Pipe.Order.{SortKey, order_keys, sort_perm, sort_perm_rows}
use dql.Pipe.Order.Fast.{sort_perm_rows-general, sort_perm_rows-perm}
use dql.Pipe.Rows.{pure_op, filter_apply, distinct_key, distinct_apply}
use dql.Pipe.Rows.Distinct.{are_distinct, distinct_apply-distinct}
use dql.Pipe.Branching.{
  common_rows, other_rows, route, branch_apply, merge_op, intersect_op, except_op, branch_op,
}
use dql.Pipe.Branching.Keys.{common_or_other}
use dql.Pipe.Branching.Ways.{holds, Evaluates, branch_apply-keep}
use dql.Pipe.Branching.Quiet.{composites-IsQuiet}
use dql.Pipe.Columns.{drop_columns, rename_row}
use dql.Pipe.Columns.Fields.{drop_columns-lookup, rename_row-lookup}
use dql.Pipe.Lookup.{LookupConfig, build_index, join_rows}
use dql.Pipe.Lookup.Merge.{build_index-last, join_rows-length}
use dql.Pipe.Detailed.{ClassicResult, ExecResult, execute_detailed, classify, is_live_safe}
use dql.Pipe.Detailed.Bounds.{execute_detailed-bounded, classify-safe}
use dql.Checks.{toy, ann, bob, yes, named_bob, query_of}

-- An operator with a side effect, on a world that counts them, and one without.
abbrev send : Operator ℕ ℕ
send = record {
  name = "callApp";
  label = "";
  live_safe = false;
  apply = λ rows w. (ok rows, suc w);
}

abbrev first_only : Operator ℕ ℕ
first_only = pure_op "limit" (λ rows. ok (bob ∷ []))

abbrev small : ExecutorConfig
small = record { max_stages = 4; max_rows = 3 }

abbrev sending : PipePlan ℕ ℕ
sending = record {
  pushed = query_of none;
  ops = send ∷ first_only ∷ [];
  pushed_stages = [];
  stages = "callApp" ∷ "limit" ∷ [];
  ids = "sent" ∷ "" ∷ [];
  froms = "" ∷ "sent" ∷ [];
}

abbrev sent : Run ℕ
sent = record {
  rows = bob ∷ [];
  outputs = ("sent", ann ∷ bob ∷ []) ∷ [];
  primed_rows = ann ∷ bob ∷ [];
  primed_at = 1;
  primed_outputs = ("sent", ann ∷ bob ∷ []) ∷ [];
  stats = [];
}

replay_exact_example :
    execute_from_stage small sending 1 (ann ∷ bob ∷ []) (("sent", ann ∷ bob ∷ []) ∷ []) 6
    ≡ (ok (bob ∷ []), 6)
unfolding apply_in_memory_ops
replay_exact_example =
    replay_exact small sending false (ann ∷ bob ∷ []) sent 5 6
      ((λ rows w. tt), ((λ rows w. refl), tt)) refl

-- Stages whose configuration is a name, and a reader for them.
abbrev pub read_all : Codec String ℕ
read_all = record {
  read_filter = λ j. ok (some named_bob);
  read_project = λ j. err "project";
  read_sort = λ j. err "sort";
  read_limit = λ j. ok (pos 2);
  read_skip = λ j. err "skip";
  read_group_by = λ j. err "groupBy";
  read_aggregate = λ j. err "aggregate";
}

abbrev filter_stage : Stage String
filter_stage = record { op = "filter"; id = ""; from = ""; config = "" }

abbrev pub tap_stage : Stage String
tap_stage = record { op = "tap"; id = "seen"; from = ""; config = "" }

abbrev again_stage : Stage String
again_stage = record { op = "tap"; id = ""; from = "seen"; config = "" }

abbrev pub tap : Operator ℕ ℕ
tap = pure_op "tap" (λ rows. ok rows)

abbrev pub taps : List (String × Factory String ℕ ℕ)
taps = ("tap", λ j. ok tap) ∷ []

abbrev tapping : PipePlan ℕ ℕ
tapping = record {
  pushed = record (query_of (some named_bob)) { limit = none };
  ops = tap ∷ tap ∷ [];
  pushed_stages = "filter" ∷ [];
  stages = "tap" ∷ "tap" ∷ [];
  ids = "seen" ∷ "" ∷ [];
  froms = "" ∷ "seen" ∷ [];
}

validate_stage_graph_sound_example :
    ((str_eq "" "" || (is_valid_stage_id "" && not (contains ("" ∷ "seen" ∷ []) ""))) ≡ true)
    × ((str_eq "seen" "" || contains ("" ∷ "seen" ∷ []) "seen") ≡ true)
unfolding validate_stage_graph
validate_stage_graph_sound_example =
    validate_stage_graph_sound (filter_stage ∷ tap_stage ∷ []) again_stage [] refl

plan_pipe-supplied_example :
    is_missing (apply_in_memory_ops small tapping true (bob ∷ []) 0) ≡ false
unfolding plan_pipe dql.Dsl.Tree.has_expr
plan_pipe-supplied_example =
    plan_pipe-supplied read_all taps (query_of none) filter_stage (tap_stage ∷ again_stage ∷ [])
      tapping small true (bob ∷ []) 0 refl refl

abbrev answer : Query ℕ → ℕ → Outcome String (ClassicResult ℕ) × ℕ
answer q w =
    (ok (record { rows = bob ∷ []; columns = []; scanned = 2; sources = []; truncated = false }), w)

abbrev tapped : ExecResult ℕ ℕ
tapped = record {
  rows = bob ∷ [];
  columns =
      record { name = "age"; type = "number"; source = "computed" }
      ∷ record { name = "name"; type = "string"; source = "computed" }
      ∷ [];
  total = 1;
  scanned = 2;
  returned = 1;
  sources = [];
  stats = [];
  truncated = false;
  plan = tapping;
  primed_rows = bob ∷ [];
  primed_at = 0;
  primed_outputs = [];
}

execute_detailed-bounded_example : (3 ≤ 4) × (1 ≤ 3)
unfolding execute_detailed dql.Dsl.Tree.has_expr
execute_detailed-bounded_example =
    execute_detailed-bounded read_all taps answer small false (some (query_of none))
      (filter_stage ∷ tap_stage ∷ again_stage ∷ []) tapped 0 0 refl

merge_and-filters_example :
    filter_apply toy none (merge_and (some named_bob) (some named_bob)) (ann ∷ bob ∷ []) ≡ (
      filter_apply toy none (some named_bob) (ann ∷ bob ∷ []) >>= λ mid.
      filter_apply toy none (some named_bob) mid)
unfolding dql.Dsl.Tree.has_expr
merge_and-filters_example =
    merge_and-filters toy none (some named_bob) (some named_bob) (ann ∷ bob ∷ []) refl refl

abbrev by_age : SortKey
by_age = record { name = "age"; desc = false }

sort_perm_rows-general_example :
    sort_perm_rows toy (by_age ∷ []) (ann ∷ bob ∷ [])
    ≡ sort_perm toy (by_age ∷ []) (order_keys toy (by_age ∷ []) (ann ∷ bob ∷ [])) 2
sort_perm_rows-general_example = sort_perm_rows-general toy (by_age ∷ []) (ann ∷ bob ∷ [])

sort_perm_rows-perm_example :
    Perm
      (map (λ p. get_or (ann ∷ bob ∷ []) p []) (sort_perm_rows toy (by_age ∷ []) (ann ∷ bob ∷ [])))
      (ann ∷ bob ∷ [])
sort_perm_rows-perm_example = sort_perm_rows-perm toy (by_age ∷ []) (ann ∷ bob ∷ [])

composites-IsQuiet_example :
    IsQuiet (merge_op ((first_only ∷ []) ∷ (send ∷ []) ∷ []))
    × (IsQuiet (intersect_op toy ("name" ∷ []) ((first_only ∷ []) ∷ (send ∷ []) ∷ []))
        × (IsQuiet (except_op toy ("name" ∷ []) (first_only ∷ []) (send ∷ []))
            × IsQuiet (branch_op toy yes "age < 18" (first_only ∷ []) (send ∷ []))))
composites-IsQuiet_example =
    composites-IsQuiet toy ((first_only ∷ []) ∷ (send ∷ []) ∷ []) (first_only ∷ []) (send ∷ [])
      ("name" ∷ []) yes "age < 18" (((λ rows w. refl), tt), (((λ rows w. tt), tt), tt))
      ((λ rows w. refl), tt) ((λ rows w. tt), tt)

common_or_other_example :
    Perm
      (common_rows toy ("name" ∷ []) ((ann ∷ bob ∷ []) ∷ (bob ∷ []) ∷ [])
        ++ other_rows toy ("name" ∷ []) (ann ∷ bob ∷ []) (bob ∷ []))
      (ann ∷ bob ∷ [])
common_or_other_example = common_or_other toy ("name" ∷ []) (ann ∷ bob ∷ []) (bob ∷ [])

-- A condition that holds of ann alone.
abbrev is_ann : Evaluator ℕ
is_ann e row = ok (bool (str_eq (sprint toy (field row "name")) "ann"))

branch_apply-keep_example :
    (thens : List (Row ℕ)) × (elses : List (Row ℕ)) × (mid : ℕ) × (apply_chain
        (send ∷ [])
        (keep (holds toy is_ann "one") (bob ∷ ann ∷ []))
        0
      ≡ (ok thens, mid))
    × (apply_chain {W = ℕ} [] (keep (λ row. not (holds toy is_ann "one" row)) (bob ∷ ann ∷ [])) mid
        ≡ (ok elses, 1))
    × ((ann ∷ bob ∷ []) ≡ thens ++ elses)
    × All (Evaluates toy is_ann "one") (bob ∷ ann ∷ [])
unfolding branch_apply route apply_chain apply_chain_from sprint
branch_apply-keep_example =
    branch_apply-keep toy is_ann "one" (send ∷ []) [] (bob ∷ ann ∷ []) (ann ∷ bob ∷ []) 0 1 refl

distinct_apply-distinct_example :
    (are_distinct (
        map
          (distinct_key toy ("name" ∷ []))
          (distinct_apply toy ("name" ∷ []) (ann ∷ bob ∷ ann ∷ [])))
      ≡ true)
    × ((k : String)
        → contains
            (map
              (distinct_key toy ("name" ∷ []))
              (distinct_apply toy ("name" ∷ []) (ann ∷ bob ∷ ann ∷ [])))
            k
          ≡ contains (map (distinct_key toy ("name" ∷ [])) (ann ∷ bob ∷ ann ∷ [])) k)
distinct_apply-distinct_example = distinct_apply-distinct toy ("name" ∷ []) (ann ∷ bob ∷ ann ∷ [])

-- A later row that has bob's name.
abbrev old_bob : Row ℕ
old_bob = ("name", str "bob") ∷ ("age", num int (pos 90)) ∷ []

build_index-last_example :
    lookup (build_index toy "name" [] (ann ∷ bob ∷ old_bob ∷ [])) "ann" ≡ some ann
unfolding build_index
build_index-last_example = build_index-last toy "name" (ann ∷ bob ∷ old_bob ∷ []) "ann"

abbrev left_join : LookupConfig ℕ
left_join = record {
  dataset = "people";
  left = "name";
  right = "name";
  as_name = "p";
  select = [];
  mode = "left";
  filter = none;
  limit = none;
}

join_rows-length_example : length (join_rows toy left_join (("bob", bob) ∷ []) (ann ∷ bob ∷ [])) ≡ 2
join_rows-length_example = join_rows-length toy left_join (("bob", bob) ∷ []) (ann ∷ bob ∷ []) refl

drop_columns-lookup_example : lookup (drop_columns ("age" ∷ []) bob) "age" ≡ none
drop_columns-lookup_example = drop_columns-lookup ("age" ∷ []) bob "age"

rename_row-lookup_example : lookup (rename_row (("age", "age") ∷ []) bob) "age" ≡ none
rename_row-lookup_example = rename_row-lookup "age" "age" bob "age"

classify-safe_example : is_live_safe (classify sending) ≡ false
classify-safe_example = classify-safe sending

abbrev count_all : AggregateClause ℕ
count_all = record { fn = "COUNT"; field = "*"; expr = ""; args = []; as_name = "n" }

-- A grouping with an aggregation whose output a later stage names: the aggregation is pushed, and
-- its output is missing in the tail.
abbrev read_pairs : Codec String ℕ
read_pairs = record read_all {
  read_group_by = λ j. ok ("name" ∷ []);
  read_aggregate = λ j. ok (record { keys = []; aggs = count_all ∷ [] });
}

abbrev pair_stages : List (Stage String)
pair_stages =
    record { op = "groupBy"; id = ""; from = ""; config = "" }
    ∷ record { op = "aggregate"; id = "seen"; from = ""; config = "" }
    ∷ again_stage
    ∷ []

named_pair_misses :
    is_missing
      (execute_detailed read_pairs taps answer small false (some (query_of none)) pair_stages 0)
    ≡ true
unfolding execute_detailed
named_pair_misses = refl
