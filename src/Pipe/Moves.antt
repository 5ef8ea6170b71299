-- ===== src/Pipe/Moves.antt =====
-- What the loop of `PlanPipe` (pipe/planner.go) does at one stage.
use Prim.Native.Char.{Char, code}
use dql.Prelude.{
  ℕ, suc, String, Bool, true, not, ◌||◌, List, [], ◌∷◌, ◌++◌, map, Option, none, some, Outcome, ok,
  err, all, any, is_nil, ◌==◌, str_eq, if◌then◌else◌,
}
use dql.Prelude.Int.{ℤ}
use dql.Dsl.Where.{WhereClause, done, more, and_clause}
use dql.Dsl.Tree.{has_expr_where}
use dql.Dsl.Query.{SelectField, AggregateClause, is_pushable, OrderByClause, Query}
use dql.Pipe.Operator.{PipeError, bad_config, at_stage, Stage}

pub record ProjectConfig : Type 0 where
  pub select : List SelectField
  pub drop : List String

pub record AggregateConfig (F : Type 0) : Type 0 where
  pub keys : List String
  pub aggs : List (AggregateClause F)

-- `json.Unmarshal` into the configurations that the planner reads.
pub record Codec (J F : Type 0) : Type 0 where
  pub read_filter : J → Outcome String (Option (WhereClause F))
  pub read_project : J → Outcome String ProjectConfig
  pub read_sort : J → Outcome String (List OrderByClause)
  pub read_limit : J → Outcome String ℤ
  pub read_skip : J → Outcome String ℤ
  pub read_group_by : J → Outcome String (List String)
  pub read_aggregate : J → Outcome String (AggregateConfig F)

-- The lower case letters, by their codes, with the upper case ones.
abbrev upper_letters : List (ℕ × Char)
upper_letters =
    (97, "A")
    ∷ (98, "B")
    ∷ (99, "C")
    ∷ (100, "D")
    ∷ (101, "E")
    ∷ (102, "F")
    ∷ (103, "G")
    ∷ (104, "H")
    ∷ (105, "I")
    ∷ (106, "J")
    ∷ (107, "K")
    ∷ (108, "L")
    ∷ (109, "M")
    ∷ (110, "N")
    ∷ (111, "O")
    ∷ (112, "P")
    ∷ (113, "Q")
    ∷ (114, "R")
    ∷ (115, "S")
    ∷ (116, "T")
    ∷ (117, "U")
    ∷ (118, "V")
    ∷ (119, "W")
    ∷ (120, "X")
    ∷ (121, "Y")
    ∷ (122, "Z")
    ∷ []

abbrev upper_char : List (ℕ × Char) → Char → Char
upper_char [] c = c
upper_char ((n, u) ∷ rest) c = let later = upper_char rest c in if code c == n then u else later

-- `upper`: ASCII letters only.
unfoldable pub upper : String → String
upper String.[] = ""
upper (String.◌∷◌ c s) = String.◌∷◌ (upper_char upper_letters c) (upper s)

module _ {F : Type 0} where
  -- `mergeAnd`.
  unfoldable pub merge_and :
      Option (WhereClause F) → Option (WhereClause F) → Option (WhereClause F)
  merge_and none b = b
  merge_and (some a) none = some a
  merge_and (some a) (some b) = some (and_clause (more a (more b done)))

  unfoldable pub all_aggregates_pushable : List (AggregateClause F) → Bool
  unfolding is_pushable upper
  all_aggregates_pushable aggs = all (λ a. is_pushable (record a { fn = upper a.fn })) aggs

  unfoldable pub normalize_fns : List (AggregateClause F) → List (AggregateClause F)
  unfolding upper
  normalize_fns aggs = map (λ (a : AggregateClause F). record a { fn = upper a.fn }) aggs

module _ (F : Type 0) where
  -- The variables of the loop: the query so far, the names of the folded stages, and the flags.
  pub record Prefix : Type 0 where
    pub query : Query F
    pub folded : List String
    pub have_sort : Bool
    pub have_limit : Bool
    pub have_skip : Bool
    pub have_select : Bool

  -- What the loop does at a stage: an error; `breakAt = i`; the next round; `breakAt = i + 1`;
  -- `breakAt = i + 2`.
  pub data Move : Type 0 where
    refuse : PipeError → Move
    barrier : Move
    fold fold_last fold_pair : Prefix → Move

-- A configuration that is read, or the error of reading it at stage `i`.
abbrev pub reading : {A F : Type 0} → ℕ → String → Outcome String A → (A → Move F) → Move F
reading i op (ok cfg) next = next cfg
reading i op (err e) next = refuse (at_stage i op (bad_config e))

module _ {J F : Type 0} (codec : Codec J F) where
  open codec use {
    read_filter, read_project, read_sort, read_limit, read_skip, read_group_by, read_aggregate,
  }

  abbrev pub filter_move : ℕ → J → Prefix F → Move F
  filter_move i cfg p =
      if p.have_sort || (p.have_limit || p.have_skip)
      then barrier
      else reading i "filter" (read_filter cfg) (λ w.
        if has_expr_where w
        then barrier
        else fold (record p {
          query = record p.query { filter = merge_and p.query.filter w };
          folded = p.folded ++ "filter" ∷ [];
        }))

  abbrev pub project_move : ℕ → J → Prefix F → Move F
  project_move i cfg p =
      if p.have_select || (p.have_limit || p.have_skip)
      then barrier
      else reading i "project" (read_project cfg) (λ c.
        if not (is_nil c.drop) || is_nil c.select
        then barrier
        else fold (record p {
          query = record p.query { select = p.query.select ++ c.select };
          folded = p.folded ++ "project" ∷ [];
          have_select = true;
        }))

  abbrev pub sort_move : ℕ → J → Prefix F → Move F
  sort_move i cfg p =
      if p.have_limit || p.have_skip
      then barrier
      else reading i "sort" (read_sort cfg) (λ by.
        if any (λ o. str_eq o.field "") by
        then barrier
        else fold (record p {
          query = record p.query { order_by = p.query.order_by ++ by };
          folded = p.folded ++ "sort" ∷ [];
          have_sort = true;
        }))

  abbrev pub limit_move : ℕ → J → Prefix F → Move F
  limit_move i cfg p = reading i "limit" (read_limit cfg) (λ n. fold (record p {
    query = record p.query { limit = some n };
    folded = p.folded ++ "limit" ∷ [];
    have_limit = true;
  }))

  abbrev pub skip_move : ℕ → J → Prefix F → Move F
  skip_move i cfg p =
      if p.have_limit
      then barrier
      else reading i "skip" (read_skip cfg) (λ n. fold (record p {
        query = record p.query { offset = some n };
        folded = p.folded ++ "skip" ∷ [];
        have_skip = true;
      }))

  -- A grouping is folded with the aggregation right behind it.
  abbrev pub group_move : ℕ → J → Option (Stage J) → Prefix F → Move F
  group_move i cfg none p = barrier
  group_move i cfg (some next) p =
      if not (str_eq next.op "aggregate")
      then barrier
      else reading i "groupBy" (read_group_by cfg) (λ keys.
        reading (suc i) "aggregate" (read_aggregate next.config) (λ a.
          if not (all_aggregates_pushable a.aggs)
          then barrier
          else fold_pair (record p {
            query = record p.query { group_by = keys; aggregate = normalize_fns a.aggs };
            folded = p.folded ++ "groupBy" ∷ "aggregate" ∷ [];
          })))

  abbrev pub aggregate_move : ℕ → J → Prefix F → Move F
  aggregate_move i cfg p = reading i "aggregate" (read_aggregate cfg) (λ a.
      if not (all_aggregates_pushable a.aggs)
      then barrier
      else fold_last (record p {
        query = record p.query { aggregate = normalize_fns a.aggs };
        folded = p.folded ++ "aggregate" ∷ [];
      }))

  -- The `switch` on the stage's op.
  unfoldable pub op_move : ℕ → Stage J → Option (Stage J) → Prefix F → Move F
  unfolding merge_and all_aggregates_pushable normalize_fns
  op_move i s next p =
      if str_eq s.op "filter"
      then filter_move i s.config p
      else if str_eq s.op "project"
      then project_move i s.config p
      else if str_eq s.op "sort"
      then sort_move i s.config p
      else if str_eq s.op "limit"
      then limit_move i s.config p
      else if str_eq s.op "skip"
      then skip_move i s.config p
      else if str_eq s.op "groupBy"
      then group_move i s.config next p
      else if str_eq s.op "aggregate"
      then aggregate_move i s.config p
      else barrier
