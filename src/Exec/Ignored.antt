-- ===== src/Exec/Ignored.antt =====
-- A condition on a computed column, through the planner (planner/planner.go), the processor
-- (processor/processor.go) and the classic engine (exec/engine.go).
use dql.Prelude.{
  ℕ, String, true, false, not, ◌&&◌, ◌≡◌, refl, ap, List, map, keep, Option, none, some, Outcome,
  ok, err, ◌>>=◌, map_err, Bool-cases, Outcome-cases, inl, inr, contains, str_eq,
}
use dql.Go.Runtime.{Runtime}
use dql.Go.Value.{Value}
use dql.Go.Row.{Row}
use dql.Dsl.Where.{WhereClause, simple_clause}
use dql.Dsl.Tree.{Evaluator, has_expr, has_expr_where}
use dql.Dsl.Query.{Query, QueryPlan, DatasetInfo, is_raw}
use dql.Planner.Where.{split_where, references_version_column}
use dql.Planner.Joins.{Resolver, resolve_dataset, plan_joins}
use dql.Planner.Plan.{split_maybe, version_filter, assemble, plan_query}
use dql.Processor.Process.{where_step, process}
use dql.Sqlgen.Emit.{Sql}
use dql.Exec.Scan.{ScanError, Querier, Decoder, execute_sql}
use dql.Exec.Config.{Engine, apply_defaults}
use dql.Exec.Classic.{
  ExecError, in_generate, Expansion, prepare, plan_statement, finish, finish_scan, run_statement,
  execute_classic,
}

-- The query with a simple condition on a name as its WHERE clause.
abbrev pub asking : {F : Type 0} → String → Query F → String → Value F → Query F
asking name q op v = record q { filter = some (simple_clause name op v) }

module _ {F : Type 0} (computed : List String) (name : String) where
  split_computed :
      (raw : List String) (op : String) (v : Value F)
      → str_eq name "" ≡ false
      → str_eq op "" ≡ false
      → contains computed name ≡ true
      → split_where raw computed (simple_clause name op v) ≡ (none, true)
  unfolding split_where
  split_computed raw op v n o c = rw (n, o, c)

  -- Neither the operator nor the value of the condition is seen by the planner.
  same_split :
      (info : DatasetInfo) (raw : List String) (op op' : String) (v v' : Value F)
      → str_eq name "" ≡ false
      → str_eq op "" ≡ false
      → str_eq op' "" ≡ false
      → contains computed name ≡ true
      → split_maybe raw computed (version_filter info raw (some (simple_clause name op v)))
        ≡ split_maybe raw computed (version_filter info raw (some (simple_clause name op' v')))
  unfolding split_maybe version_filter split_where references_version_column
  same_split info raw op op' v v' n o o' c =
      elim (Bool-cases (
        info.versioned
        && (contains raw "_is_current"
            && not (references_version_column (simple_clause name op v))))) [
              | inl b ↦ rw (b, n, o, o', c)
              | inr b ↦ rw (b, n, o, o', c)
            ]

module _ {F : Type 0} (name : String) where
  no_expression :
      (info : DatasetInfo) (raw : List String) (op : String) (v : Value F)
      → has_expr_where (version_filter info raw (some (simple_clause name op v))) ≡ false
  unfolding version_filter has_expr references_version_column
  no_expression info raw op v =
      elim (Bool-cases (
        info.versioned
        && (contains raw "_is_current"
            && not (references_version_column (simple_clause name op v))))) [
              | inl b ↦ rw b refl
              | inr b ↦ rw b refl
            ]

module _ (go : Runtime) (eval : Option (Evaluator go.Float)) where
  open go use {Float}

  same_process :
      (plan : QueryPlan Float) (q : Query Float) (f g : Option (WhereClause Float))
      (rows : List (Row Float))
      → has_expr_where f ≡ false
      → has_expr_where g ≡ false
      → process go eval plan (record q { filter = f }) rows
        ≡ process go eval plan (record q { filter = g }) rows
  unfolding process where_step
  same_process plan q f g rows hf hg = rw (hf, hg) refl

module _ (go : Runtime) {T W : Type 0} (decoder : Decoder go.Float T) (db : Querier go.Float T W)
    (schema : String → String → Resolver) (eval : Option (Evaluator go.Float))
    (engine : Engine go.Float) (expansion : Expansion go.Float) where
  open go use {Float}

  module _ (plan : QueryPlan Float) (q : Query Float) (f g : Option (WhereClause Float))
      (hf : has_expr_where f ≡ false) (hg : has_expr_where g ≡ false) where
    same_finish :
        (scanned : ℕ) (rows : List (Row Float))
        → finish go decoder db schema eval engine expansion plan
            (record q { filter = f })
            scanned
            rows
          ≡ finish go decoder db schema eval engine expansion plan
              (record q { filter = g })
              scanned
              rows
    unfolding finish
    same_finish scanned rows = rw (same_process go eval plan q f g rows hf hg) refl

    same_scan :
        (r : (Outcome ScanError (List (Row Float)) × ℕ) × W)
        → finish_scan go decoder db schema eval engine expansion plan (record q { filter = f }) r
          ≡ finish_scan go decoder db schema eval engine expansion plan (record q { filter = g }) r
    same_scan ((err e, scanned), w) = refl
    same_scan ((ok rows, scanned), w) = ap (λ x. (x, w)) (same_finish scanned rows)

    abbrev stated :
        Option (WhereClause Float)
        → Outcome String (Sql × List (Value Float))
        → Outcome ExecError ((QueryPlan Float × Query Float) × (Sql × List (Value Float)))
    stated h sql = map_err in_generate sql >>= λ s. ok ((plan, record q { filter = h }), s)

    same_statement :
        (sql : Outcome String (Sql × List (Value Float))) (w : W)
        → run_statement go decoder db schema eval engine expansion (stated f sql) w
          ≡ run_statement go decoder db schema eval engine expansion (stated g sql) w
    same_statement (err e) w = refl
    same_statement (ok (sql, params)) w = same_scan (execute_sql decoder db sql params w)

  module _ (name : String) where
    same_plan :
        (q : Query Float) (op op' : String) (v v' : Value Float) (workspace project : String)
        (w : W)
        → str_eq name "" ≡ false
        → str_eq op "" ≡ false
        → str_eq op' "" ≡ false
        → contains (map (λ c. c.name) q.computed) name ≡ true
        → run_statement go decoder db schema eval engine expansion
            (plan_statement go decoder db schema eval engine (asking name q op v) workspace project)
            w
          ≡ run_statement go decoder db schema eval engine expansion
              (plan_statement go decoder db schema eval engine
                (asking name q op' v')
                workspace
                project)
              w
    unfolding plan_statement plan_query assemble
    same_plan q op op' v v' workspace project w n o o' c =
        let resolve = schema workspace q.project_id in
        elim (Outcome-cases (map_err (resolve_dataset q.dataset) (resolve q.dataset))) [
          | inr e ↦ rw e.1 refl
          | inl (info, e) ↦
              let raw = map (λ c. c.name) (keep is_raw info.columns) in
              elim (Outcome-cases (plan_joins resolve engine.plan_scope q.joins raw)) [
                | inr k ↦ rw (e, k.1) refl
                | inl (joined, k) ↦
                    rw
                      (
                        e,
                        k,
                        same_split (map (λ c. c.name) q.computed) name info raw op op' v v' n o o'
                            c,
                      )
                      (same_statement _ q _ _ (no_expression name info raw op v)
                        (no_expression name info raw op' v') _ w)
              ]
        ]

    -- Where the WHERE clause of a classic query is a simple condition on a column that the query
    -- computes, with a column and an operator that are not empty, a run of the engine does not depend
    -- on the operator or on the value: any other operator that is not empty and any other value give
    -- the same rows or the same error, and leave the world the same, for every schema, configuration,
    -- database and expansion.
    pub execute_classic-ignored :
        (q : Query Float) (op op' : String) (v v' : Value Float) (workspace project : String)
        (w : W)
        → str_eq name "" ≡ false
        → str_eq op "" ≡ false
        → str_eq op' "" ≡ false
        → contains (map (λ c. c.name) q.computed) name ≡ true
        → execute_classic go decoder db schema eval engine expansion
            (asking name q op v)
            workspace
            project
            w
          ≡ execute_classic go decoder db schema eval engine expansion
              (asking name q op' v')
              workspace
              project
              w
    unfolding execute_classic prepare apply_defaults dql.Parser.Normalize.normalize_aggregate_fns
        dql.Parser.Normalize.normalize_order_dir
    execute_classic-ignored q op op' v v' workspace project w n o o' c =
        same_plan (prepare go decoder db schema eval engine q) op op' v v' workspace project w n o
          o' c
