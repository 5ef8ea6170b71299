-- ===== src/Exec/Trace.antt =====
-- What the engine's classic path went through where it returns a result (exec/engine.go).
use dql.Prelude.{
  ℕ, String, ◌≡◌, refl, sym, ◌∙◌, ap, List, Option, Outcome, ok, err, map_err, bind_ok, ok_inj,
  arith,
}
use dql.Go.Runtime.{Runtime}
use dql.Go.Value.{Value}
use dql.Go.Row.{Row}
use dql.Dsl.Tree.{Evaluator}
use dql.Dsl.Query.{Query, QueryPlan}
use dql.Planner.Joins.{Resolver}
use dql.Planner.Plan.{plan_query}
use dql.Processor.Process.{QueryResult, process}
use dql.Processor.Sizes.{map_err_ok}
use dql.Sqlgen.Emit.{Sql}
use dql.Sqlgen.Generate.{generate_sql}
use dql.Exec.Scan.{SqlRows, ScanError, Querier, Decoder, answered, read_rows, execute_sql}
use dql.Exec.Config.{Engine}
use dql.Exec.Classic.{
  ExecError, EngineResult, Expansion, expand_rows, with_pages, with_stats, prepare, plan_statement,
  finish, finish_scan, run_statement, execute_classic, in_plan, in_generate, in_process, in_expand,
}

module _ (go : Runtime) {T W : Type 0} (decoder : Decoder go.Float T) (db : Querier go.Float T W)
    (schema : String → String → Resolver) (eval : Option (Evaluator go.Float))
    (engine : Engine go.Float) where
  open go use {Float}

  pub record Trace (expansion : Expansion Float) (q : Query Float) (workspace project : String)
      (w w' : W) (r : EngineResult Float) : Type 0 where
    pub plan : QueryPlan Float
    pub left : Query Float
    pub sql : Sql
    pub params : List (Value Float)
    pub answer : SqlRows Float T
    pub rows : List (Row Float)
    pub scanned : ℕ
    pub result : QueryResult Float
    pub expanded : List (Row Float)
    pub planned :
        plan_query
          (schema workspace (prepare go decoder db schema eval engine q).project_id)
          engine.plan_scope
          (prepare go decoder db schema eval engine q)
        ≡ ok (plan, left)
    pub stated : generate_sql go plan (engine.scope_for workspace project) ≡ ok (sql, params)
    pub asked : db sql params w ≡ (ok answer, w')
    pub read : read_rows decoder answer ≡ (ok rows, scanned)
    pub processed : process go eval plan left rows ≡ ok result
    pub enriched : expand_rows expansion plan.dataset result.rows ≡ ok expanded
    pub returned :
        with_pages left.limit left.offset
          (with_stats plan scanned result.total result.columns expanded)
        ≡ r

  answered_ok :
      (a : Outcome String (SqlRows Float T) × W) (w' : W) (rows : List (Row Float)) (scanned : ℕ)
      → answered decoder a ≡ ((ok rows, scanned), w')
      → (r : SqlRows Float T) × (a ≡ (ok r, w')) × (read_rows decoder r ≡ (ok rows, scanned))
  answered_ok (err e, w) w' rows scanned h = absurd (ground arith)
  answered_ok (ok r, w) w' rows scanned h =
      (r, ap (λ x. (ok r, x)) (ap (λ x. x.1) h), ap (λ x. x.0) h)

  finish_scan_ok :
      (expansion : Expansion Float) (plan : QueryPlan Float) (q : Query Float)
      (a : (Outcome ScanError (List (Row Float)) × ℕ) × W) (w' : W) (r : EngineResult Float)
      → finish_scan go decoder db schema eval engine expansion plan q a ≡ (ok r, w')
      → (rows : List (Row Float)) × (scanned : ℕ) × (a ≡ ((ok rows, scanned), w'))
        × (finish go decoder db schema eval engine expansion plan q scanned rows ≡ ok r)
  finish_scan_ok expansion plan q ((err e, n), w) w' r h = absurd (ground arith)
  finish_scan_ok expansion plan q ((ok rows, n), w) w' r h =
      (rows, n, ap (λ x. ((ok rows, n), x)) (ap (λ x. x.1) h), ap (λ x. x.0) h)

  run_statement_ok :
      (expansion : Expansion Float)
      (s : Outcome ExecError ((QueryPlan Float × Query Float) × (Sql × List (Value Float))))
      (w w' : W) (r : EngineResult Float)
      → run_statement go decoder db schema eval engine expansion s w ≡ (ok r, w')
      → (plan : QueryPlan Float) × (left : Query Float) × (sql : Sql) × (params : List
          (Value Float))
        × (s ≡ ok ((plan, left), (sql, params)))
        × (finish_scan go decoder db schema eval engine expansion plan left
              (execute_sql decoder db sql params w)
            ≡ (ok r, w'))
  run_statement_ok expansion (err e) w w' r h = absurd (ground arith)
  run_statement_ok expansion (ok ((plan, left), (sql, params))) w w' r h =
      (plan, left, sql, params, refl, h)

  plan_statement_ok :
      (q : Query Float) (workspace project : String) (plan : QueryPlan Float) (left : Query Float)
      (sql : Sql) (params : List (Value Float))
      → plan_statement go decoder db schema eval engine q workspace project
        ≡ ok ((plan, left), (sql, params))
      → (plan_query (schema workspace q.project_id) engine.plan_scope q ≡ ok (plan, left))
        × (generate_sql go plan (engine.scope_for workspace project) ≡ ok (sql, params))
  unfolding plan_statement
  plan_statement_ok q workspace project plan left sql params h =
      let made : Outcome ExecError (QueryPlan Float × Query Float) =
        map_err in_plan (plan_query (schema workspace q.project_id) engine.plan_scope q) in
      let (planned, e2, h2) = bind_ok made _ ((plan, left), (sql, params)) h in
      let written : Outcome ExecError (Sql × List (Value Float)) =
        map_err in_generate (generate_sql go planned.0 (engine.scope_for workspace project)) in
      let (statement, e3, h3) = bind_ok written _ ((plan, left), (sql, params)) h2 in
      let same = ok_inj (planned, statement) ((plan, left), (sql, params)) h3 in
      let e4 : planned ≡ (plan, left) = ap (λ x. x.0) same in
      let e5 : statement ≡ (sql, params) = ap (λ x. x.1) same in
      (
        map_err_ok in_plan (plan_query (schema workspace q.project_id) engine.plan_scope q)
            (plan, left) (e2 ∙ ap ok e4),
        ap (λ x. generate_sql go x.0 (engine.scope_for workspace project)) (sym e4)
            ∙ map_err_ok in_generate _ (sql, params) (e3 ∙ ap ok e5),
      )

  finish_ok :
      (expansion : Expansion Float) (plan : QueryPlan Float) (q : Query Float) (scanned : ℕ)
      (rows : List (Row Float)) (r : EngineResult Float)
      → finish go decoder db schema eval engine expansion plan q scanned rows ≡ ok r
      → (result : QueryResult Float) × (expanded : List (Row Float)) × (process go eval plan q rows
          ≡ ok result)
        × (expand_rows expansion plan.dataset result.rows ≡ ok expanded)
        × (with_pages q.limit q.offset
              (with_stats plan scanned result.total result.columns expanded)
            ≡ r)
  unfolding finish
  finish_ok expansion plan q scanned rows r h =
      let done : Outcome ExecError (QueryResult Float) =
        map_err in_process (process go eval plan q rows) in
      let (result, e1, h1) = bind_ok done _ r h in
      let enriched : Outcome ExecError (List (Row Float)) =
        map_err in_expand (expand_rows expansion plan.dataset result.rows) in
      let (expanded, e2, h2) = bind_ok enriched _ r h1 in
      (
        result,
        expanded,
        map_err_ok in_process (process go eval plan q rows) result e1,
        map_err_ok in_expand _ expanded e2,
        ok_inj _ r h2,
      )

  pub execute_classic-Trace :
      (expansion : Expansion Float) (q : Query Float) (workspace project : String) (w w' : W)
      (r : EngineResult Float)
      → execute_classic go decoder db schema eval engine expansion q workspace project w
        ≡ (ok r, w')
      → Trace expansion q workspace project w w' r
  unfolding execute_classic execute_sql
  execute_classic-Trace expansion q workspace project w w' r h =
      let p = prepare go decoder db schema eval engine q in
      let (plan, left, sql, params, e1, h1) =
        run_statement_ok expansion
          (plan_statement go decoder db schema eval engine p workspace project) w w' r h in
      let (e2, e3) = plan_statement_ok p workspace project plan left sql params e1 in
      let (rows, scanned, e4, h2) =
        finish_scan_ok expansion plan left (execute_sql decoder db sql params w) w' r h1 in
      let (answer, e5, e6) = answered_ok (db sql params w) w' rows scanned e4 in
      let (result, expanded, e7, e8, e9) = finish_ok expansion plan left scanned rows r h2 in
      record {
        plan = plan;
        left = left;
        sql = sql;
        params = params;
        answer = answer;
        rows = rows;
        scanned = scanned;
        result = result;
        expanded = expanded;
        planned = e2;
        stated = e3;
        asked = e5;
        read = e6;
        processed = e7;
        enriched = e8;
        returned = e9;
      }
