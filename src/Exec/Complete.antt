-- ===== src/Exec/Complete.antt =====
-- Whether the drain of a cursor (exec/stream.go, pipe/source.go) knows that it has read every row.
use dql.Prelude.{
  ℕ, suc, ◌+◌, String, Bool, not, ◌&&◌, ◌||◌, ◌≡◌, refl, sym, ◌∙◌, ap, subst, List, [], Option,
  none, ok, arith, length, length-map, take, ltb,
}
use dql.Go.Runtime.{Runtime}
use dql.Go.Row.{Row}
use dql.Dsl.Tree.{Evaluator}
use dql.Dsl.Query.{ColumnInfo}
use dql.Planner.Joins.{Resolver}
use dql.Exec.Config.{Engine}
use dql.Exec.Scan.{SqlValue, Decoder, Querier}
use dql.Exec.Cursor.{RowSource, drain_rows, drain_fuel}
use dql.Exec.Stream.{Streamed, drain_prefix, streamed_of, finish_drain}
use dql.Exec.Drained.{bound, source_at, rows_of, Drained, drain_lem}

module _ (go : Runtime) {T W : Type 0} (decoder : Decoder go.Float T) (db : Querier go.Float T W)
    (schema : String → String → Resolver) (eval : Option (Evaluator go.Float))
    (engine : Engine go.Float) where
  open go use {Float}

  finish_drain-ok :
      (table : String) (columns : List ColumnInfo)
      (d : (List (Row Float) × Bool) × RowSource Float T)
      → d.1.failed ≡ none
      → d.1.end_error ≡ none
      → finish_drain go decoder db schema eval engine table columns d
        ≡ ok (streamed_of go decoder db schema eval engine table columns d)
  finish_drain-ok table columns d f e = rw (f, e) refl

  whole : (a t c : Bool) → (a || t) ≡ c → (not a && not t) ≡ not c
  whole a t c h = ground arith

  part : (a t c : Bool) → (a || t) ≡ c → (t || not (not a && not t)) ≡ c
  part a t c h = ground arith

  -- The drain of a cursor over rows that the driver can scan, with no error at their end, succeeds
  -- and its signal is exact: it gives the rows in order, up to the smaller of the limit (if there is
  -- one) and the executor's cap, and calls them complete, and not truncated, exactly when the
  -- database had no more to give. So a page that is just full is told apart from one that was cut.
  pub drain_prefix-exact :
      (cols : List String) (limit max_rows : ℕ) (table : String) (columns : List ColumnInfo)
      (values : List (List (SqlValue Float T)))
      → (streamed : Streamed Float) × (drain_prefix go decoder db schema eval engine max_rows
            (source_at decoder cols limit table none 0 values, columns)
          ≡ ok streamed)
        × (streamed.rows ≡ take (bound limit max_rows) (rows_of decoder cols values))
        × (streamed.complete ≡ not (ltb (bound limit max_rows) (length values)))
        × (streamed.truncated ≡ ltb (bound limit max_rows) (length values))
  unfolding drain_prefix
  drain_prefix-exact cols limit max_rows table columns values =
      let s = source_at decoder cols limit table none 0 values in
      let d = drain_rows decoder (drain_fuel decoder s) max_rows [] s in
      let run : ℕ → (List (Row Float) × Bool) × RowSource Float T =
        λ k. drain_rows decoder (suc k) max_rows [] s in
      let b = bound limit max_rows in
      let (rows, cut, failed, end) =
        subst
          (λ k. Drained decoder none b (rows_of decoder cols values) (0 + length values) (run k))
          (sym (length-map ok values))
          (drain_lem decoder cols limit max_rows table none values [] (omega arith)) in
      let more : (d.0.1 || d.1.truncated) ≡ ltb b (length values) =
        cut ∙ ap (ltb b) (omega arith) in
      (
        streamed_of go decoder db schema eval engine table columns d,
        finish_drain-ok table columns d failed end,
        rows,
        whole d.0.1 d.1.truncated _ more,
        part d.0.1 d.1.truncated _ more,
      )
