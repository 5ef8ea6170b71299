-- ===== src/Exec/Cursor.antt =====
-- The cursor over a query's rows: `sqlRowSource` of exec/stream.go, and the loop of `streamPrefix`
-- of pipe/source.go that drains it. `Close` is left out.
use dql.Prelude.{
  ℕ, zero, suc, String, Bool, true, false, ◌&&◌, List, [], ◌∷◌, ◌++◌, Option, none, some, Outcome,
  ok, err, length, leb, ltb, if◌then◌else◌,
}
use dql.Go.Row.{Row}
use dql.Exec.Scan.{SqlValue, ScanError, Decoder, scan_values}

-- `sqlRowSource`: what the database has yet to give, the columns, the limit (0 is none), and how far
-- it has come.
pub record RowSource (F T : Type 0) : Type 0 where
  pub rest : List (Outcome String (List (SqlValue F T)))
  pub end_error : Option String
  pub cols : List String
  pub limit : ℕ
  pub table : String
  pub count : ℕ
  pub failed : Option ScanError
  pub truncated : Bool

module _ {F T : Type 0} (decoder : Decoder F T) where
  abbrev pub is_failed : Option ScanError → Bool
  is_failed none = false
  is_failed (some e) = true

  -- What `Next` does with what was scanned: the row, none where there is none, and the cursor.
  abbrev pub scanned_next :
      Outcome ScanError (Row F) → RowSource F T → Option (Row F) × RowSource F T
  scanned_next (err e) s = (none, record s { failed = some e })
  scanned_next (ok row) s = (some row, record s { count = suc s.count })

  -- The end of `Next`: the database's next row is read.
  abbrev pub read_next :
      List (Outcome String (List (SqlValue F T))) → RowSource F T → Option (Row F) × RowSource F T
  read_next [] s = (none, s)
  read_next (f ∷ fs) s = scanned_next (scan_values decoder s.cols f) (record s { rest = fs })

  -- The look at one row past the limit, which is consumed.
  abbrev pub probe : List (Outcome String (List (SqlValue F T))) → RowSource F T → RowSource F T
  probe [] s = s
  probe (f ∷ fs) s = record s { rest = fs; truncated = true }

  -- `Next`, on a source that is not closed.
  unfoldable pub next : RowSource F T → Option (Row F) × RowSource F T
  unfolding scan_values
  next s =
      if is_failed s.failed
      then (none, s)
      else if ltb 0 s.limit && leb s.limit s.count
      then (none, probe s.rest s)
      else read_next s.rest s

  -- `Err`.
  abbrev pub cursor_error : RowSource F T → Option ScanError
  cursor_error s = elim s.failed [
    | some e ↦ some e
    | none ↦ elim s.end_error [ none ↦ none | some e ↦ some (ScanError.iterate_rows e) ]
  ]

  -- The body of the loop of `streamPrefix`, after a call of `Next`; `more` is the loop itself.
  abbrev pub drain_next :
      ℕ
      → List (Row F)
      → Option (Row F) × RowSource F T
      → (List (Row F) → RowSource F T → (List (Row F) × Bool) × RowSource F T)
      → (List (Row F) × Bool) × RowSource F T
  drain_next max_rows rows (none, s) more = ((rows, false), s)
  drain_next max_rows rows (some row, s) more =
      if leb max_rows (length rows) then ((rows, true), s) else more (rows ++ row ∷ []) s

  -- The loop of `streamPrefix`: the rows, whether the executor's cap stopped it, and the cursor. The
  -- fuel bounds the calls of `Next`.
  unfoldable pub drain_rows :
      ℕ → ℕ → List (Row F) → RowSource F T → (List (Row F) × Bool) × RowSource F T
  unfolding next
  drain_rows zero max_rows rows s = ((rows, false), s)
  drain_rows (suc fuel) max_rows rows s =
      drain_next max_rows rows (next s) (drain_rows fuel max_rows)

  -- Each call of `Next` takes what the database gives, and one more ends the loop.
  abbrev pub drain_fuel : RowSource F T → ℕ
  drain_fuel s = suc (length s.rest)
