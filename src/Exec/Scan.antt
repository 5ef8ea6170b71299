-- ===== src/Exec/Scan.antt =====
-- The reading of what a database answers: exec/querier.go, and `executeSQL`, `scanRow` and
-- `convertValue` of exec/engine.go. The database, the JSON decoder and the format of a time are
-- parameters.
use dql.Prelude.{ℕ, suc, String, List, [], ◌∷◌, ◌++◌, Option, none, some, Outcome, ok, err}
use dql.Go.Value.{Value, nil, str}
use dql.Go.Row.{Row, put}
use dql.Sqlgen.Emit.{Sql}

-- What a driver puts into an `any`.
pub data SqlValue (F T : Type 0) : Type 0 where
  null : SqlValue F T
  bytes : String → SqlValue F T
  time : T → SqlValue F T
  other : Value F → SqlValue F T

-- `SQLRows`: the names of the columns, what `Scan` gives for each row that `Next` moves to, and what
-- `Err` reports at the end.
pub record SqlRows (F T : Type 0) : Type 0 where
  pub columns : Outcome String (List String)
  pub fetched : List (Outcome String (List (SqlValue F T)))
  pub end_error : Option String

-- `SQLQuerier.Query`, in a world.
abbrev pub Querier : Type 0 → Type 0 → Type 0 → Type 0
Querier F T W = Sql → List (Value F) → W → Outcome String (SqlRows F T) × W

pub data ScanError : Type 0 where
  query get_columns scan_row iterate_rows : String → ScanError

-- `json.Unmarshal` into an `any`, none where it fails, and `Format(time.RFC3339)`.
pub record Decoder (F T : Type 0) : Type 0 where
  pub unmarshal : String → Option (Value F)
  pub format_time : T → String

module _ {F T : Type 0} (decoder : Decoder F T) where
  -- `convertValue`.
  unfoldable pub convert_value : SqlValue F T → Value F
  convert_value null = nil
  convert_value (bytes s) = elim (decoder.unmarshal s) [ none ↦ str s | some v ↦ v ]
  convert_value (time t) = str (decoder.format_time t)
  convert_value (other v) = v

  -- The loop that fills a row; a value that was not scanned is nil.
  unfoldable pub fill_columns : List String → List (SqlValue F T) → Row F → Row F
  unfolding put convert_value
  fill_columns [] vs row = row
  fill_columns (c ∷ cs) [] row = fill_columns cs [] (put row c nil)
  fill_columns (c ∷ cs) (v ∷ vs) row = fill_columns cs vs (put row c (convert_value v))

  -- `scanRow`, on what `Scan` gives.
  unfoldable pub scan_values :
      List String → Outcome String (List (SqlValue F T)) → Outcome ScanError (Row F)
  unfolding fill_columns
  scan_values cols (ok vs) = ok (fill_columns cols vs [])
  scan_values cols (err e) = err (scan_row e)

  -- The loop of `executeSQL`: the rows so far and the count of those scanned.
  unfoldable pub scan_loop :
      List String
      → List (Outcome String (List (SqlValue F T)))
      → List (Row F)
      → ℕ
      → Outcome ScanError (List (Row F)) × ℕ
  unfolding scan_values
  scan_loop cols [] rows scanned = (ok rows, scanned)
  scan_loop cols (f ∷ fs) rows scanned = elim (scan_values cols f) [
    | err e ↦ (err e, suc scanned)
    | ok row ↦ scan_loop cols fs (rows ++ row ∷ []) (suc scanned)
  ]

  -- What follows the loop.
  abbrev pub finish_rows :
      Option String → Outcome ScanError (List (Row F)) × ℕ → Outcome ScanError (List (Row F)) × ℕ
  finish_rows none r = r
  finish_rows (some e) (ok rows, scanned) = (err (iterate_rows e), scanned)
  finish_rows (some e) (err e', scanned) = (err e', scanned)

  -- `executeSQL` behind a call of `Query` that succeeded.
  unfoldable pub read_rows : SqlRows F T → Outcome ScanError (List (Row F)) × ℕ
  unfolding scan_loop
  read_rows r = elim r.columns [
    | err e ↦ (err (get_columns e), 0)
    | ok cols ↦ finish_rows r.end_error (scan_loop cols r.fetched [] 0)
  ]

  abbrev pub answered :
      {W : Type 0} → Outcome String (SqlRows F T) × W → (Outcome ScanError (List (Row F)) × ℕ) × W
  answered (err e, w) = ((err (query e), 0), w)
  answered (ok r, w) = (read_rows r, w)

  -- `executeSQL`: the rows or an error, the count of rows scanned, and the world.
  unfoldable pub execute_sql :
      {W : Type 0}
      → Querier F T W
      → Sql
      → List (Value F)
      → W
      → (Outcome ScanError (List (Row F)) × ℕ) × W
  unfolding read_rows
  execute_sql db sql params w = answered (db sql params w)
