-- ===== src/Exec/Bounds.antt =====
-- How many rows the engine's classic path returns (exec/engine.go).
use dql.Prelude.{
  ℕ, zero, suc, ◌≤◌, ◌+◌, String, false, ◌≡◌, refl, sym, ◌∙◌, ap, List, [], ◌∷◌, ◌++◌, Option, none,
  some, Outcome, ok, err, ok_inj, arith, length, length-append, Bool-cases, Option-cases,
  Outcome-cases, inl, inr, if◌then◌else◌,
}
use dql.Prelude.Int.{ℤ, pos, negsuc, pos_part, ltb_ℤ}
use dql.Go.Value.{Value, num, int}
use dql.Go.Row.{Row}
use dql.Dsl.Query.{DatasetInfo}
use dql.Sqlgen.Emit.{Sql}
use dql.Sqlgen.Bound.{Binds}
use dql.Parser.Validate.{is_negative}
use dql.Exec.Scan.{
  SqlValue, SqlRows, Querier, ScanError, Decoder, scan_values, scan_loop, finish_rows, read_rows,
}
use dql.Exec.Config.{EngineConfig, Engine, engine_of, unless_positive, new_engine, effective_limit}
use dql.Exec.Classic.{Expansion, expand_rows}

-- A scan that ends without an error has a row for each that was fetched.
module _ {F T : Type 0} (decoder : Decoder F T) where
  scan_loop-length :
      (cols : List String) (fs : List (Outcome String (List (SqlValue F T))))
      (rows out : List (Row F)) (m n : ℕ)
      → scan_loop decoder cols fs rows m ≡ (ok out, n)
      → length out ≡ length rows + length fs
  unfolding scan_loop
  scan_loop-length cols [] rows out m n h =
      let same = ap length (ok_inj rows out (ap (λ r. r.0) h)) in omega (arith, same)
  scan_loop-length cols (f ∷ fs) rows out m n h =
      elim (Outcome-cases (scan_values decoder cols f)) [
        | inl (row, e) ↦
            let next =
              scan_loop-length cols fs (rows ++ row ∷ []) out (suc m) n (rw (e, scan_loop) at h) in
            omega (arith, next, length-append rows (row ∷ []))
        | inr (x, e) ↦ let bad = rw (e, scan_loop) at h in absurd (ground arith)
      ]

  pub read_rows-length :
      (r : SqlRows F T) (out : List (Row F)) (n : ℕ)
      → read_rows decoder r ≡ (ok out, n)
      → length out ≡ length r.fetched
  unfolding read_rows
  read_rows-length r out n h = elim (Outcome-cases r.columns) [
    | inl (cols, e) ↦
        finished cols r.end_error (scan_loop decoder cols r.fetched [] 0) refl (rw e at h)
    | inr (x, e) ↦ let bad = rw e at h in absurd (ground arith)
  ]
    where
      finished :
          (cols : List String) (end : Option String) (s : Outcome ScanError (List (Row F)) × ℕ)
          → scan_loop decoder cols r.fetched [] 0 ≡ s
          → finish_rows decoder end s ≡ (ok out, n)
          → length out ≡ length r.fetched
      finished cols none s e e' =
          let same = scan_loop-length cols r.fetched [] out 0 n (e ∙ e') in omega (arith, same)
      finished cols (some x) (ok rows, k) e e' = absurd (ground arith)
      finished cols (some x) (err y, k) e e' = absurd (ground arith)

-- A database that heeds LIMIT: where a statement binds a number behind it, no more rows come back.
abbrev pub ObeysLimit : {F T W : Type 0} → Querier F T W → Type 0
ObeysLimit {F} {T} {W} db =
    (sql : Sql) (params : List (Value F)) (w w' : W) (r : SqlRows F T) (n : ℕ)
    → Binds " LIMIT " (num int (pos n)) (sql, params)
    → db sql params w ≡ (ok r, w')
    → length r.fetched ≤ n

-- An expansion that neither adds nor removes a row.
abbrev pub KeepsRows : {F : Type 0} → Expansion F → Type 0
KeepsRows {F} expansion =
    (dataset : DatasetInfo) (rows out : List (Row F))
    → expand_rows expansion dataset rows ≡ ok out
    → length out ≡ length rows

positive_default : (d : ℕ) (x : ℤ) → (k : ℕ) × (unless_positive (pos d) x ≡ pos k)
positive_default d (pos zero) = (d, refl)
positive_default d (pos (suc n)) = (suc n, refl)
positive_default d (negsuc n) = (d, refl)

clip_lem :
    (m d : ℕ) → (n : ℕ) × ((if ltb_ℤ (pos m) (pos d) then pos m else pos d) ≡ pos n) × (n ≤ m)
clip_lem m d = elim (Bool-cases (ltb_ℤ (pos m) (pos d))) [
  | inl b ↦ (m, rw b refl, omega arith)
  | inr b ↦ (d, rw b refl, ground arith)
]

-- The limit that a query runs with is a number up to the maximum, if it asks for no negative one.
clipped_limit :
    {F : Type 0} (x : Engine F) (limit : Option ℤ) (m d : ℕ)
    → x.max_limit ≡ pos m
    → x.default_limit ≡ pos d
    → is_negative limit ≡ false
    → (n : ℕ) × (effective_limit x limit ≡ pos n) × (n ≤ pos_part x.max_limit)
unfolding effective_limit
clipped_limit x none m d hm hd hl = rw (hm, hd) (clip_lem m d)
clipped_limit x (some (pos l)) m d hm hd hl = rw hm (clip_lem m l)
clipped_limit x (some (negsuc l)) m d hm hd hl = absurd (ground arith)

pub effective_limit-bound :
    {F : Type 0} (config : EngineConfig F) (engine : Engine F) (limit : Option ℤ)
    → new_engine config ≡ some engine
    → is_negative limit ≡ false
    → (n : ℕ) × (effective_limit engine limit ≡ pos n) × (n ≤ pos_part engine.max_limit)
unfolding new_engine
effective_limit-bound {F} config engine limit h hl = elim (Option-cases config.scope_for) [
  | inl e ↦ let bad = rw e at h in absurd (ground arith)
  | inr (f, e) ↦
      let same : engine_of config f ≡ engine = ground arith in
      let (d, hd) = positive_default 100 config.default_limit in
      let (m, hm) = positive_default 10000 config.max_limit in
      clipped_limit engine limit m d (sym (ap (λ x. x.max_limit) same) ∙ hm)
        (sym (ap (λ x. x.default_limit) same) ∙ hd) hl
]
