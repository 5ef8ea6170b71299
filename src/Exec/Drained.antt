-- ===== src/Exec/Drained.antt =====
-- How the drain of a cursor (exec/stream.go, pipe/source.go) says of the rows that it read.
use dql.Prelude.{
  ℕ, zero, suc, ◌+◌, ◌≤◌, min, String, Bool, true, false, ◌&&◌, ◌||◌, ◌≡◌, refl, sym, ◌∙◌, ap,
  subst, List, [], ◌∷◌, ◌++◌, map, Option, none, ok, arith, length, length-append, take, take_long,
  leb, ltb, append-nil, append_assoc, Bool-cases, inl, inr,
}
use dql.Go.Row.{Row}
use dql.Exec.Scan.{SqlValue, Decoder, fill_columns, scan_values}
use dql.Exec.Cursor.{RowSource, is_failed, next, drain_rows, probe, read_next, drain_next}

-- The number of rows that a drain stops at: the limit, if there is one, and the executor's cap.
abbrev pub bound : ℕ → ℕ → ℕ
bound zero max_rows = max_rows
bound (suc l) max_rows = min (suc l) max_rows

module _ {A : Type 0} where
  take-length : (xs ys : List A) → take (length xs) (xs ++ ys) ≡ xs
  take-length [] ys = refl
  take-length (x ∷ xs) ys = ap (◌∷◌ x) (take-length xs ys)

  fits : (b : ℕ) (xs : List A) → length xs ≤ b → xs ≡ take b (xs ++ [])
  fits b xs h = sym (ap (take b) (append-nil xs) ∙ take_long b xs h)

  cut : (b : ℕ) (xs ys : List A) → b ≡ length xs → xs ≡ take b (xs ++ ys)
  cut b xs ys h = sym (ap (λ n. take n (xs ++ ys)) h ∙ take-length xs ys)

module _ {F T : Type 0} (decoder : Decoder F T) where
  -- A cursor with these rows ahead, all of which the driver can scan, and so many behind.
  abbrev pub source_at :
      List String → ℕ → String → Option String → ℕ → List (List (SqlValue F T)) → RowSource F T
  source_at cols limit table end count values = record {
    rest = map ok values;
    end_error = end;
    cols = cols;
    limit = limit;
    table = table;
    count = count;
    failed = none;
    truncated = false;
  }

  abbrev pub rows_of : List String → List (List (SqlValue F T)) → List (Row F)
  rows_of cols values = map (λ v. fill_columns decoder cols v []) values

  -- The outcome of a drain that has come to its end.
  abbrev pub Drained :
      Option String → ℕ → List (Row F) → ℕ → ((List (Row F) × Bool) × RowSource F T) → Type 0
  Drained end b all n d =
      (d.0.0 ≡ take b all)
      × ((d.0.1 || d.1.truncated) ≡ ltb b n)
      × (d.1.failed ≡ none)
      × (d.1.end_error ≡ end)

  -- Where `Next` stops for the limit.
  abbrev is_full : ℕ → ℕ → Bool
  is_full limit count = ltb 0 limit && leb limit count

  drain_rows-next :
      (fuel max_rows : ℕ) (rows : List (Row F)) (s : RowSource F T)
      (n : Option (Row F) × RowSource F T)
      → next decoder s ≡ n
      → drain_next decoder max_rows rows n (drain_rows decoder fuel max_rows)
        ≡ drain_rows decoder (suc fuel) max_rows rows s
  unfolding drain_rows
  drain_rows-next fuel max_rows rows s n e =
      ap (λ x. drain_next decoder max_rows rows x (drain_rows decoder fuel max_rows)) (sym e)

  next-full :
      (s : RowSource F T)
      → is_failed decoder s.failed ≡ false
      → is_full s.limit s.count ≡ true
      → next decoder s ≡ (none, probe decoder s.rest s)
  unfolding next
  next-full s f h = rw (f, h) refl

  next-more :
      (s : RowSource F T)
      → is_failed decoder s.failed ≡ false
      → is_full s.limit s.count ≡ false
      → next decoder s ≡ read_next decoder s.rest s
  unfolding next
  next-more s f h = rw (f, h) refl

  module _ (cols : List String) (limit max_rows : ℕ) (table : String) (end : Option String) where
    full_length :
        (n : ℕ) → is_full limit n ≡ true → n ≤ bound limit max_rows → bound limit max_rows ≡ n
    full_length n full h = by_limit limit full h
      where
        by_limit : (l : ℕ) → is_full l n ≡ true → n ≤ bound l max_rows → bound l max_rows ≡ n
        by_limit zero full h = absurd (ground arith)
        by_limit (suc l) full h = ground arith

    capped_length :
        (n : ℕ) → leb max_rows n ≡ true → n ≤ bound limit max_rows → bound limit max_rows ≡ n
    capped_length n most h = by_limit limit h
      where
        by_limit : (l : ℕ) → n ≤ bound l max_rows → bound l max_rows ≡ n
        by_limit zero h = ground arith
        by_limit (suc l) h = ground arith

    below :
        (n : ℕ) → is_full limit n ≡ false → leb max_rows n ≡ false → suc n ≤ bound limit max_rows
    below n full most = by_limit limit full
      where
        by_limit : (l : ℕ) → is_full l n ≡ false → suc n ≤ bound l max_rows
        by_limit zero full = ground arith
        by_limit (suc l) full = ground arith

    within : (b n : ℕ) → n ≤ b → false ≡ ltb b (n + 0)
    within b n h = ground arith

    past_bound : (b n k : ℕ) → b ≡ n → true ≡ ltb b (n + suc k)
    past_bound b n k h = ground arith

    -- One row further.
    shift :
        (v : List (SqlValue F T)) (vs : List (List (SqlValue F T))) (rows : List (Row F))
        → let row = fill_columns decoder cols v [] in
          Drained end
            (bound limit max_rows)
            ((rows ++ row ∷ []) ++ rows_of cols vs)
            (length (rows ++ row ∷ []) + length vs)
            (drain_rows decoder
              (suc (length vs))
              max_rows
              (rows ++ row ∷ [])
              (source_at cols limit table end (length (rows ++ row ∷ [])) vs))
          → Drained end
              (bound limit max_rows)
              (rows ++ row ∷ rows_of cols vs)
              (length rows + suc (length vs))
              (drain_rows decoder
                (suc (length vs))
                max_rows
                (rows ++ row ∷ [])
                (source_at cols limit table end (suc (length rows)) vs))
    shift v vs rows ih =
        let b = bound limit max_rows in
        let row = fill_columns decoder cols v [] in
        let here = rows ++ row ∷ [] in
        let run : ℕ → (List (Row F) × Bool) × RowSource F T = λ k.
          drain_rows decoder (suc (length vs)) max_rows here
            (source_at cols limit table end k vs) in
        let longer : length here ≡ suc (length rows) =
          let e = length-append rows (row ∷ []) in omega (arith, e) in
        let sum : length here + length vs ≡ length rows + suc (length vs) = omega (arith, longer) in
        subst
          (λ k.
            Drained end b (rows ++ row ∷ rows_of cols vs) (length rows + suc (length vs)) (run k))
          longer
          (subst (λ n. Drained end b (rows ++ row ∷ rows_of cols vs) n (run (length here))) sum
            (subst (λ all. Drained end b all (length here + length vs) (run (length here)))
              (append_assoc rows (row ∷ []) (rows_of cols vs)) ih))

    pub drain_lem :
        (values : List (List (SqlValue F T))) (rows : List (Row F))
        → length rows ≤ bound limit max_rows
        → Drained end
            (bound limit max_rows)
            (rows ++ rows_of cols values)
            (length rows + length values)
            (drain_rows decoder
              (suc (length values))
              max_rows
              rows
              (source_at cols limit table end (length rows) values))
    unfolding scan_values
    drain_lem [] rows h =
        let b = bound limit max_rows in
        let s = source_at cols limit table end (length rows) [] in
        let Goal = Drained end (bound limit max_rows) (rows ++ []) (length rows + 0) in
        elim (Bool-cases (is_full limit (length rows))) [
          | inl e ↦
              subst Goal (drain_rows-next 0 max_rows rows s _ (next-full s refl e))
                (fits b rows h, within b (length rows) h, refl, refl)
          | inr e ↦
              subst Goal (drain_rows-next 0 max_rows rows s _ (next-more s refl e))
                (fits b rows h, within b (length rows) h, refl, refl)
        ]
    drain_lem (v ∷ vs) rows h =
        let b = bound limit max_rows in
        let s = source_at cols limit table end (length rows) (v ∷ vs) in
        let Goal =
          Drained end (bound limit max_rows) (rows ++ rows_of cols (v ∷ vs))
            (length rows + suc (length vs)) in
        elim (Bool-cases (is_full limit (length rows))) [
          | inl e ↦
              subst Goal (drain_rows-next (suc (length vs)) max_rows rows s _ (next-full s refl e))
                (
                  cut b rows _ (full_length (length rows) e h),
                  past_bound b (length rows) (length vs) (full_length (length rows) e h),
                  refl,
                  refl,
                )
          | inr e ↦
              subst Goal (drain_rows-next (suc (length vs)) max_rows rows s _ (next-more s refl e))
                (elim (Bool-cases (leb max_rows (length rows))) [
                  | inl m ↦ rw m (
                    cut b rows _ (capped_length (length rows) m h),
                    past_bound b (length rows) (length vs) (capped_length (length rows) m h),
                    refl,
                    refl,
                  )
                  | inr m ↦ rw m (
                      shift v vs rows (
                        drain_lem vs (rows ++ fill_columns decoder cols v [] ∷ []) (
                          let further = below (length rows) e m in
                          let n = length-append rows (fill_columns decoder cols v [] ∷ []) in
                          omega (arith, further, n))))
                ])
        ]
