-- ===== src/Dsl/Filters.antt =====
-- Laws of the filter loop over any semantics of WHERE trees.
use dql.Prelude.{
  Bool, true, false, ◌≡◌, refl, List, [], ◌∷◌, Option, Outcome, ok, err, arith, ap, ◌>>=◌,
  if◌then◌else◌,
}
use dql.Go.Row.{Row}
use dql.Dsl.Where.{WhereClause}
use dql.Dsl.Tree.{Semantics, EvalError, eval_maybe, filter_rows}

abbrev pub Returns : Outcome EvalError Bool → Type 0
Returns (ok b) = Unit
Returns (err e) = ⊥

abbrev pub keep_row :
    {F : Type 0}
    → Row F
    → Outcome EvalError Bool
    → Outcome EvalError (List (Row F))
    → Outcome EvalError (List (Row F))
keep_row row match rest = match >>= λ m. rest >>= λ out. ok (if m then row ∷ out else out)

Returns-ok : (r : Outcome EvalError Bool) → Returns r → (b : Bool) × (r ≡ ok b)
Returns-ok (ok b) h = (b, refl)
Returns-ok (err e) h = elim h [ ]

module _ {F : Type 0} (row : Row F) where
  -- A filter that returned read its row's test, and its other rows.
  pub keep_row-ok :
      (match : Outcome EvalError Bool) (rest : Outcome EvalError (List (Row F)))
      (out : List (Row F))
      → keep_row row match rest ≡ ok out
      → (m : Bool) × (kept : List (Row F)) × (match ≡ ok m)
        × (rest ≡ ok kept)
        × ((if m then row ∷ kept else kept) ≡ out)
  keep_row-ok (ok m) (ok kept) out h = (m, kept, refl, refl, ground arith)
  keep_row-ok (ok m) (err e) out h = cc
  keep_row-ok (err e) rest out h = cc

module _ {F : Type 0} (s : Semantics F) where
  -- Two clauses that agree on every row filter alike.
  pub filter_rows_ext :
      (p w : Option (WhereClause F))
      → ((row : Row F) → eval_maybe s row p ≡ eval_maybe s row w)
      → (rows : List (Row F)) → filter_rows s p rows ≡ filter_rows s w rows
  unfolding filter_rows
  filter_rows_ext p w same [] = refl
  filter_rows_ext p w same (row ∷ rows) =
      λ i. keep_row row (same row i) (filter_rows_ext p w same rows i)

  filter_rows_step :
      (p w : Option (WhereClause F)) (row : Row F) (rows mid kept out : List (Row F))
      → filter_rows s p rows ≡ ok mid
      → filter_rows s w mid ≡ ok kept
      → (m n : Bool) → eval_maybe s row w ≡ ok m
      → eval_maybe s row p ≡ ok n
      → (if m then row ∷ kept else kept) ≡ out
      → (eval_maybe s row w ≡ ok true → eval_maybe s row p ≡ ok true)
      → (mid' : List (Row F)) × (filter_rows s p (row ∷ rows) ≡ ok mid')
        × (filter_rows s w mid' ≡ ok out)
  unfolding filter_rows
  filter_rows_step p w row rows mid kept out first second true true now passed same weaker =
      (row ∷ mid, rw (passed, first), rw (now, second) (ap ok same))
  filter_rows_step p w row rows mid kept out first second true false now passed same weaker =
      cc (weaker now)
  filter_rows_step p w row rows mid kept out first second false true now passed same weaker =
      (row ∷ mid, rw (passed, first), rw (now, second) (ap ok same))
  filter_rows_step p w row rows mid kept out first second false false now passed same weaker =
      (mid, rw (passed, first), rw second (ap ok same))

  -- Whatever a filter by `w` keeps, it keeps from the rows that a weaker `p` lets through.
  pub filter_rows_twice :
      (p w : Option (WhereClause F))
      → ((row : Row F) → Returns (eval_maybe s row p))
      → ((row : Row F) → eval_maybe s row w ≡ ok true → eval_maybe s row p ≡ ok true)
      → (rows out : List (Row F)) → filter_rows s w rows ≡ ok out
      → (mid : List (Row F)) × (filter_rows s p rows ≡ ok mid) × (filter_rows s w mid ≡ ok out)
  unfolding filter_rows
  filter_rows_twice p w total weaker [] out h = ([], refl, h)
  filter_rows_twice p w total weaker (row ∷ rows) out h =
      let (m, kept, now, later, same) = keep_row-ok row _ _ out h in
      let (n, passed) = Returns-ok _ (total row) in
      let (mid, first, second) = filter_rows_twice p w total weaker rows kept later in
      filter_rows_step p w row rows mid kept out first second m n now passed same (weaker row)
