-- ===== src/Sheet/Formula/Checked.antt =====
-- A list of formulas that passes `validateFormulas` (sheet/formula.go).
use dql.Prelude.{
  ℕ, suc, String, false, not, ◌≡◌, List, [], ◌∷◌, ◌++◌, map, none, arith, contains, str_eq,
  append-nil, append_assoc, subst,
}
use dql.Sheet.Formula.{Formula, kind, validate_from, validate_formulas}

abbrev pub names_of : List Formula → List String
names_of fs = map (λ (f : Formula). f.as_name) fs

checked_at :
    (i : ℕ) (seen : List String) (f : Formula) (after : List Formula)
    → validate_from i seen (f ∷ after) ≡ none
    → (str_eq f.as_name "" ≡ false)
      × (str_eq f.expr "" ≡ not (str_eq f.reduce_expr ""))
      × (contains seen f.as_name ≡ false)
unfolding validate_from kind
checked_at i seen f after h = (ground arith, ground arith, ground arith)

checked_behind :
    (i : ℕ) (seen : List String) (before : List Formula) (f : Formula) (after : List Formula)
    → validate_from i seen (before ++ f ∷ after) ≡ none
    → (str_eq f.as_name "" ≡ false)
      × (str_eq f.expr "" ≡ not (str_eq f.reduce_expr ""))
      × (contains (seen ++ names_of before) f.as_name ≡ false)
unfolding validate_from
checked_behind i seen [] f after h = rw (append-nil seen) (checked_at i seen f after h)
checked_behind i seen (g ∷ gs) f after h =
    subst
      (λ names.
        (str_eq f.as_name "" ≡ false)
        × (str_eq f.expr "" ≡ not (str_eq f.reduce_expr ""))
        × (contains names f.as_name ≡ false))
      (append_assoc seen (g.as_name ∷ []) (names_of gs))
      (checked_behind (suc i) (seen ++ g.as_name ∷ []) gs f after (ground arith))

-- In a list of formulas that is accepted, each formula has a name, exactly one of the two kinds of
-- expression, and another name than every formula before it.
pub validate_formulas_sound :
    (before : List Formula) (f : Formula) (after : List Formula)
    → validate_formulas (before ++ f ∷ after) ≡ none
    → (str_eq f.as_name "" ≡ false)
      × (str_eq f.expr "" ≡ not (str_eq f.reduce_expr ""))
      × (contains (names_of before) f.as_name ≡ false)
unfolding validate_formulas
validate_formulas_sound [] f after h = checked_behind 0 [] [] f after h
validate_formulas_sound (g ∷ gs) f after h = checked_behind 0 [] (g ∷ gs) f after h
