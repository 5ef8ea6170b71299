-- ===== src/Sheet/Dag/Placed.antt =====
-- Formulas that `topoSort` (sheet/dag.go) has placed, and the names of those that it is given.
use dql.Prelude.{
  ℕ, suc, ◌+◌, ◌≤◌, String, true, false, ◌&&◌, ◌≡◌, refl, ap, subst, List, [], ◌∷◌, ◌++◌, All, none,
  str_eq, arith, inl, inr, Bool-cases, eq_iff, contains,
}
use dql.Sheet.Formula.{Formula, validate_from, validate_formulas}
use dql.Sheet.Formula.Checked.{names_of}
use dql.Sheet.Dag.{Edges, is_seen, dependents}
use dql.Sheet.Dag.Degrees.{bit, count, waits, contains-snoc}

-- Formulas behind placed names: each waits for none but names before it.
abbrev pub IsPlaced : List Formula → Edges → List String → List Formula → Type 0
IsPlaced fs es placed [] = Unit
IsPlaced fs es placed (f ∷ out) =
    (contains (names_of fs) f.as_name ≡ true)
    × (waits es placed f.as_name ≡ 0)
    × IsPlaced fs es (placed ++ f.as_name ∷ []) out

pub waits-zero :
    (es : Edges) (placed : List String) (n r : String)
    → waits es placed n ≡ 0
    → is_seen es n r ≡ true
    → contains placed r ≡ true
waits-zero [] placed n r h s = absurd (ground arith)
waits-zero (e ∷ es) placed n r h s = elim (Bool-cases (str_eq e.0 n && str_eq e.1 r)) [
  | inl same ↦
      subst (λ x. contains placed x ≡ true) ((eq_iff e.1 r).0 (ground arith)) (ground arith)
  | inr other ↦ waits-zero es placed n r (omega arith) (ground arith)
]

pub dependents-formulas :
    (fs : List Formula) (es : Edges) (r : String)
    → All (λ e. contains (names_of fs) e.0 ≡ true) es
    → All (λ d. contains (names_of fs) d ≡ true) (dependents es r)
unfolding dependents
dependents-formulas fs [] r h = tt
dependents-formulas fs (e ∷ es) r h =
    let rest = dependents-formulas fs es r h.1 in
    elim (Bool-cases (str_eq e.1 r)) [ inl s ↦ rw s (h.0, rest) | inr s ↦ rw s rest ]

pub names_of-snoc :
    (out : List Formula) (f : Formula) → names_of (out ++ f ∷ []) ≡ names_of out ++ f.as_name ∷ []
names_of-snoc [] f = refl
names_of-snoc (g ∷ out) f = ap (◌∷◌ g.as_name) (names_of-snoc out f)

pub count-snoc :
    (n : String) (xs : List String) (x : String)
    → count n (xs ++ x ∷ []) ≡ count n xs + bit (str_eq x n)
count-snoc n [] x = omega arith
count-snoc n (y ∷ xs) x = omega (arith, count-snoc n xs x)

-- The names of a list that was checked are all different.
count-checked :
    (i : ℕ) (seen : List String) (fs : List Formula) (n : String)
    → validate_from i seen fs ≡ none
    → count n (names_of fs) + bit (contains seen n) ≤ 1
unfolding validate_from
count-checked i seen [] n h = ground arith
count-checked i seen (f ∷ fs) n h =
    let rest = count-checked (suc i) (seen ++ f.as_name ∷ []) fs n (ground arith) in
    let new : contains seen f.as_name ≡ false = ground arith in
    ground (arith, contains-snoc seen f.as_name n, eq_iff f.as_name n)

pub count-valid :
    (fs : List Formula) (n : String) → validate_formulas fs ≡ none → count n (names_of fs) ≤ 1
unfolding validate_formulas
count-valid [] n h = absurd (ground arith)
count-valid (f ∷ fs) n h = omega (arith, count-checked 0 [] (f ∷ fs) n h)
