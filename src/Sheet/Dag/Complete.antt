-- ===== src/Sheet/Dag/Complete.antt =====
-- The formulas in the order that `topoSort` (sheet/dag.go) returns.
use dql.Prelude.{
  suc, ◌+◌, ◌≤◌, String, Bool, true, false, ◌≡◌, refl, sym, ◌∙◌, ap, subst, List, [], ◌∷◌, ◌++◌,
  none, ok, str_eq, arith, inl, inr, Bool-cases, eq_iff, contains, ◌==◌, length, length-map,
}
use dql.Sheet.Formula.{Formula, validate_formulas}
use dql.Sheet.Formula.Checked.{names_of}
use dql.Sheet.Dag.{Edges, Refs, degree, topo_sort}
use dql.Sheet.Dag.Degrees.{bit, count}
use dql.Sheet.Dag.Placed.{IsPlaced}
use dql.Sheet.Dag.Order.{ordered_state, edges_of}

-- A list without one occurrence of a name.
take_out :
    (x : String) (ys : List String)
    → 1 ≤ count x ys
    → (zs : List String) × ((n : String) → count n ys ≡ bit (str_eq x n) + count n zs)
      × (length ys ≡ suc (length zs))
take_out x [] h = absurd (omega arith)
take_out x (y ∷ ys) h = elim (Bool-cases (str_eq y x)) [
  | inl e ↦ (ys, (λ n. ap (λ z. bit (str_eq z n) + count n ys) ((eq_iff y x).0 e)), refl)
  | inr e ↦
      let (zs, counts, size) = take_out x ys (ground arith) in
      (y ∷ zs, (λ n. omega (arith, counts n)), omega arith)
]

-- Of two lists of the same length, one of which has nothing more often than the other.
count-same :
    (xs ys : List String)
    → ((n : String) → count n xs ≤ count n ys)
    → length xs ≡ length ys
    → (n : String) → count n xs ≡ count n ys
count-same [] [] h size n = refl
count-same [] (y ∷ ys) h size n = absurd (omega arith)
count-same (x ∷ xs) ys h size n =
    let self : str_eq x x ≡ true = (eq_iff x x).1 refl in
    let most = h x in
    let (zs, counts, size') = take_out x ys (ground arith) in
    omega (arith, count-same xs zs (λ m. omega (arith, h m, counts m)) (omega arith) n, counts n)

contains-count : (n : String) (xs : List String) → contains xs n ≡ true → 1 ≤ count n xs
contains-count n [] h = absurd (ground arith)
contains-count n (x ∷ xs) h = ground (arith, contains-count n xs)

count-absent : (n : String) (xs : List String) → contains xs n ≡ false → count n xs ≡ 0
count-absent n [] h = refl
count-absent n (x ∷ xs) h = ground (arith, count-absent n xs)

bit-bound : (b : Bool) → bit b ≤ 1
bit-bound true = omega arith
bit-bound false = omega arith

IsPlaced-known :
    (fs : List Formula) (es : Edges) (placed : List String) (out : List Formula) (n : String)
    → IsPlaced fs es placed out
    → contains (names_of out) n ≡ true
    → contains (names_of fs) n ≡ true
IsPlaced-known fs es placed [] n p h = absurd (ground arith)
IsPlaced-known fs es placed (f ∷ out) n p h = elim (Bool-cases (str_eq f.as_name n)) [
  | inl e ↦ subst (λ x. contains (names_of fs) x ≡ true) ((eq_iff f.as_name n).0 e) p.0
  | inr e ↦ IsPlaced-known fs es (placed ++ f.as_name ∷ []) out n p.2 (ground arith)
]

-- The order that `topoSort` returns for formulas that passed the check has each formula's name as
-- often as the formulas have it: none is lost, and none comes twice.
pub topo_sort_complete :
    (fs : List Formula) (refs : Refs) (out : List Formula) (n : String)
    → validate_formulas fs ≡ none
    → topo_sort fs refs ≡ ok out
    → count n (names_of out) ≡ count n (names_of fs)
topo_sort_complete fs refs out n valid h =
    let (st, good, same, size) = ordered_state fs refs out valid h in
    let placed = subst (λ o. IsPlaced fs (edges_of fs refs) [] o) same good.placed in
    let names = ap names_of same in
    count-same (names_of out) (names_of fs)
      (λ m. elim (Bool-cases (contains (names_of out) m)) [
        | inl e ↦
            let once = good.once m in
            let least =
              contains-count m (names_of fs)
                (IsPlaced-known fs (edges_of fs refs) [] out m placed e) in
            let most = bit-bound (degree st.degrees m == 0) in omega (arith, ap (count m) names)
        | inr e ↦ let absent = count-absent m (names_of out) e in omega arith
      ])
      (length-map (λ (f : Formula). f.as_name) out
        ∙ size
        ∙ sym (length-map (λ (f : Formula). f.as_name) fs))
      n
