-- ===== src/Sheet/Dag/Order.antt =====
-- The order that `topoSort` (sheet/dag.go) returns.
use dql.Prelude.{
  ℕ, zero, suc, ◌+◌, ◌≤◌, String, true, false, ◌≡◌, refl, sym, ◌∙◌, ap, subst, List, [], ◌∷◌, ◌++◌,
  All, Option, none, some, Outcome, ok, err, bind_ok, ok_inj, ltb, ◌==◌, sort_slice, str_eq, arith,
  inl, inr, Bool-cases, if-true, if-false, eq_iff, contains, get_elem?, length, append-nil,
  append_assoc,
}
use dql.Go.Row.{lookup}
use dql.Sheet.Formula.{Formula, SheetError, out_of_range, validate_formulas}
use dql.Sheet.Formula.Checked.{names_of}
use dql.Sheet.Dag.{
  Degrees, degree, Edges, is_formula, or_no_refs, Refs, dependents, release, State, at_index, visit,
  drain, total, first_ready, start, topo_sort, add_edges, no_degrees,
}
use dql.Sheet.Dag.Degrees.{bit, count, waits, count-contains, release-degree, waits-snoc}
use dql.Sheet.Dag.Labels.{
  get_elem?-name, labels, labels-append, is_zero, release-freed, count-sort_slice, first_ready-once,
}
use dql.Sheet.Dag.Placed.{
  IsPlaced, waits-zero, dependents-formulas, names_of-snoc, count-snoc, count-valid,
}
use dql.Sheet.Dag.Found.{edges-IsCounted, add_edges-sees}

module _ (fs : List Formula) (es : Edges)
    (formulas : All (λ e. contains (names_of fs) e.0 ≡ true) es) where
  IsPlaced-snoc :
      (placed : List String) (out : List Formula) (f : Formula)
      → IsPlaced fs es placed out
      → contains (names_of fs) f.as_name ≡ true
      → waits es (placed ++ names_of out) f.as_name ≡ 0
      → IsPlaced fs es placed (out ++ f ∷ [])
  IsPlaced-snoc placed [] f p c w =
      (c, subst (λ xs. waits es xs f.as_name ≡ 0) (append-nil placed) w, tt)
  IsPlaced-snoc placed (g ∷ out) f p c w = (
    p.0,
    p.1,
    IsPlaced-snoc (placed ++ g.as_name ∷ []) out f p.2 c (
        subst (λ xs. waits es xs f.as_name ≡ 0)
          (sym (append_assoc placed (g.as_name ∷ []) (names_of out))) w),
  )

  pub record IsGood (st : State) : Type 0 where
    pub counted : (n : String) → degree st.degrees n ≡ waits es (names_of st.out) n
    pub once :
        (n : String)
        → count n (labels fs st.ready) + count n (names_of st.out)
          ≤ is_zero fs (degree st.degrees n)
    pub placed : IsPlaced fs es [] st.out

  -- A round at `f`, with `rest` still ready.
  abbrev after : Formula → List ℕ → State → State
  after f rest st =
      let r = release fs (dependents es f.as_name) st.degrees in
      record { ready = sort_slice ltb (rest ++ r.1); degrees = r.0; out = st.out ++ f ∷ [] }

  found_some :
      (m : Option Formula) (i : ℕ) (f : Formula)
      → ◌≡◌ {A = Outcome SheetError Formula}
          (elim m [ none ↦ err (out_of_range i) | some g ↦ ok g ])
          (ok f)
      → m ≡ some f
  found_some none i f h = absurd (ground arith)
  found_some (some g) i f h = ap some (ok_inj g f h)

  visit-after :
      (i : ℕ) (rest : List ℕ) (st st' : State)
      → visit fs es i rest st ≡ ok st'
      → (f : Formula) × (get_elem? fs i ≡ some f) × (after f rest st ≡ st')
  unfolding visit
  visit-after i rest st st' h =
      let (f, found, made) = bind_ok (at_index fs i) _ st' h in
      (f, found_some (get_elem? fs i) i f found, ok_inj (after f rest st) st' made)

  after-IsGood :
      (i : ℕ) (rest : List ℕ) (f : Formula) (st : State)
      → st.ready ≡ i ∷ rest
      → get_elem? fs i ≡ some f
      → IsGood st
      → IsGood (after f rest st)
  after-IsGood i rest f st e found good =
      let deps = dependents es f.as_name in
      let (name, formula) = get_elem?-name fs i f found in
      let ready : (n : String)
          → count n (labels fs st.ready) ≡ bit (str_eq f.as_name n) + count n (labels fs rest) =
        λ n.
          ap (λ is. count n (labels fs is)) e
          ∙ ap (λ x. bit (str_eq x n) + count n (labels fs rest)) name in
      let self : str_eq f.as_name f.as_name ≡ true = (eq_iff f.as_name f.as_name).1 refl in
      let here = good.once f.as_name in
      let ready_here = ready f.as_name in
      let idle : degree st.degrees f.as_name ≡ 0 = ground arith in
      let fresh : contains (names_of st.out) f.as_name ≡ false =
        count-contains f.as_name (names_of st.out) (ground arith) in
      record {
        counted = λ n. rw (names_of-snoc st.out f) (
            omega (
              arith,
              release-degree fs deps st.degrees n,
              good.counted n,
              waits-snoc es (names_of st.out) f.as_name n fresh,
            ));
        once = λ n. rw (names_of-snoc st.out f) (
            omega (
              arith,
              count-sort_slice fs n (rest ++ (release fs deps st.degrees).1),
              labels-append fs n rest (release fs deps st.degrees).1,
              count-snoc n (names_of st.out) f.as_name,
              ready n,
              good.once n,
              release-freed fs deps st.degrees n (dependents-formulas fs es f.as_name formulas),
            ));
        placed =
            IsPlaced-snoc [] st.out f good.placed formula (sym (good.counted f.as_name) ∙ idle);
      }

  drain-IsGood :
      (n : ℕ) (ready : List ℕ) (ds : Degrees) (out : List Formula) (st : State)
      → drain n fs es (record { ready = ready; degrees = ds; out = out }) ≡ ok st
      → IsGood (record { ready = ready; degrees = ds; out = out })
      → IsGood st
  unfolding drain
  drain-IsGood zero [] ds out st h good = subst (λ s. IsGood s) (ok_inj _ st h) good
  drain-IsGood (suc n) [] ds out st h good = subst (λ s. IsGood s) (ok_inj _ st h) good
  drain-IsGood zero (i ∷ rest) ds out st h good = absurd (ground arith)
  drain-IsGood (suc n) (i ∷ rest) ds out st h good =
      let here : State = record { ready = i ∷ rest; degrees = ds; out = out } in
      let (st1, first, later) = bind_ok (visit fs es i rest here) _ st h in
      let (f, found, made) = visit-after i rest here st1 first in
      drain-IsGood n st1.ready st1.degrees st1.out st later
        (subst (λ s. IsGood s) made (after-IsGood i rest f here refl found good))

  IsPlaced-at :
      (placed : List String) (before : List Formula) (f : Formula) (behind : List Formula)
      → IsPlaced fs es placed (before ++ f ∷ behind)
      → (contains (names_of fs) f.as_name ≡ true)
        × (waits es (placed ++ names_of before) f.as_name ≡ 0)
  IsPlaced-at placed [] f behind p =
      (p.0, subst (λ xs. waits es xs f.as_name ≡ 0) (sym (append-nil placed)) p.1)
  IsPlaced-at placed (g ∷ before) f behind p =
      let (formula, none_left) = IsPlaced-at (placed ++ g.as_name ∷ []) before f behind p.2 in
      (
        formula,
        subst (λ xs. waits es xs f.as_name ≡ 0)
            (append_assoc placed (g.as_name ∷ []) (names_of before)) none_left,
      )

-- The edges of the formulas.
abbrev pub edges_of : List Formula → Refs → Edges
edges_of fs refs = (add_edges fs refs fs ([], no_degrees fs [])).0

-- Where `topoSort` returns an order, its loop ended in a good state with as many formulas.
pub ordered_state :
    (fs : List Formula) (refs : Refs) (out : List Formula)
    → validate_formulas fs ≡ none
    → topo_sort fs refs ≡ ok out
    → (st : State) × IsGood fs (edges_of fs refs) (edges-IsCounted fs refs).from_formulas st
      × (st.out ≡ out)
      × (length out ≡ length fs)
unfolding topo_sort
ordered_state fs refs out valid h =
    let g = add_edges fs refs fs ([], no_degrees fs []) in
    let found = edges-IsCounted fs refs in
    let (st, run, made) =
      bind_ok (drain (length (first_ready fs g.1) + total g.1) fs g.0 (start fs g.1)) _ out h in
    let good : IsGood fs g.0 found.from_formulas (start fs g.1) = record {
      counted = found.counted;
      once = λ n. omega (arith, first_ready-once fs g.1 n (count-valid fs n valid));
      placed = tt;
    } in
    let end = drain-IsGood fs g.0 found.from_formulas _ (first_ready fs g.1) g.1 [] st run good in
    elim (Bool-cases (length st.out == length fs)) [
      | inl e ↦
          let same = ok_inj st.out out (if-true _ _ _ _ e made) in
          (st, end, same, subst (λ o. length o ≡ length fs) same (ground arith))
      | inr e ↦ let bad = if-false _ _ _ _ e made in absurd (ground arith)
    ]

-- In the order that `topoSort` returns for formulas that passed the check, each formula comes
-- behind every formula that it refers to.
pub topo_sort_ordered :
    (fs : List Formula) (refs : Refs) (before : List Formula) (f : Formula) (behind : List Formula)
    (r : String)
    → validate_formulas fs ≡ none
    → topo_sort fs refs ≡ ok (before ++ f ∷ behind)
    → is_formula fs r ≡ true
    → contains (or_no_refs (lookup refs f.as_name)) r ≡ true
    → contains (names_of before) r ≡ true
topo_sort_ordered fs refs before f behind r valid h formula reference =
    let es = edges_of fs refs in
    let formulas = (edges-IsCounted fs refs).from_formulas in
    let (st, good, same, size) = ordered_state fs refs (before ++ f ∷ behind) valid h in
    let (known, none_left) =
      IsPlaced-at fs es formulas [] before f behind
        (subst (λ out. IsPlaced fs es [] out) same good.placed) in
    waits-zero es (names_of before) f.as_name r none_left
      (add_edges-sees fs refs fs ([], no_degrees fs []) f.as_name r known formula reference)
