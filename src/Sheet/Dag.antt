-- ===== src/Sheet/Dag.antt =====
-- `topoSort` of sheet/dag.go: formulas in an order in which each runs after those it refers to.
pub mod Ends
pub mod Degrees
pub mod Labels
pub mod Found
pub mod Placed
pub mod Order
pub mod Complete
use dql.Prelude.{
  ℕ, zero, suc, ◌+◌, ◌-◌, ◌*◌, String, Bool, true, false, not, ◌&&◌, List, [], ◌∷◌, ◌++◌, map, keep,
  any, length, get_elem?, Option, none, some, Outcome, ok, err, ◌>>=◌, ltb, ◌==◌, sort_slice,
  str_eq, if◌then◌else◌,
}
use dql.Go.Row.{lookup, put}
use dql.Go.Text.{lt_text}
use dql.Sheet.Formula.{Formula, SheetError, circular, out_of_range, cut_off}

-- `inDegree`: for each name, the number of formulas that it still waits for. Where the program
-- counts below zero it stays at zero here, which frees nothing either.
abbrev pub Degrees : Type 0
Degrees = List (String × ℕ)

abbrev pub or_zero : Option ℕ → ℕ
or_zero none = 0
or_zero (some n) = n

-- `inDegree[name]`.
abbrev pub degree : Degrees → String → ℕ
degree ds name = or_zero (lookup ds name)

-- `index`, from the formula at `i`: a later formula of the same name wins.
abbrev pub later_or : Option ℕ → Option ℕ → Option ℕ
later_or (some j) m = some j
later_or none m = m

unfoldable pub index_from : ℕ → List Formula → String → Option ℕ
index_from i [] name = none
index_from i (f ∷ fs) name =
    later_or (index_from (suc i) fs name) (if str_eq f.as_name name then some i else none)

unfoldable pub index_of : List Formula → String → Option ℕ
unfolding index_from
index_of fs name = index_from 0 fs name

-- An edge: the formula that waits, and the one that it waits for. The list of all, in the order in
-- which they are found, stands for `seenEdge` and for `dependents`.
abbrev pub Edges : Type 0
Edges = List (String × String)

abbrev pub is_seen : Edges → String → String → Bool
is_seen es name ref = any (λ e. str_eq e.0 name && str_eq e.1 ref) es

unfoldable pub dependents : Edges → String → List String
dependents es ref = map (λ e. e.0) (keep (λ e. str_eq e.1 ref) es)

abbrev pub is_formula : List Formula → String → Bool
is_formula fs ref = any (λ (f : Formula). str_eq f.as_name ref) fs

-- The body of the inner loop: one reference of one formula.
unfoldable pub add_ref : List Formula → String → String → Edges × Degrees → Edges × Degrees
unfolding put
add_ref fs name ref (es, ds) =
    if not (is_formula fs ref)
    then (es, ds)
    else if is_seen es name ref
    then (es, ds)
    else (es ++ (name, ref) ∷ [], put ds name (suc (degree ds name)))

unfoldable pub add_refs : List Formula → String → List String → Edges × Degrees → Edges × Degrees
unfolding add_ref
add_refs fs name [] g = g
add_refs fs name (ref ∷ refs) g = add_refs fs name refs (add_ref fs name ref g)

-- `refs`: the names that each formula refers to.
abbrev pub Refs : Type 0
Refs = List (String × List String)

abbrev pub or_no_refs : Option (List String) → List String
or_no_refs none = []
or_no_refs (some rs) = rs

-- The loop over the formulas that finds the edges.
unfoldable pub add_edges : List Formula → Refs → List Formula → Edges × Degrees → Edges × Degrees
unfolding add_refs
add_edges fs refs [] g = g
add_edges fs refs (f ∷ todo) g =
    add_edges fs refs todo (add_refs fs f.as_name (or_no_refs (lookup refs f.as_name)) g)

-- `inDegree` before the edges are counted.
unfoldable pub no_degrees : List Formula → Degrees → Degrees
unfolding put
no_degrees [] ds = ds
no_degrees (f ∷ fs) ds = no_degrees fs (put ds f.as_name 0)

-- The loop over `dependents[f.As]`: the degrees after it, and `freed`.
unfoldable pub release : List Formula → List String → Degrees → Degrees × List ℕ
unfolding put index_of
release fs [] ds = (ds, [])
release fs (dep ∷ deps) ds =
    let n = degree ds dep in
    let (after, freed) = release fs deps (put ds dep (n - 1)) in
    (after, if n == 1 then or_zero (index_of fs dep) ∷ freed else freed)

-- The variables of the main loop.
pub record State : Type 0 where
  pub ready : List ℕ
  pub degrees : Degrees
  pub out : List Formula

-- The formulas that wait for none, in the order of their indices.
unfoldable pub first_ready : List Formula → Degrees → List ℕ
unfolding index_of sort_slice
first_ready fs ds = sort_slice ltb (
    map (λ (f : Formula). or_zero (index_of fs f.as_name))
      (keep (λ (f : Formula). degree ds f.as_name == 0) fs))

-- One round of the main loop, at the first index that is ready.
abbrev pub at_index : List Formula → ℕ → Outcome SheetError Formula
at_index fs i = elim (get_elem? fs i) [ none ↦ err (out_of_range i) | some f ↦ ok f ]

unfoldable pub visit : List Formula → Edges → ℕ → List ℕ → State → Outcome SheetError State
unfolding dependents release sort_slice
visit fs es i rest st = at_index fs i >>= λ (f : Formula).
    let (after, freed) = release fs (dependents es f.as_name) st.degrees in
    ok (record { ready = sort_slice ltb (rest ++ freed); degrees = after; out = st.out ++ f ∷ [] })

-- The main loop, of at most so many rounds.
unfoldable pub drain : ℕ → List Formula → Edges → State → Outcome SheetError State
unfolding visit
drain zero fs es st = elim st.ready [ [] ↦ ok st | i ∷ rest ↦ err cut_off ]
drain (suc n) fs es st = elim st.ready [
  | [] ↦ ok st
  | i ∷ rest ↦ visit fs es i rest st >>= λ st'. drain n fs es st'
]

unfoldable pub total : Degrees → ℕ
total [] = 0
total ((name, n) ∷ ds) = n + total ds

-- The names in the message of a cycle.
unfoldable pub stuck : List Formula → Degrees → List String
unfolding sort_slice
stuck fs ds =
    sort_slice lt_text
      (map (λ (f : Formula). f.as_name) (keep (λ (f : Formula). ltb 0 (degree ds f.as_name)) fs))

abbrev pub start : List Formula → Degrees → State
start fs ds = record { ready = first_ready fs ds; degrees = ds; out = [] }

-- `topoSort`. Each round takes an index from `ready`, and each that is put there takes one from the
-- degrees, so the rounds are at most as many as the indices and the degrees at the start.
unfoldable pub topo_sort : List Formula → Refs → Outcome SheetError (List Formula)
unfolding add_edges no_degrees first_ready drain total stuck
topo_sort fs refs =
    let (es, ds) = add_edges fs refs fs ([], no_degrees fs []) in
    drain (length (first_ready fs ds) + total ds) fs es (start fs ds) >>= λ (st : State).
    if length st.out == length fs then ok st.out else err (circular (stuck fs st.degrees))
