-- ===== src/Sheet/Dag/Ends.antt =====
-- The main loop of `topoSort` (sheet/dag.go): its rounds, and the indices that it reads.
use dql.Prelude.{
  ℕ, zero, suc, ◌+◌, ◌-◌, ◌≤◌, ◌<◌, String, ◌≡◌, refl, subst, List, [], ◌∷◌, ◌++◌, map, keep, All,
  All-append, length, length-append, get_elem?, Option, none, some, ok, err, ltb, ◌==◌, sort_slice,
  length-sort_slice, All-sort_slice, str_eq, arith, ◌⊎◌, inl, inr, Bool-cases,
}
use dql.Go.Row.{put}
use dql.Sheet.Formula.{Formula, circular}
use dql.Sheet.Dag.{
  Degrees, degree, or_zero, index_from, index_of, Edges, dependents, Refs, no_degrees, add_edges,
  release, State, at_index, visit, drain, total, first_ready, stuck, topo_sort, later_or,
}

total-put : (ds : Degrees) (k : String) (v : ℕ) → total (put ds k v) + degree ds k ≡ total ds + v
unfolding total put
total-put [] k v = omega arith
total-put ((j, n) ∷ ds) k v = ground (arith, total-put ds k v)

-- What is freed was taken from the degrees.
release-total :
    (fs : List Formula) (deps : List String) (ds : Degrees)
    → total (release fs deps ds).0 + length (release fs deps ds).1 ≤ total ds
unfolding release
release-total fs [] ds = omega arith
release-total fs (dep ∷ deps) ds =
    let n = degree ds dep in
    let rest = release-total fs deps (put ds dep (n - 1)) in
    let this = total-put ds dep (n - 1) in ground arith

-- An index that is found is one of the list.
abbrev IsBelow : ℕ → Option ℕ → Type 0
IsBelow n none = Unit
IsBelow n (some j) = j < n

IsBelow-later_or : (n : ℕ) (a b : Option ℕ) → IsBelow n a → IsBelow n b → IsBelow n (later_or a b)
IsBelow-later_or n none b ha hb = hb
IsBelow-later_or n (some j) b ha hb = ha

index_from-IsBelow :
    (i : ℕ) (fs : List Formula) (name : String) → IsBelow (i + length fs) (index_from i fs name)
unfolding index_from
index_from-IsBelow i [] name = tt
index_from-IsBelow i (f ∷ fs) name =
    let found : IsBelow (i + suc (length fs)) (index_from (suc i) fs name) =
      subst (λ n. IsBelow n (index_from (suc i) fs name)) (omega arith)
        (index_from-IsBelow (suc i) fs name) in
    IsBelow-later_or (i + suc (length fs)) (index_from (suc i) fs name) _ found
      (elim (Bool-cases (str_eq f.as_name name)) [ inl e ↦ rw e (omega arith) | inr e ↦ rw e tt ])

or_zero-bound : (n : ℕ) (m : Option ℕ) → 0 < n → IsBelow n m → or_zero m < n
or_zero-bound n none h b = h
or_zero-bound n (some j) h b = b

index_of-bound :
    (fs : List Formula) (name : String) → 0 < length fs → or_zero (index_of fs name) < length fs
unfolding index_of
index_of-bound fs name h =
    or_zero-bound (length fs) (index_from 0 fs name) h
      (subst (λ n. IsBelow n (index_from 0 fs name)) (omega arith) (index_from-IsBelow 0 fs name))

get_elem?-some :
    (fs : List Formula) (i : ℕ) → i < length fs → (f : Formula) × (get_elem? fs i ≡ some f)
get_elem?-some [] i h = absurd (omega arith)
get_elem?-some (f ∷ fs) zero h = (f, refl)
get_elem?-some (f ∷ fs) (suc i) h = get_elem?-some fs i (omega arith)

at_index-ok : (fs : List Formula) (i : ℕ) → i < length fs → (f : Formula) × (at_index fs i ≡ ok f)
at_index-ok fs i h = let (f, e) = get_elem?-some fs i h in (f, rw (at_index, e) refl)

module _ (fs : List Formula) where
  abbrev Valid : List ℕ → Type 0
  Valid is = All (λ i. i < length fs) is

  release-Valid : (deps : List String) (ds : Degrees) → 0 < length fs → Valid (release fs deps ds).1
  unfolding release
  release-Valid [] ds h = tt
  release-Valid (dep ∷ deps) ds h =
      let rest = release-Valid deps (put ds dep (degree ds dep - 1)) h in
      elim (Bool-cases (degree ds dep == 1)) [
        | inl e ↦ rw e (index_of-bound fs dep h, rest)
        | inr e ↦ rw e rest
      ]

  indices-Valid :
      (todo : List Formula)
      → 0 < length fs
      → Valid (map (λ (f : Formula). or_zero (index_of fs f.as_name)) todo)
  indices-Valid [] h = tt
  indices-Valid (f ∷ todo) h = (index_of-bound fs f.as_name h, indices-Valid todo h)

  -- A round at an index of the list goes well, and leaves less to do.
  visit-ok :
      (es : Edges) (i : ℕ) (rest : List ℕ) (st : State)
      → i < length fs
      → Valid rest
      → (st' : State) × (visit fs es i rest st ≡ ok st')
        × Valid st'.ready
        × (length st'.ready + total st'.degrees ≤ length rest + total st.degrees)
  unfolding visit
  visit-ok es i rest st h valid =
      let (f, found) = at_index-ok fs i h in
      let freed = (release fs (dependents es f.as_name) st.degrees).1 in
      let after = (release fs (dependents es f.as_name) st.degrees).0 in
      let less = release-total fs (dependents es f.as_name) st.degrees in
      let sorted = length-sort_slice ltb (rest ++ freed) in
      let both = length-append rest freed in
      (
        record { ready = sort_slice ltb (rest ++ freed); degrees = after; out = st.out ++ f ∷ [] },
        rw found refl,
        All-sort_slice ltb (λ j. j < length fs) (rest ++ freed)
            (All-append (λ j. j < length fs) rest freed valid
              (release-Valid (dependents es f.as_name) st.degrees (omega arith))),
        omega arith,
      )

  -- The loop ends with nothing ready.
  drain-ends :
      (n : ℕ) (es : Edges) (ready : List ℕ) (ds : Degrees) (out : List Formula)
      → length ready + total ds ≤ n
      → Valid ready
      → (st : State) × (drain n fs es (record { ready = ready; degrees = ds; out = out }) ≡ ok st)
        × (st.ready ≡ [])
  unfolding drain
  drain-ends zero es [] ds out h valid =
      (record { ready = []; degrees = ds; out = out }, refl, refl)
  drain-ends (suc n) es [] ds out h valid =
      (record { ready = []; degrees = ds; out = out }, refl, refl)
  drain-ends zero es (i ∷ rest) ds out h valid = absurd (omega arith)
  drain-ends (suc n) es (i ∷ rest) ds out h valid =
      let (st, first, valid', less) =
        visit-ok es i rest (record { ready = i ∷ rest; degrees = ds; out = out }) valid.0 valid.1 in
      let (end, run, done) = drain-ends n es st.ready st.degrees st.out (omega arith) valid' in
      (end, rw first run, done)

  first_ready-Valid : (ds : Degrees) → 0 < length fs → Valid (first_ready fs ds)
  unfolding first_ready
  first_ready-Valid ds h = All-sort_slice ltb (λ j. j < length fs) _ (indices-Valid (keep _ fs) h)

-- `topoSort` always comes to an end: the bound on the rounds of its loop is enough, no index that
-- it reads is out of range, and it answers either as many formulas as it was given, or that some
-- wait for each other.
pub topo_sort-answers :
    (fs : List Formula) (refs : Refs)
    → ((out : List Formula) × (topo_sort fs refs ≡ ok out) × (length out ≡ length fs))
      ⊎ ((names : List String) × (topo_sort fs refs ≡ err (circular names)))
unfolding topo_sort
topo_sort-answers [] refs = inl ([], refl, refl)
topo_sort-answers (f ∷ fs) refs =
    let all = f ∷ fs in
    let ds = (add_edges all refs all ([], no_degrees all [])).1 in
    let es = (add_edges all refs all ([], no_degrees all [])).0 in
    let (st, run, done) =
      drain-ends all (length (first_ready all ds) + total ds) es (first_ready all ds) ds []
        (omega arith) (first_ready-Valid all ds (omega arith)) in
    elim (Bool-cases (length st.out == length all)) [
      | inl e ↦ inl (st.out, rw (run, e) refl, ground arith)
      | inr e ↦ inr (stuck all st.degrees, rw (run, e) refl)
    ]
