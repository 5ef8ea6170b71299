-- ===== src/Sheet/Dag/Labels.antt =====
-- The indices that `topoSort` (sheet/dag.go) keeps ready, read as the names of their formulas.
use dql.Prelude.{
  ℕ, zero, suc, ◌+◌, ◌-◌, ◌≤◌, String, true, false, ◌≡◌, refl, ap, subst, List, [], ◌∷◌, ◌++◌, map,
  keep, All, Option, none, some, ltb, ◌==◌, sort_slice, insert_sorted, str_eq, arith, inl, inr,
  Bool-cases, eq_iff, contains, get_elem?,
}
use dql.Go.Row.{put}
use dql.Sheet.Formula.{Formula}
use dql.Sheet.Formula.Checked.{names_of}
use dql.Sheet.Dag.{Degrees, degree, or_zero, index_from, index_of, release, first_ready}
use dql.Sheet.Dag.Degrees.{bit, count, degree-put}

abbrev pub name_at : List Formula → ℕ → String
name_at [] i = ""
name_at (f ∷ fs) zero = f.as_name
name_at (f ∷ fs) (suc i) = name_at fs i

pub get_elem?-name :
    (fs : List Formula) (i : ℕ) (f : Formula)
    → get_elem? fs i ≡ some f
    → (name_at fs i ≡ f.as_name) × (contains (names_of fs) f.as_name ≡ true)
get_elem?-name [] i f h = absurd (ground arith)
get_elem?-name (g ∷ fs) zero f h =
    let same : g ≡ f = ap (λ (m : Option Formula). elim m [ none ↦ g | some x ↦ x ]) h in
    (ap (λ x. x.as_name) same, ground (arith, eq_iff g.as_name f.as_name, ap (λ x. x.as_name) same))
get_elem?-name (g ∷ fs) (suc i) f h = let (e, c) = get_elem?-name fs i f h in (e, ground arith)

index_from-none :
    (i : ℕ) (fs : List Formula) (n : String)
    → contains (names_of fs) n ≡ false
    → index_from i fs n ≡ none
unfolding index_from
index_from-none i [] n h = refl
index_from-none i (f ∷ fs) n h =
    let none_behind = index_from-none (suc i) fs n (ground arith) in
    let other : str_eq f.as_name n ≡ false = ground arith in rw (none_behind, other) refl

-- The index of a name is that of a formula with this name.
index_from-name :
    (i : ℕ) (fs : List Formula) (n : String)
    → contains (names_of fs) n ≡ true
    → (k : ℕ) × (index_from i fs n ≡ some (i + k)) × (name_at fs k ≡ n)
unfolding index_from
index_from-name i [] n h = absurd (ground arith)
index_from-name i (f ∷ fs) n h = elim (Bool-cases (contains (names_of fs) n)) [
  | inl e ↦
      let (k, found, name) = index_from-name (suc i) fs n e in
      (suc k, rw found (ap some (omega arith)), name)
  | inr e ↦
      let here : str_eq f.as_name n ≡ true = ground arith in
      (
        zero,
        rw (index_from-none (suc i) fs n e, here) (ap some (omega arith)),
        (eq_iff f.as_name n).0 here,
      )
]

pub index_of-name :
    (fs : List Formula) (n : String)
    → contains (names_of fs) n ≡ true
    → name_at fs (or_zero (index_of fs n)) ≡ n
unfolding index_of
index_of-name fs n h =
    let (k, found, name) = index_from-name 0 fs n h in
    rw found (subst (λ j. name_at fs j ≡ n) (omega arith) name)

module _ (fs : List Formula) where
  abbrev pub labels : List ℕ → List String
  labels is = map (name_at fs) is

  pub labels-append :
      (n : String) (is js : List ℕ)
      → count n (labels (is ++ js)) ≡ count n (labels is) + count n (labels js)
  labels-append n [] js = omega arith
  labels-append n (i ∷ is) js = omega (arith, labels-append n is js)

  abbrev pub is_zero : ℕ → ℕ
  is_zero d = bit (d == 0)

  -- A name is freed once, when its degree comes to 0.
  pub release-freed :
      (deps : List String) (ds : Degrees) (n : String)
      → All (λ dep. contains (names_of fs) dep ≡ true) deps
      → count n (labels (release fs deps ds).1) + is_zero (degree ds n)
        ≤ is_zero (degree (release fs deps ds).0 n)
  unfolding release
  release-freed [] ds n h = omega arith
  release-freed (dep ∷ deps) ds n h =
      let rest = release-freed deps (put ds dep (degree ds dep - 1)) n h.1 in
      let name = index_of-name fs dep h.0 in
      let this = degree-put ds dep n (degree ds dep - 1) in
      elim (Bool-cases (degree ds dep == 1)) [
        | inl e ↦ rw (e, name) (ground (arith, eq_iff dep n))
        | inr e ↦ rw e (ground (arith, eq_iff dep n))
      ]

  count-insert_sorted :
      (n : String) (i : ℕ) (is : List ℕ)
      → count n (labels (insert_sorted ltb i is)) ≡ count n (labels (i ∷ is))
  unfolding insert_sorted
  count-insert_sorted n i [] = refl
  count-insert_sorted n i (j ∷ is) = ground (arith, count-insert_sorted n i is)

  pub count-sort_slice :
      (n : String) (is : List ℕ) → count n (labels (sort_slice ltb is)) ≡ count n (labels is)
  unfolding sort_slice
  count-sort_slice n [] = refl
  count-sort_slice n (i ∷ is) =
      omega (arith, count-sort_slice n is, count-insert_sorted n i (sort_slice ltb is))

  -- The indices of the formulas of a list whose degree is 0.
  abbrev free : Degrees → List Formula → List ℕ
  free ds todo =
      map (λ (f : Formula). or_zero (index_of fs f.as_name))
        (keep (λ (f : Formula). degree ds f.as_name == 0) todo)

  abbrev AreOf : List Formula → Type 0
  AreOf todo = All (λ (f : Formula). contains (names_of fs) f.as_name ≡ true) todo

  free-le :
      (ds : Degrees) (n : String) (todo : List Formula)
      → AreOf todo
      → count n (labels (free ds todo)) ≤ count n (names_of todo)
  free-le ds n [] h = omega arith
  free-le ds n (f ∷ todo) h =
      let rest = free-le ds n todo h.1 in
      elim (Bool-cases (degree ds f.as_name == 0)) [
        | inl e ↦ rw (e, index_of-name fs f.as_name h.0) (omega arith)
        | inr e ↦ rw e (omega arith)
      ]

  free-zero :
      (ds : Degrees) (n : String) (todo : List Formula)
      → AreOf todo
      → (degree ds n == 0) ≡ false
      → count n (labels (free ds todo)) ≡ 0
  free-zero ds n [] h busy = refl
  free-zero ds n (f ∷ todo) h busy =
      let rest = free-zero ds n todo h.1 busy in
      elim (Bool-cases (degree ds f.as_name == 0)) [
        | inl e ↦ rw (e, index_of-name fs f.as_name h.0) (ground (arith, eq_iff f.as_name n))
        | inr e ↦ rw e rest
      ]

  behind-AreOf :
      (todo : List Formula)
      → ((n : String) → contains (names_of todo) n ≡ true → contains (names_of fs) n ≡ true)
      → AreOf todo
  behind-AreOf [] h = tt
  behind-AreOf (f ∷ todo) h = (
    h f.as_name (ground (arith, eq_iff f.as_name f.as_name)),
    behind-AreOf todo (λ n c. h n (ground arith)),
  )

  -- At the start, the names that are ready are those of degree 0, each once.
  pub first_ready-once :
      (ds : Degrees) (n : String)
      → count n (names_of fs) ≤ 1
      → count n (labels (first_ready fs ds)) ≤ is_zero (degree ds n)
  unfolding first_ready
  first_ready-once ds n h =
      let sorted = count-sort_slice n (free ds fs) in
      let of = behind-AreOf fs (λ m c. c) in
      elim (Bool-cases (degree ds n == 0)) [
        | inl e ↦ rw e (omega (arith, free-le ds n fs of))
        | inr e ↦ rw e (omega (arith, free-zero ds n fs of e))
      ]
