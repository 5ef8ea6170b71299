-- ===== src/Sheet/Dag/Found.antt =====
-- The edges that `topoSort` (sheet/dag.go) finds: all of them, and as many as the degrees say.
use dql.Prelude.{
  suc, ◌+◌, String, true, ◌&&◌, ◌||◌, ◌≡◌, refl, sym, subst, List, [], ◌∷◌, ◌++◌, All, All-append,
  str_eq, arith, inl, inr, Bool-cases, eq_iff, contains,
}
use dql.Go.Row.{lookup, put}
use dql.Sheet.Formula.{Formula}
use dql.Sheet.Formula.Checked.{names_of}
use dql.Sheet.Dag.{
  Degrees, degree, Edges, is_seen, is_formula, add_ref, add_refs, add_edges, no_degrees, or_no_refs,
  Refs,
}
use dql.Sheet.Dag.Degrees.{bit, waits, degree-put}

no_degrees-zero :
    (fs : List Formula) (ds : Degrees) (n : String)
    → degree ds n ≡ 0
    → degree (no_degrees fs ds) n ≡ 0
unfolding no_degrees
no_degrees-zero [] ds n h = h
no_degrees-zero (f ∷ fs) ds n h =
    no_degrees-zero fs (put ds f.as_name 0) n (ground (arith, degree-put ds f.as_name n 0))

waits-edge :
    (es : Edges) (name ref n : String)
    → waits (es ++ (name, ref) ∷ []) [] n ≡ waits es [] n + bit (str_eq name n)
waits-edge [] name ref n = ground arith
waits-edge (e ∷ es) name ref n = ground (arith, waits-edge es name ref n)

is_seen-snoc :
    (es : Edges) (e : String × String) (name ref : String)
    → is_seen (es ++ e ∷ []) name ref ≡ (is_seen es name ref || (str_eq e.0 name && str_eq e.1 ref))
is_seen-snoc [] e name ref = ground arith
is_seen-snoc (d ∷ es) e name ref = ground (arith, is_seen-snoc es e name ref)

module _ (fs : List Formula) where
  -- The degrees count the edges, and each edge starts at a formula.
  pub record IsCounted (g : Edges × Degrees) : Type 0 where
    pub counted : (n : String) → degree g.1 n ≡ waits g.0 [] n
    pub from_formulas : All (λ e. contains (names_of fs) e.0 ≡ true) g.0

  add_ref-IsCounted :
      (name ref : String) (g : Edges × Degrees)
      → contains (names_of fs) name ≡ true
      → IsCounted g
      → IsCounted (add_ref fs name ref g)
  unfolding add_ref
  add_ref-IsCounted name ref (es, ds) h c = elim (Bool-cases (is_formula fs ref)) [
    | inr e ↦ rw e c
    | inl e ↦ elim (Bool-cases (is_seen es name ref)) [
      | inl s ↦ rw (e, s) c
      | inr s ↦
          rw (e, s)
            (record {
              counted = λ n. ground (
                arith,
                degree-put ds name n (suc (degree ds name)),
                waits-edge es name ref n,
                c.counted n,
                c.counted name,
                eq_iff name n,
              );
              from_formulas =
                  All-append (λ d. contains (names_of fs) d.0 ≡ true) es ((name, ref) ∷ [])
                    c.from_formulas (h, tt);
            })
    ]
  ]

  add_refs-IsCounted :
      (name : String) (refs : List String) (g : Edges × Degrees)
      → contains (names_of fs) name ≡ true
      → IsCounted g
      → IsCounted (add_refs fs name refs g)
  unfolding add_refs
  add_refs-IsCounted name [] g h c = c
  add_refs-IsCounted name (ref ∷ refs) g h c =
      add_refs-IsCounted name refs (add_ref fs name ref g) h (add_ref-IsCounted name ref g h c)

  add_edges-IsCounted :
      (refs : Refs) (todo : List Formula) (g : Edges × Degrees)
      → ((n : String) → contains (names_of todo) n ≡ true → contains (names_of fs) n ≡ true)
      → IsCounted g
      → IsCounted (add_edges fs refs todo g)
  unfolding add_edges
  add_edges-IsCounted refs [] g h c = c
  add_edges-IsCounted refs (f ∷ todo) g h c =
      add_edges-IsCounted refs todo (add_refs fs f.as_name (or_no_refs (lookup refs f.as_name)) g)
        (λ n k. h n (ground arith))
        (add_refs-IsCounted f.as_name (or_no_refs (lookup refs f.as_name)) g
          (h f.as_name (ground (arith, eq_iff f.as_name f.as_name))) c)

  pub edges-IsCounted : (refs : Refs) → IsCounted (add_edges fs refs fs ([], no_degrees fs []))
  edges-IsCounted refs =
      add_edges-IsCounted refs fs ([], no_degrees fs []) (λ n c. c)
        (record { counted = λ n. no_degrees-zero fs [] n refl; from_formulas = tt })

  add_ref-keeps :
      (name ref : String) (g : Edges × Degrees) (n r : String)
      → is_seen g.0 n r ≡ true
      → is_seen (add_ref fs name ref g).0 n r ≡ true
  unfolding add_ref
  add_ref-keeps name ref (es, ds) n r h = ground (arith, is_seen-snoc es (name, ref) n r)

  add_ref-sees :
      (name ref : String) (g : Edges × Degrees)
      → is_formula fs ref ≡ true
      → is_seen (add_ref fs name ref g).0 name ref ≡ true
  unfolding add_ref
  add_ref-sees name ref (es, ds) h =
      ground (arith, is_seen-snoc es (name, ref) name ref, eq_iff name name, eq_iff ref ref)

  add_refs-keeps :
      (name : String) (refs : List String) (g : Edges × Degrees) (n r : String)
      → is_seen g.0 n r ≡ true
      → is_seen (add_refs fs name refs g).0 n r ≡ true
  unfolding add_refs
  add_refs-keeps name [] g n r h = h
  add_refs-keeps name (ref ∷ refs) g n r h =
      add_refs-keeps name refs (add_ref fs name ref g) n r (add_ref-keeps name ref g n r h)

  add_refs-sees :
      (name : String) (refs : List String) (g : Edges × Degrees) (r : String)
      → is_formula fs r ≡ true
      → contains refs r ≡ true
      → is_seen (add_refs fs name refs g).0 name r ≡ true
  unfolding add_refs
  add_refs-sees name [] g r h c = absurd (ground arith)
  add_refs-sees name (ref ∷ refs) g r h c = elim (Bool-cases (str_eq ref r)) [
    | inl e ↦ add_refs-keeps name refs (add_ref fs name ref g) name r (
        subst (λ x. is_seen (add_ref fs name x g).0 name r ≡ true) (sym ((eq_iff ref r).0 e))
          (add_ref-sees name r g h))
    | inr e ↦ add_refs-sees name refs (add_ref fs name ref g) r h (ground arith)
  ]

  add_edges-keeps :
      (refs : Refs) (todo : List Formula) (g : Edges × Degrees) (n r : String)
      → is_seen g.0 n r ≡ true
      → is_seen (add_edges fs refs todo g).0 n r ≡ true
  unfolding add_edges
  add_edges-keeps refs [] g n r h = h
  add_edges-keeps refs (f ∷ todo) g n r h =
      add_edges-keeps refs todo (add_refs fs f.as_name (or_no_refs (lookup refs f.as_name)) g) n r
        (add_refs-keeps f.as_name (or_no_refs (lookup refs f.as_name)) g n r h)

  -- Each reference of a formula to a formula is found.
  pub add_edges-sees :
      (refs : Refs) (todo : List Formula) (g : Edges × Degrees) (n r : String)
      → contains (names_of todo) n ≡ true
      → is_formula fs r ≡ true
      → contains (or_no_refs (lookup refs n)) r ≡ true
      → is_seen (add_edges fs refs todo g).0 n r ≡ true
  unfolding add_edges
  add_edges-sees refs [] g n r c h k = absurd (ground arith)
  add_edges-sees refs (f ∷ todo) g n r c h k = elim (Bool-cases (str_eq f.as_name n)) [
    | inl e ↦
        add_edges-keeps refs todo (add_refs fs f.as_name (or_no_refs (lookup refs f.as_name)) g) n r
          (subst (λ m. is_seen (add_refs fs m (or_no_refs (lookup refs m)) g).0 n r ≡ true)
            (sym ((eq_iff f.as_name n).0 e)) (add_refs-sees n (or_no_refs (lookup refs n)) g r h k))
    | inr e ↦
        add_edges-sees refs todo (add_refs fs f.as_name (or_no_refs (lookup refs f.as_name)) g) n r
          (ground arith) h k
  ]
