-- ===== src/Pipe/Rows/Distinct.antt =====
-- What `distinct` (pipe/distinct.go) keeps.
use dql.Prelude.{
  String, Bool, true, false, not, ◌&&◌, ◌||◌, ◌≡◌, refl, ap, Bool-cases, inl, inr, List, [], ◌∷◌,
  map, contains, arith, str_eq, eq_iff,
}
use dql.Go.Runtime.{Runtime}
use dql.Go.Row.{Row}
use dql.Pipe.Rows.{distinct_key, distinct_loop, distinct_apply}

-- No text twice.
abbrev pub are_distinct : List String → Bool
are_distinct [] = true
are_distinct (k ∷ ks) = not (contains ks k) && are_distinct ks

same_name :
    (seen : List String) (a b : String) → str_eq a b ≡ true → contains seen a ≡ contains seen b
same_name seen a b h = let e : a ≡ b = ground (arith, eq_iff a b) in ap (contains seen) e

module _ (go : Runtime) (key : Row go.Float → String) where
  open go use {Float}

  -- A key is among those kept, or was seen before, exactly if it is a key of the rows.
  loop-keys :
      (seen : List String) (rows : List (Row Float)) (k : String)
      → (contains seen k || contains (map key (distinct_loop go key seen rows)) k)
        ≡ (contains seen k || contains (map key rows) k)
  unfolding distinct_loop
  loop-keys seen [] k = refl
  loop-keys seen (row ∷ rows) k = elim (Bool-cases (contains seen (key row))) [
    | inl e ↦ rw e (ground (arith, same_name seen (key row) k, loop-keys seen rows k))
    | inr e ↦ rw e (ground (arith, loop-keys (key row ∷ seen) rows k))
  ]

  -- A key that was seen is not kept again.
  loop-fresh :
      (seen : List String) (rows : List (Row Float)) (k : String)
      → contains seen k ≡ true
      → contains (map key (distinct_loop go key seen rows)) k ≡ false
  unfolding distinct_loop
  loop-fresh seen [] k h = refl
  loop-fresh seen (row ∷ rows) k h = elim (Bool-cases (contains seen (key row))) [
    | inl e ↦ rw e (loop-fresh seen rows k h)
    | inr e ↦ rw e (ground (arith, same_name seen (key row) k, loop-fresh (key row ∷ seen) rows k))
  ]

  loop-distinct :
      (seen : List String) (rows : List (Row Float))
      → are_distinct (map key (distinct_loop go key seen rows)) ≡ true
  unfolding distinct_loop
  loop-distinct seen [] = refl
  loop-distinct seen (row ∷ rows) = elim (Bool-cases (contains seen (key row))) [
    | inl e ↦ rw e (loop-distinct seen rows)
    | inr e ↦
        let self : contains (key row ∷ seen) (key row) ≡ true =
          ground (arith, eq_iff (key row) (key row)) in
        rw e (
          ground (
            arith,
            loop-fresh (key row ∷ seen) rows (key row) self,
            loop-distinct (key row ∷ seen) rows,
          ))
  ]

module _ (go : Runtime) where
  open go use {Float}

  -- What `distinct` returns has no key twice, and has each key that its rows have, and no other.
  pub distinct_apply-distinct :
      (by : List String) (rows : List (Row Float))
      → (are_distinct (map (distinct_key go by) (distinct_apply go by rows)) ≡ true)
        × ((k : String)
            → contains (map (distinct_key go by) (distinct_apply go by rows)) k
              ≡ contains (map (distinct_key go by) rows) k)
  unfolding distinct_apply
  distinct_apply-distinct by rows =
      (loop-distinct go (distinct_key go by) [] rows, loop-keys go (distinct_key go by) [] rows)
