-- ===== src/Pipe/Branching/Keys.antt =====
-- Where the rows go that `intersect` and `except` (pipe/setops.go) sort out.
use mathlib.Core.List.{Perm}
use mathlib.Core.List.Perm
use dql.Prelude.{
  String, Bool, true, false, not, ◌≡◌, List, [], ◌∷◌, ◌++◌, arith, Bool-cases, inl, inr, keep,
}
use dql.Go.Runtime.{Runtime}
use dql.Go.Row.{Row}
use dql.Pipe.Branching.{common_rows, other_rows}

-- An element may be moved to the front.
move_up {ℓ} :
    {A : Type ℓ} (xs : List A) (a : A) (ys : List A) → Perm (xs ++ a ∷ ys) (a ∷ (xs ++ ys))
move_up [] a ys = Perm.refl (a ∷ ys)
move_up (x ∷ xs) a ys = Perm.trans (Perm.cons x (move_up xs a ys)) (Perm.swap a x (xs ++ ys))

keep-perm {ℓ} :
    {A : Type ℓ} (p q : A → Bool) (xs : List A)
    → ((a : A) → q a ≡ not (p a))
    → Perm (keep p xs ++ keep q xs) xs
keep-perm p q [] h = Perm.refl []
keep-perm p q (x ∷ xs) h = elim (Bool-cases (p x)) [
  | inl e ↦
      let f : q x ≡ false = ground (arith, h x) in rw (e, f) (Perm.cons x (keep-perm p q xs h))
  | inr e ↦
      let f : q x ≡ true = ground (arith, h x) in
      rw (e, f) (Perm.trans (move_up (keep p xs) x (keep q xs)) (Perm.cons x (keep-perm p q xs h)))
]

module _ (go : Runtime) where
  open go use {Float}

  -- Of the rows of a left source, `intersect` with a right one keeps those that `except` drops:
  -- together they are the left source's rows, each as often as it was there.
  pub common_or_other :
      (by : List String) (left right : List (Row Float))
      → Perm (common_rows go by (left ∷ right ∷ []) ++ other_rows go by left right) left
  unfolding common_rows other_rows
  common_or_other by left right = keep-perm _ _ left (λ row. ground arith)
