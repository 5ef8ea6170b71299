-- ===== src/Prelude/Sorting.antt =====
-- `sort.Slice` and `sort.SliceStable`: the ordering of a slice by a comparison. Insertion, which is
-- stable, is one implementation of them; where the comparison is a strict weak order their
-- documented contract leaves no other result, ties of `sort.Slice` apart.
use mathlib.Core.Path.{◌≡◌, refl, ap, ◌∙◌}
use mathlib.Core.Bool.{Bool, false}
use mathlib.Core.List.{List, [], ◌∷◌, Perm}
use mathlib.Core.List.Perm
use dql.Prelude.Tests.{if◌then◌else◌, Bool-cases}
use mathlib.Core.Logic.{inl, inr}
use Prim.Native.Nat.{suc}
use native.Mathlib.Omega.{arith}
use dql.Prelude.Lists.{All, length}

module _ {ℓ} {A : Type ℓ} (less : A → A → Bool) where
  unfoldable pub insert_sorted : A → List A → List A
  insert_sorted a [] = a ∷ []
  insert_sorted a (x ∷ xs) =
      let rest = insert_sorted a xs in if less x a then x ∷ rest else a ∷ x ∷ xs

  unfoldable pub sort_slice : List A → List A
  unfolding insert_sorted
  sort_slice [] = []
  sort_slice (x ∷ xs) = insert_sorted x (sort_slice xs)

  -- Each element comes before everything that stands behind it.
  abbrev pub IsOrdered : List A → Type ℓ
  IsOrdered [] = Unit
  IsOrdered (x ∷ xs) = All (λ y. less y x ≡ false) xs × IsOrdered xs

  insert_sorted-perm : (a : A) (xs : List A) → Perm (insert_sorted a xs) (a ∷ xs)
  unfolding insert_sorted
  insert_sorted-perm a [] = Perm.refl (a ∷ [])
  insert_sorted-perm a (x ∷ xs) = elim (Bool-cases (less x a)) [
    | inl e ↦ rw e (Perm.trans (Perm.cons x (insert_sorted-perm a xs)) (Perm.swap a x xs))
    | inr e ↦ rw e (Perm.refl (a ∷ x ∷ xs))
  ]

  pub sort_slice-perm : (xs : List A) → Perm (sort_slice xs) xs
  unfolding sort_slice
  sort_slice-perm [] = Perm.refl []
  sort_slice-perm (x ∷ xs) =
      Perm.trans (insert_sorted-perm x (sort_slice xs)) (Perm.cons x (sort_slice-perm xs))

-- Comparisons that agree sort alike.
module _ {ℓ} {A : Type ℓ} (less less' : A → A → Bool)
    (same : (a b : A) → less a b ≡ less' a b) where
  insert_sorted-ext : (a : A) (xs : List A) → insert_sorted less a xs ≡ insert_sorted less' a xs
  unfolding insert_sorted
  insert_sorted-ext a [] = refl
  insert_sorted-ext a (x ∷ xs) = rw (insert_sorted-ext a xs, same x a) refl

  pub sort_slice-ext : (xs : List A) → sort_slice less xs ≡ sort_slice less' xs
  unfolding sort_slice
  sort_slice-ext [] = refl
  sort_slice-ext (x ∷ xs) =
      ap (insert_sorted less x) (sort_slice-ext xs) ∙ insert_sorted-ext x (sort_slice less' xs)

module _ {ℓ} {A : Type ℓ} (less : A → A → Bool) where
  length-insert_sorted : (a : A) (xs : List A) → length (insert_sorted less a xs) ≡ suc (length xs)
  unfolding insert_sorted
  length-insert_sorted a [] = refl
  length-insert_sorted a (x ∷ xs) = ground (arith, length-insert_sorted a xs)

  pub length-sort_slice : (xs : List A) → length (sort_slice less xs) ≡ length xs
  unfolding sort_slice
  length-sort_slice [] = refl
  length-sort_slice (x ∷ xs) =
      length-insert_sorted x (sort_slice less xs) ∙ ap suc (length-sort_slice xs)

  module _ {κ} (P : A → Type κ) where
    All-insert_sorted : (a : A) (xs : List A) → P a → All P xs → All P (insert_sorted less a xs)
    unfolding insert_sorted
    All-insert_sorted a [] pa ps = (pa, tt)
    All-insert_sorted a (x ∷ xs) pa ps = elim (Bool-cases (less x a)) [
      | inl e ↦ rw e (ps.0, All-insert_sorted a xs pa ps.1)
      | inr e ↦ rw e (pa, ps)
    ]

    pub All-sort_slice : (xs : List A) → All P xs → All P (sort_slice less xs)
    unfolding sort_slice
    All-sort_slice [] ps = tt
    All-sort_slice (x ∷ xs) ps =
        All-insert_sorted x (sort_slice less xs) ps.0 (All-sort_slice xs ps.1)
