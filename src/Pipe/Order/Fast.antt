-- ===== src/Pipe/Order/Fast.antt =====
-- The single-field case of `sortPermRows` (pipe/helpers.go) against the general one, and the
-- indices as a permutation.
use Prim.Native.Nat.{Ordering}
use mathlib.Core.List.{Perm}
use mathlib.Core.List.Perm
use dql.Prelude.{
  ℕ, zero, suc, Bool, ◌≡◌, refl, sym, ◌∙◌, ap, subst, List, [], ◌∷◌, map, length, get_or, ltb,
  arith, sort_slice-ext, sort_slice-perm, if◌then◌else◌,
}
use dql.Go.Runtime.{Runtime}
use dql.Go.Value.{Value, nil}
use dql.Go.Row.{Row, field}
use dql.Go.Coerce.{compare_values, negate, is_lt, is_gt, is_eq}
use dql.Pipe.Order.{
  SortKey, perm_from, new_perm, key_of, order_keys, compare_keys, perm_less, sort_perm, single_less,
  sort_perm_rows,
}

get_or-map {ℓ κ} :
    {A : Type ℓ} {B : Type κ} (f : A → B) (xs : List A) (i : ℕ) (d : A)
    → get_or (map f xs) i (f d) ≡ f (get_or xs i d)
get_or-map f [] i d = refl
get_or-map f (x ∷ xs) zero d = refl
get_or-map f (x ∷ xs) (suc i) d = get_or-map f xs i d

map-perm_from {ℓ} :
    {A : Type ℓ} (f : ℕ → A) (i n : ℕ)
    → map f (perm_from (suc i) n) ≡ map (λ j. f (suc j)) (perm_from i n)
map-perm_from f i zero = refl
map-perm_from f i (suc n) = ap (◌∷◌ (f (suc i))) (map-perm_from f (suc i) n)

map-get_or {ℓ} :
    {A : Type ℓ} (xs : List A) (d : A) → map (λ i. get_or xs i d) (new_perm (length xs)) ≡ xs
map-get_or [] d = refl
map-get_or (x ∷ xs) d =
    ap (◌∷◌ x) (map-perm_from (λ i. get_or (x ∷ xs) i d) 0 (length xs) ∙ map-get_or xs d)

module _ (go : Runtime) where
  open go use {Float}

  -- What the sign of a comparison of one field decides.
  one_field :
      (desc : Bool) (c : Ordering) (later : Bool)
      → (if is_eq (if is_eq c then Ordering.eq else if desc then negate c else c)
          then later
          else is_lt (if is_eq c then Ordering.eq else if desc then negate c else c))
        ≡ (if is_eq c then later else if desc then is_gt c else is_lt c)
  one_field desc c later = ground arith

  single_less-row :
      (k : SortKey) (rows : List (Row Float)) (ia ib : ℕ)
      → single_less go k.desc (map (λ r. field r k.name) rows) ia ib
        ≡ perm_less go (k ∷ []) (map (key_of go (k ∷ [])) rows) ia ib
  unfolding compare_keys
  single_less-row k rows ia ib =
      let value : Row Float → Value Float = λ r. field r k.name in
      let key : Row Float → List (Value Float) = key_of go (k ∷ []) in
      let ra = get_or rows ia [] in
      let rb = get_or rows ib [] in
      let g : Ordering → Bool =
        λ c. if is_eq c then ltb ia ib else if k.desc then is_gt c else is_lt c in
      let h : Ordering → Bool = λ c. if is_eq c then ltb ia ib else is_lt c in
      ap (λ v. g (compare_values go v (get_or (map value rows) ib nil)))
        (get_or-map value rows ia [])
      ∙ ap (λ v. g (compare_values go (value ra) v)) (get_or-map value rows ib [])
      ∙ sym (one_field k.desc (compare_values go (value ra) (value rb)) (ltb ia ib))
      ∙ sym (ap (λ v. h (compare_keys go (k ∷ []) (key ra) v)) (get_or-map key rows ib []))
      ∙ sym (
          ap (λ v. h (compare_keys go (k ∷ []) v (get_or (map key rows) ib (key []))))
            (get_or-map key rows ia []))

  -- The single-field case of the sort orders the rows as the general case does.
  pub sort_perm_rows-general :
      (spec : List SortKey) (rows : List (Row Float))
      → sort_perm_rows go spec rows ≡ sort_perm go spec (order_keys go spec rows) (length rows)
  unfolding sort_perm_rows sort_perm order_keys
  sort_perm_rows-general [] rows = refl
  sort_perm_rows-general (k ∷ []) rows =
      sort_slice-ext _ _ (single_less-row k rows) (new_perm (length rows))
  sort_perm_rows-general (k ∷ j ∷ ks) rows = refl

  -- The rows read in the order of the sorted indices are the rows, each as often as it was there.
  pub sort_perm_rows-perm :
      (spec : List SortKey) (rows : List (Row Float))
      → Perm (map (λ p. get_or rows p []) (sort_perm_rows go spec rows)) rows
  unfolding sort_perm
  sort_perm_rows-perm spec rows =
      let pick : ℕ → Row Float = λ p. get_or rows p [] in
      rw (sort_perm_rows-general spec rows) (
        subst (Perm (map pick (sort_perm go spec (order_keys go spec rows) (length rows))))
          (map-get_or rows [])
          (Perm.map pick (
            sort_slice-perm (perm_less go spec (order_keys go spec rows))
              (new_perm (length rows)))))
