-- ===== src/Pipe/Order.antt =====
-- The ordering of rows by an `orderBy` list: `orderSpec` of pipe/helpers.go.
use Prim.Native.Nat.{Ordering}
use dql.Prelude.{
  ℕ, zero, suc, String, Bool, true, false, List, [], ◌∷◌, map, length, get_or, ltb, sort_slice,
  str_eq, if◌then◌else◌,
}
use dql.Go.Runtime.{Runtime}
use dql.Go.Value.{Value, nil}
use dql.Go.Row.{Row, field}
use dql.Go.Coerce.{compare_values, negate, is_lt, is_gt, is_eq}
use dql.Dsl.Query.{OrderByClause}
pub mod Fast

-- `orderSpec`: its parallel slices of fields and directions, as one list.
pub record SortKey : Type 0 where
  pub name : String
  pub desc : Bool

-- `newPerm`: 0, 1, … below `n`.
abbrev pub perm_from : ℕ → ℕ → List ℕ
perm_from i zero = []
perm_from i (suc n) = i ∷ perm_from (suc i) n

abbrev pub new_perm : ℕ → List ℕ
new_perm n = perm_from 0 n

module _ (go : Runtime) where
  open go use {Float, equal_fold}

  -- `newOrderSpec`: clauses without a field are dropped.
  unfoldable pub new_order_spec : List OrderByClause → List SortKey
  new_order_spec [] = []
  new_order_spec (o ∷ os) =
      let rest = new_order_spec os in
      if str_eq o.field ""
      then rest
      else record { name = o.field; desc = equal_fold o.dir "desc" } ∷ rest

  -- A row of `keys`.
  abbrev pub key_of : List SortKey → Row Float → List (Value Float)
  key_of spec row = map (λ k. field row k.name) spec

  -- `keys`.
  unfoldable pub order_keys : List SortKey → List (Row Float) → List (List (Value Float))
  order_keys spec rows = map (key_of spec) rows

  -- `compare`, on two tuples as long as the spec.
  unfoldable pub compare_keys : List SortKey → List (Value Float) → List (Value Float) → Ordering
  unfolding compare_values
  compare_keys (k ∷ ks) (a ∷ as') (b ∷ bs) =
      let rest = compare_keys ks as' bs in
      let c = compare_values go a b in if is_eq c then rest else if k.desc then negate c else c
  compare_keys _ _ _ = Ordering.eq

  -- The comparison of two indices in `sortPerm`. Every index is in range there; the key of a row
  -- without fields stands for the panic of one that is not.
  abbrev pub perm_less : List SortKey → List (List (Value Float)) → ℕ → ℕ → Bool
  perm_less spec keys ia ib =
      let c =
        compare_keys spec (get_or keys ia (key_of spec [])) (get_or keys ib (key_of spec [])) in
      if is_eq c then ltb ia ib else is_lt c

  unfoldable pub sort_perm : List SortKey → List (List (Value Float)) → ℕ → List ℕ
  unfolding compare_keys sort_slice
  sort_perm spec keys n = sort_slice (perm_less spec keys) (new_perm n)

  -- The comparison of the single-field case, whose keys are one flat slice.
  abbrev pub single_less : Bool → List (Value Float) → ℕ → ℕ → Bool
  single_less desc keys ia ib =
      let c = compare_values go (get_or keys ia nil) (get_or keys ib nil) in
      if is_eq c then ltb ia ib else if desc then is_gt c else is_lt c

  -- `sortPermRows`.
  unfoldable pub sort_perm_rows : List SortKey → List (Row Float) → List ℕ
  unfolding compare_values sort_perm order_keys sort_slice
  sort_perm_rows (k ∷ []) rows =
      sort_slice (single_less k.desc (map (λ r. field r k.name) rows)) (new_perm (length rows))
  sort_perm_rows spec rows = sort_perm spec (order_keys spec rows) (length rows)
