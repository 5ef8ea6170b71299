-- ===== src/Go/Row.antt =====
-- `map[string]any`, a row, as an association list with one entry for each key that is put. A read
-- sees the first entry of its key. Go's iteration order over a map is unspecified; what the
-- program computes from one does not depend on it, and here it is the order of the list.
use dql.Prelude.{
  String, ◌≡◌, refl, List, [], ◌∷◌, map, Option, none, some, arith, if◌then◌else◌, str_eq, eq_iff,
}
use dql.Go.Value.{Value, nil}

abbrev pub Row : Type 0 → Type 0
Row F = List (String × Value F)

module _ {ℓ} {V : Type ℓ} where
  -- `v, ok := m[k]`.
  abbrev pub lookup : List (String × V) → String → Option V
  lookup [] k = none
  lookup ((j, v) ∷ m) k = if str_eq j k then some v else lookup m k

  -- `m[k] = v`.
  unfoldable pub put : List (String × V) → String → V → List (String × V)
  put [] k v = (k, v) ∷ []
  put ((j, w) ∷ m) k v = let rest = put m k v in if str_eq j k then (k, v) ∷ m else (j, w) ∷ rest

  -- `delete(m, k)`.
  unfoldable pub remove : List (String × V) → String → List (String × V)
  remove [] k = []
  remove ((j, w) ∷ m) k = let rest = remove m k in if str_eq j k then rest else (j, w) ∷ rest

  pub lookup-put :
      (m : List (String × V)) (k j : String) (v : V)
      → lookup (put m k v) j ≡ (if str_eq k j then some v else lookup m j)
  unfolding put
  lookup-put [] k j v = refl
  lookup-put ((i, w) ∷ m) k j v =
      ground (arith, eq_iff k j, eq_iff i k, eq_iff i j, lookup-put m k j v)

  pub lookup-remove :
      (m : List (String × V)) (k j : String)
      → lookup (remove m k) j ≡ (if str_eq k j then none else lookup m j)
  unfolding remove
  lookup-remove [] k j = ground arith
  lookup-remove ((i, w) ∷ m) k j =
      ground (arith, eq_iff k j, eq_iff i k, eq_iff i j, lookup-remove m k j)

-- `m[k]`: nil when the key is absent.
abbrev pub field : {F : Type 0} → Row F → String → Value F
field r k = elim (lookup r k) [ none ↦ nil | some v ↦ v ]

-- The keys of a row, in the order of its list.
abbrev pub keys {ℓ} : {V : Type ℓ} → List (String × V) → List String
keys m = map (λ e. e.0) m
