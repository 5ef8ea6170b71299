-- ===== src/Sheet/Dag/Degrees.antt =====
-- What the degrees of `topoSort` (sheet/dag.go) count: the edges of a formula to formulas that are
-- not placed yet.
use dql.Prelude.{
  ℕ, ◌+◌, ◌-◌, String, Bool, true, false, not, ◌&&◌, ◌||◌, ◌≡◌, refl, List, [], ◌∷◌, ◌++◌, str_eq,
  arith, inl, inr, Bool-cases, if◌then◌else◌, eq_iff, contains,
}
use dql.Go.Row.{put, lookup-put}
use dql.Sheet.Formula.{Formula}
use dql.Sheet.Dag.{Degrees, degree, Edges, dependents, release}

abbrev pub bit : Bool → ℕ
bit true = 1
bit false = 0

abbrev pub count : String → List String → ℕ
count n [] = 0
count n (x ∷ xs) = bit (str_eq x n) + count n xs

-- The edges of `n` to names that are not in `placed`.
abbrev pub waits : Edges → List String → String → ℕ
waits [] placed n = 0
waits (e ∷ es) placed n = bit (str_eq e.0 n && not (contains placed e.1)) + waits es placed n

pub contains-snoc :
    (xs : List String) (y x : String) → contains (xs ++ y ∷ []) x ≡ (contains xs x || str_eq y x)
contains-snoc [] y x = ground arith
contains-snoc (z ∷ xs) y x = ground (arith, contains-snoc xs y x)

pub count-contains : (n : String) (xs : List String) → count n xs ≡ 0 → contains xs n ≡ false
count-contains n [] h = refl
count-contains n (x ∷ xs) h = ground (arith, count-contains n xs)

pub degree-put :
    (ds : Degrees) (k n : String) (v : ℕ)
    → degree (put ds k v) n ≡ (if str_eq k n then v else degree ds n)
degree-put ds k n v = elim (Bool-cases (str_eq k n)) [
  | inl e ↦ rw (lookup-put ds k n v, e) refl
  | inr e ↦ rw (lookup-put ds k n v, e) refl
]

pub release-degree :
    (fs : List Formula) (deps : List String) (ds : Degrees) (n : String)
    → degree (release fs deps ds).0 n ≡ degree ds n - count n deps
unfolding release
release-degree fs [] ds n = omega arith
release-degree fs (dep ∷ deps) ds n =
    let rest = release-degree fs deps (put ds dep (degree ds dep - 1)) n in
    let this = degree-put ds dep n (degree ds dep - 1) in ground (arith, eq_iff dep n)

-- Placing a name takes its edges from what the others wait for.
pub waits-snoc :
    (es : Edges) (placed : List String) (r n : String)
    → contains placed r ≡ false
    → waits es placed n ≡ waits es (placed ++ r ∷ []) n + count n (dependents es r)
unfolding dependents
waits-snoc [] placed r n h = omega arith
waits-snoc (e ∷ es) placed r n h =
    let rest = waits-snoc es placed r n h in
    ground (arith, contains-snoc placed r e.1, eq_iff e.1 r, eq_iff r e.1)
