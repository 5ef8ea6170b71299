-- ===== src/Go/Coerce.antt =====
-- The coercions and comparisons of pipe/helpers.go, which processor/processor.go writes out again
-- with the same text.
use Prim.Native.Nat.{Ordering}
use Prim.Native.String.{compare as compare_text}
use dql.Prelude.{
  zero, Bool, true, false, not, ◌&&◌, List, map, Option, none, some, any, str_eq, if◌then◌else◌,
}
use dql.Prelude.Int.{ℤ, pos}
use dql.Go.Runtime.{Runtime}
use dql.Go.Value.{
  Value, nil, bool, num, float32, float64, str, array, strings, ints, floats, items, is_null,
  sprint, IntKind, int, int32, int64, uint8, uint16,
}

-- `val != 0` on an integer.
abbrev pub nonzero : ℤ → Bool
nonzero (pos zero) = false
nonzero n = true

-- The integer types that `toFloat` converts; it gives 0 for the others.
unfoldable pub floats_int : IntKind → Bool
floats_int int = true
floats_int int64 = true
floats_int int32 = true
floats_int _ = false

-- The integer types that `isNumeric` counts.
unfoldable pub numeric_int : IntKind → Bool
numeric_int uint8 = false
numeric_int uint16 = false
numeric_int _ = true

-- The integer types whose zero `toBool` reads as false; any other integer is true.
unfoldable pub bool_int : IntKind → Bool
bool_int int = true
bool_int int64 = true
bool_int _ = false

unfoldable pub is_numeric : {F : Type 0} → Value F → Bool
unfolding numeric_int
is_numeric (num k n) = numeric_int k
is_numeric (float32 f) = true
is_numeric (float64 f) = true
is_numeric _ = false

-- `-c` on the result of a comparison.
abbrev pub negate : Ordering → Ordering
negate Ordering.lt = Ordering.gt
negate Ordering.eq = Ordering.eq
negate Ordering.gt = Ordering.lt

abbrev pub is_lt : Ordering → Bool
is_lt Ordering.lt = true
is_lt _ = false

abbrev pub is_gt : Ordering → Bool
is_gt Ordering.gt = true
is_gt _ = false

abbrev pub is_eq : Ordering → Bool
is_eq Ordering.eq = true
is_eq _ = false

module _ (go : Runtime) where
  open go use {Float, lt, eq, of_int, scan}

  unfoldable pub to_float : Value Float → Float
  unfolding floats_int
  to_float (float64 f) = f
  to_float (float32 f) = f
  to_float (num k n) = if floats_int k then of_int n else go.zero
  to_float (str s) = scan s
  to_float _ = go.zero

  unfoldable pub to_bool : Value Float → Bool
  unfolding bool_int
  to_bool (bool b) = b
  to_bool (num k n) = if bool_int k then nonzero n else true
  to_bool (float64 f) = not (eq f go.zero)
  to_bool (str s) = not (str_eq s "") && (not (str_eq s "false") && not (str_eq s "0"))
  to_bool nil = false
  to_bool _ = true

  -- The numeric branch of `compareValues`.
  unfoldable pub compare_floats : Float → Float → Ordering
  compare_floats a b = if lt a b then Ordering.lt else if lt b a then Ordering.gt else Ordering.eq

  unfoldable pub compare_values : Value Float → Value Float → Ordering
  unfolding is_numeric to_float compare_floats sprint
  compare_values a b =
      if is_null a && is_null b
      then Ordering.eq
      else if is_null a
      then Ordering.lt
      else if is_null b
      then Ordering.gt
      else if is_numeric a && is_numeric b
      then compare_floats (to_float a) (to_float b)
      else compare_text (sprint go a) (sprint go b)

  unfoldable pub to_slice : Value Float → Option (List (Value Float))
  to_slice (array vs) = some (items vs)
  to_slice (strings ss) = some (map str ss)
  to_slice (ints ns) = some (map (num int) ns)
  to_slice (floats fs) = some (map float64 fs)
  to_slice _ = none

  unfoldable pub value_in : Value Float → Value Float → Bool
  unfolding to_slice
  value_in v list = elim (to_slice list) [
    | none ↦ false
    | some vs ↦ any (λ i. str_eq (sprint go i) (sprint go v)) vs
  ]
