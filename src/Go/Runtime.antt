-- ===== src/Go/Runtime.antt =====
-- What Go's runtime supplies and this library does not spell out: 64-bit floats and Unicode case.
-- A float32 stands here as the float64 that it widens to, which is exact.
use dql.Prelude.{String, Bool}
use dql.Prelude.Int.{ℤ}

pub record Runtime : Type 1 where
  pub Float : Type 0
  pub zero : Float
  -- `a < b`; false when either is NaN.
  pub lt : Float → Float → Bool
  -- `a == b`; false when either is NaN.
  pub eq : Float → Float → Bool
  -- `a + b` and `a / b`.
  pub add : Float → Float → Float
  pub div : Float → Float → Float
  -- The conversion `float64(n)`.
  pub of_int : ℤ → Float
  -- `fmt.Sprintf("%v", f)` of a float64 and of a float32.
  pub print64 : Float → String
  pub print32 : Float → String
  -- What `fmt.Sscanf(s, "%f", &f)` leaves in an `f` that was 0.
  pub scan : String → Float
  -- `strings.ToLower` and `strings.ToUpper`.
  pub to_lower : String → String
  pub to_upper : String → String
  -- `strings.EqualFold`.
  pub equal_fold : String → String → Bool
  -- `strings.HasPrefix` and `strings.HasSuffix`.
  pub has_prefix : String → String → Bool
  pub has_suffix : String → String → Bool
