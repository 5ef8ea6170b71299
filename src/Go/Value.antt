-- ===== src/Go/Value.antt =====
-- Go's `any`, by the dynamic types that the program's type switches tell apart.
use dql.Prelude.{String, Bool, true, false, List, [], ◌∷◌, map}
use Prim.Native.String.{◌++◌ as str_append}
use dql.Prelude.Int.{ℤ}
use dql.Go.Runtime.{Runtime}
use dql.Go.Text.{join, decimal_int}

pub data IntKind : Type 0 where
  int int8 int16 int32 int64 uint uint8 uint16 uint32 uint64 : IntKind

-- `other` is a value of any other dynamic type (a map, a `time.Time`, …): all that the program
-- does with it is to print it.
mutual
  pub data Value (F : Type 0) : Type 0 where
    nil : Value F
    bool : Bool → Value F
    num : IntKind → ℤ → Value F
    float32 float64 : F → Value F
    str : String → Value F
    array : Values F → Value F
    strings : List String → Value F
    ints : List ℤ → Value F
    floats : List F → Value F
    other : String → Value F

  pub data Values (F : Type 0) : Type 0 where
    empty : Values F
    item : Value F → Values F → Values F

abbrev pub items : {F : Type 0} → Values F → List (Value F)
items empty = []
items (item v vs) = v ∷ items vs

-- `v == nil`.
abbrev pub is_null : {F : Type 0} → Value F → Bool
is_null nil = true
is_null (bool b) = false
is_null (num k n) = false
is_null (float32 f) = false
is_null (float64 f) = false
is_null (str s) = false
is_null (array vs) = false
is_null (strings ss) = false
is_null (ints ns) = false
is_null (floats fs) = false
is_null (other s) = false

abbrev pub bracketed : String → String
bracketed s = str_append "[" (str_append s "]")

module _ (go : Runtime) where
  open go use {Float, print64, print32}

  unfoldable mutual
    -- `fmt.Sprintf("%v", v)`.
    pub sprint : Value Float → String
    sprint nil = "<nil>"
    sprint (bool true) = "true"
    sprint (bool false) = "false"
    sprint (num k n) = decimal_int n
    sprint (float32 f) = print32 f
    sprint (float64 f) = print64 f
    sprint (str s) = s
    sprint (array vs) = bracketed (join " " (sprint_items vs))
    sprint (strings ss) = bracketed (join " " ss)
    sprint (ints ns) = bracketed (join " " (map decimal_int ns))
    sprint (floats fs) = bracketed (join " " (map print64 fs))
    sprint (other s) = s

    pub sprint_items : Values Float → List String
    sprint_items empty = []
    sprint_items (item v vs) = sprint v ∷ sprint_items vs
