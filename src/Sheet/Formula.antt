-- ===== src/Sheet/Formula.antt =====
-- sheet/formula.go: a named calculation, and the check of a sheet's list of them.
pub mod Checked
use dql.Prelude.{
  ℕ, suc, String, Bool, true, false, not, ◌&&◌, List, [], ◌∷◌, ◌++◌, Option, none, some, contains,
  str_eq, if◌then◌else◌,
}

pub data Kind : Type 0 where
  kind_invalid : Kind
  kind_column : Kind
  kind_reduce : Kind

-- `as` is a keyword here.
pub record Formula : Type 0 where
  pub as_name : String
  pub expr : String
  pub reduce_expr : String

unfoldable pub kind : Formula → Kind
kind f =
    if not (str_eq f.expr "") && str_eq f.reduce_expr ""
    then kind_column
    else if not (str_eq f.reduce_expr "") && str_eq f.expr ""
    then kind_reduce
    else kind_invalid

unfoldable pub source : Formula → String
unfolding kind
source f = elim (kind f) [
  | kind_reduce ↦ f.reduce_expr
  | kind_column ↦ f.expr
  | kind_invalid ↦ f.expr
]

pub data SheetError : Type 0 where
  no_formulas : SheetError
  unnamed : ℕ → SheetError
  ambiguous : String → SheetError
  repeated : String → SheetError
  circular : List String → SheetError
  -- The index of a slice is out of range: the program panics.
  out_of_range : ℕ → SheetError
  -- Not of the program: a bounded loop was cut off.
  cut_off : SheetError

abbrev is_invalid : Kind → Bool
is_invalid kind_invalid = true
is_invalid kind_column = false
is_invalid kind_reduce = false

unfoldable pub validate_from : ℕ → List String → List Formula → Option SheetError
unfolding kind
validate_from i seen [] = none
validate_from i seen (f ∷ fs) =
    let rest = validate_from (suc i) (seen ++ f.as_name ∷ []) fs in
    if str_eq f.as_name ""
    then some (unnamed i)
    else if is_invalid (kind f)
    then some (ambiguous f.as_name)
    else if contains seen f.as_name
    then some (repeated f.as_name)
    else rest

-- `validateFormulas`; none is the nil error.
unfoldable pub validate_formulas : List Formula → Option SheetError
unfolding validate_from
validate_formulas [] = some no_formulas
validate_formulas (f ∷ fs) = validate_from 0 [] (f ∷ fs)
