-- ===== src/Pipe/Graph.antt =====
-- The graph that stage ids and `from` references make (pipe/planner.go).
use Prim.Native.Char.{Char, code}
use dql.Prelude.{
  ℕ, zero, suc, String, Bool, true, false, not, ◌&&◌, ◌||◌, List, [], ◌∷◌, Option, none, some,
  contains, leb, ◌==◌, str_eq, if◌then◌else◌,
}
use dql.Pipe.Operator.{PipeError, invalid_id, duplicate_id, unknown_from, own_id, Stage}
pub mod Sound

abbrev is_letter : Char → Bool
is_letter c =
    code c == b'_'
    || ((leb b'a' (code c) && leb (code c) b'z') || (leb b'A' (code c) && leb (code c) b'Z'))

abbrev is_digit : Char → Bool
is_digit c = leb b'0' (code c) && leb (code c) b'9'

abbrev is_identifier_tail : String → Bool
is_identifier_tail String.[] = true
is_identifier_tail (String.◌∷◌ c s) = (is_letter c || is_digit c) && is_identifier_tail s

-- `isValidStageID`.
unfoldable pub is_valid_stage_id : String → Bool
is_valid_stage_id String.[] = false
is_valid_stage_id (String.◌∷◌ c s) = is_letter c && is_identifier_tail s

-- The first error of two, in order.
abbrev pub first_error : Option PipeError → Option PipeError → Option PipeError
first_error (some e) rest = some e
first_error none rest = rest

module _ {J : Type 0} where
  -- `seen[s.ID] = true`, for a stage that has an id.
  abbrev pub declare : Stage J → List String → List String
  declare s seen = if str_eq s.id "" then seen else s.id ∷ seen

  -- What is wrong with the id of stage `i`, and with its reference; `seen` are the ids before.
  unfoldable pub check_id : ℕ → Stage J → List String → Option PipeError
  unfolding is_valid_stage_id
  check_id i s seen =
      if str_eq s.id ""
      then none
      else if not (is_valid_stage_id s.id)
      then some (invalid_id i s.id)
      else if contains seen s.id
      then some (duplicate_id i s.id)
      else none

  unfoldable pub check_from : ℕ → Stage J → List String → Option PipeError
  check_from i s seen =
      if str_eq s.from ""
      then none
      else if not (contains (declare s seen) s.from)
      then some (unknown_from i s.from)
      else if str_eq s.from s.id
      then some (own_id i s.id)
      else none

  unfoldable pub validate_from : ℕ → List String → List (Stage J) → Option PipeError
  unfolding check_id check_from
  validate_from i seen [] = none
  validate_from i seen (s ∷ ss) =
      first_error (check_id i s seen)
        (first_error (check_from i s seen) (validate_from (suc i) (declare s seen) ss))

  -- `validateStageGraph`; none is the nil error.
  unfoldable pub validate_stage_graph : List (Stage J) → Option PipeError
  unfolding validate_from
  validate_stage_graph stages = validate_from 0 [] stages
