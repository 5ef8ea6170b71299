-- ===== src/Parser/Shape.antt =====
-- `ValidateShape` of pipe/validate.go, and `ValidatePipeShape` of parser/parser.go.
use dql.Prelude.{
  ℕ, suc, String, Bool, false, not, List, [], ◌∷◌, ◌++◌, map, Option, none, some, Outcome, ok, err,
  str_eq, if◌then◌else◌,
}
use dql.Go.Text.{contains_text}
use dql.Pipe.Operator.{PipeError, bad_config, at_stage, under, Stage, Operator, Factory, build}
use dql.Pipe.Text.Parse.{known}

-- The message of a `ShapeError`: a text of the check itself, or the error of a factory.
pub data ShapeMessage : Type 0 where
  says : String → ShapeMessage
  refused : PipeError → ShapeMessage

pub record ShapeError : Type 0 where
  -- none is the index -1
  pub stage_index : Option ℕ
  pub op : String
  pub message : ShapeMessage

-- `isServiceMissing`: whether the text of an error holds "not available".
unfoldable pub is_service_missing : PipeError → Bool
unfolding contains_text
is_service_missing (bad_config s) = contains_text s "not available"
is_service_missing (at_stage i name e) = is_service_missing e
is_service_missing (under name e) = is_service_missing e
is_service_missing _ = false

module _ {J F W : Type 0} (registry : List (String × Factory J F W)) where
  abbrev pub registered : List String
  registered = map (λ r. r.0) registry

  -- What the loop says of one stage.
  abbrev pub built_errors : ℕ → Stage J → Outcome PipeError (Operator F W) → List ShapeError
  built_errors i s (ok op) = []
  built_errors i s (err e) =
      if is_service_missing e
      then []
      else record { stage_index = some i; op = s.op; message = refused e } ∷ []

  unfoldable pub stage_errors : ℕ → Stage J → List ShapeError
  unfolding known build is_service_missing
  stage_errors i s =
      if str_eq s.op ""
      then record { stage_index = some i; op = ""; message = says "op is required" } ∷ []
      else if not (known registered s.op)
      then record { stage_index = some i; op = s.op; message = says "unknown op" } ∷ []
      else built_errors i s (build registry s)

  unfoldable pub stages_errors : ℕ → List (Stage J) → List ShapeError
  unfolding stage_errors
  stages_errors i [] = []
  stages_errors i (s ∷ ss) = stage_errors i s ++ stages_errors (suc i) ss

  -- `ValidateShape`; the registry's factories are those for an `OpContext` that is nil.
  unfoldable pub validate_shape : List (Stage J) → List ShapeError
  unfolding stages_errors
  validate_shape [] =
      record { stage_index = none; op = ""; message = says "pipe must contain at least one stage" }
      ∷ []
  validate_shape (s ∷ ss) = stages_errors 0 (s ∷ ss)
