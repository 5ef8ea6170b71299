-- ===== src/Pipe/Text/Parse.antt =====
-- `ParseText` and `ParseTextLenient` of pipe/textual.go.
pub mod Lenient
use Prim.Native.Char.{Char}
use dql.Prelude.{
  ℕ, zero, suc, String, Bool, true, false, not, ◌&&◌, ◌||◌, List, [], ◌∷◌, ◌++◌, Option, none, some,
  contains, str_eq, if◌then◌else◌, Outcome, ok, err, ◌>>=◌, map_err,
}
use dql.Go.Runtime.{Runtime}
use dql.Go.Runes.{Unicode, trim}
use dql.Go.Value.{str}
use dql.Go.Row.{put, lookup}
use dql.Pipe.Operator.{Stage}
use dql.Pipe.Text.Split.{TextError, split_top_level}
use dql.Pipe.Text.Token.{Token, word, value, tokenize}
use dql.Pipe.Text.Config.{
  Setting, single, Config, StageError, wrong, wrong_at, is_ident, is_string, is_keyword,
}
use dql.Pipe.Text.Stages.{
  parse_where, parse_select, parse_compute, parse_sort, parse_limit, parse_skip, parse_group_by,
  parse_aggregate, parse_distinct, parse_flatten, parse_rename, parse_drop, parse_tap,
  parse_call_function, parse_call_app,
}
use dql.Pipe.Text.Reshape.{parse_pivot, parse_unpivot, parse_nest, parse_unnest_object}

-- The query that is made: its mode is "pipe", and the rest of it is left empty.
pub record PipeText (F J : Type 0) : Type 0 where
  pub dataset : String
  pub pipe : List (Stage (Config F J))

pub data ParseError : Type 0 where
  split_error : TextError → ParseError
  source_error : String → ParseError
  stage_error : ℕ → StageError → ParseError

pub record ParseDiagnostic : Type 0 where
  pub stage_index : ℕ
  pub op : String
  pub message : StageError
  pub missing : List String

-- `Known`: the names of the registry.
unfoldable pub known : List String → String → Bool
known registered name = contains registered name

-- `requiredFields`: from each operator's name in the catalog and the fields it requires.
abbrev pub or_none : Option (List String) → List String
or_none none = []
or_none (some fs) = fs

unfoldable pub required_fields : List (String × List String) → String → List String
required_fields catalog op = or_none (lookup catalog op)

module _ (go : Runtime) (u : Unicode) (J : Type 0) (parse_float : String → Option go.Float)
    (decode_object : String → Option J) where
  open go use {Float, to_lower}

  abbrev pub Parser : Type 0
  Parser = List Token → Outcome StageError (Config Float J)

  -- The values of `dispatch`.
  pub record Route : Type 0 where
    pub op : String
    pub parse : Parser

  -- `dispatch`.
  unfoldable pub dispatch : List (String × Route)
  unfolding parse_where parse_select parse_compute parse_sort parse_limit parse_skip parse_group_by
      parse_aggregate parse_distinct parse_flatten parse_rename parse_drop parse_tap
      parse_call_function parse_call_app parse_pivot parse_unpivot parse_nest parse_unnest_object
  dispatch =
      ("where", record { op = "filter"; parse = parse_where go J parse_float decode_object })
      ∷ ("select", record { op = "project"; parse = parse_select go J parse_float decode_object })
      ∷ ("compute", record { op = "compute"; parse = parse_compute go J parse_float decode_object })
      ∷ ("sort", record { op = "sort"; parse = parse_sort go J parse_float decode_object })
      ∷ ("limit", record { op = "limit"; parse = parse_limit go J parse_float decode_object })
      ∷ ("skip", record { op = "skip"; parse = parse_skip go J parse_float decode_object })
      ∷ (
        "groupby",
        record { op = "groupBy"; parse = parse_group_by go J parse_float decode_object },
      )
      ∷ (
        "aggregate",
        record { op = "aggregate"; parse = parse_aggregate go J parse_float decode_object },
      )
      ∷ (
        "distinct",
        record { op = "distinct"; parse = parse_distinct go J parse_float decode_object },
      )
      ∷ ("flatten", record { op = "flatten"; parse = parse_flatten go J parse_float decode_object })
      ∷ ("rename", record { op = "rename"; parse = parse_rename go J parse_float decode_object })
      ∷ ("drop", record { op = "drop"; parse = parse_drop go J parse_float decode_object })
      ∷ ("tap", record { op = "tap"; parse = parse_tap go J parse_float decode_object })
      ∷ (
        "callfunction",
        record { op = "callFunction"; parse = parse_call_function go J parse_float decode_object },
      )
      ∷ (
        "callapp",
        record { op = "callApp"; parse = parse_call_app go J parse_float decode_object },
      )
      ∷ ("pivot", record { op = "pivot"; parse = parse_pivot go J })
      ∷ ("unpivot", record { op = "unpivot"; parse = parse_unpivot go J })
      ∷ ("nest", record { op = "nest"; parse = parse_nest go J })
      ∷ ("unnestobject", record { op = "unnestObject"; parse = parse_unnest_object go J })
      ∷ []

  -- `parseSource`.
  unfoldable pub parse_source : List Char → Outcome ParseError String
  unfolding tokenize value
  parse_source seg = elim (tokenize u seg) [
    | [] ↦ err (source_error "textual: query must start with `source <dataset>`")
    | t ∷ ts ↦ elim ts [
      | [] ↦ err (source_error "textual: query must start with `source <dataset>`")
      | n ∷ us ↦
          if not (is_keyword go t "source")
          then err (source_error "textual: query must start with `source <dataset>`")
          else if is_ident n.kind || is_string n.kind
          then ok (value n)
          else err (source_error "textual: source expects a dataset name")
    ]
  ]

  -- `parseStage`; the configuration is marshalled to JSON, which cannot fail.
  unfoldable pub parse_stage : List Char → Outcome StageError (Stage (Config Float J))
  unfolding tokenize dispatch put
  parse_stage seg = elim (tokenize u seg) [
    | [] ↦ err (wrong "empty stage")
    | t ∷ ts ↦ elim (lookup dispatch (to_lower (word t))) [
      | none ↦ err (wrong_at "unknown stage" (word t))
      | some d ↦ d.parse ts >>= λ cfg.
          ok (record { op = d.op; id = ""; from = ""; config = put cfg "op" (single (str d.op)) })
    ]
  ]

  -- `firstStageKeyword`.
  abbrev pub canonical : String → String
  canonical first =
      if str_eq first "where"
      then "filter"
      else if str_eq first "select"
      then "project"
      else if str_eq first "groupby"
      then "groupBy"
      else if str_eq first "callfunction"
      then "callFunction"
      else if str_eq first "callapp"
      then "callApp"
      else if str_eq first "unnestobject"
      then "unnestObject"
      else first

  unfoldable pub first_stage_keyword : List Char → String
  unfolding tokenize
  first_stage_keyword seg = elim (tokenize u seg) [
    | [] ↦ ""
    | t ∷ ts ↦ canonical (to_lower (word t))
  ]

  abbrev pub trim_space : List Char → List Char
  trim_space s = trim u.is_space s

  -- The loop of `ParseText` over the segments from number `i`.
  unfoldable pub parse_stages :
      ℕ → List (List Char) → Outcome ParseError (List (Stage (Config Float J)))
  parse_stages i [] = ok []
  parse_stages i (seg ∷ segs) = map_err (stage_error i) (parse_stage (trim_space seg)) >>= λ s.
      parse_stages (suc i) segs >>= λ ss. ok (s ∷ ss)

  -- Both parsers up to their loops: the dataset, and the segments of the stages.
  unfoldable pub parse_head : List Char → Outcome ParseError (String × List (List Char))
  unfolding split_top_level parse_source trim
  parse_head text = map_err split_error (split_top_level text) >>= λ segments. elim segments [
    | [] ↦ err (source_error "textual: empty input")
    | head ∷ rest ↦ parse_source (trim_space head) >>= λ src. ok (src, rest)
  ]

  unfoldable pub parse_text : List Char → Outcome ParseError (PipeText Float J)
  unfolding parse_stages
  parse_text text =
      parse_head text >>= λ h. parse_stages 1 h.1 >>= λ ss. ok (record { dataset = h.0; pipe = ss })

  module _ (registered : List String) (catalog : List (String × List String)) where
    -- What a failed segment adds: a stage in its place, if its operator is known, and a diagnostic.
    unfoldable pub placeholder : List Char → List (Stage (Config Float J))
    unfolding first_stage_keyword known
    placeholder seg =
        let op = first_stage_keyword seg in
        if not (str_eq op "") && known registered op
        then record { op = op; id = ""; from = ""; config = ("op", single (str op)) ∷ [] } ∷ []
        else []

    unfoldable pub diagnose : ℕ → List Char → StageError → ParseDiagnostic
    unfolding first_stage_keyword known required_fields
    diagnose i seg e =
        let op = first_stage_keyword seg in
        record {
          stage_index = i;
          op = op;
          message = e;
          missing =
              if not (str_eq op "") && known registered op then required_fields catalog op else [];
        }

    -- What the loop of `ParseTextLenient` does with one segment, ahead of the others.
    abbrev pub add_segment :
        ℕ
        → List Char
        → Outcome StageError (Stage (Config Float J))
        → List (Stage (Config Float J)) × List ParseDiagnostic
        → List (Stage (Config Float J)) × List ParseDiagnostic
    add_segment i seg (ok s) (ss, ds) = (s ∷ ss, ds)
    add_segment i seg (err e) (ss, ds) = (placeholder seg ++ ss, diagnose i seg e ∷ ds)

    -- The loop, from the stage numbered `i` from 0.
    unfoldable pub lenient_stages :
        ℕ → List (List Char) → List (Stage (Config Float J)) × List ParseDiagnostic
    lenient_stages i [] = ([], [])
    lenient_stages i (seg ∷ segs) =
        add_segment i (trim_space seg) (parse_stage (trim_space seg)) (lenient_stages (suc i) segs)

    unfoldable pub parse_text_lenient :
        List Char → Outcome ParseError (PipeText Float J × List ParseDiagnostic)
    unfolding lenient_stages
    parse_text_lenient text = parse_head text >>= λ h.
        let (ss, ds) = lenient_stages 0 h.1 in ok (record { dataset = h.0; pipe = ss }, ds)
