-- ===== src/Pipe/Text/Reshape.antt =====
-- The parsers of the stages that reshape rows in pipe/textual.go.
use dql.Prelude.{
  suc, String, Bool, true, false, not, ◌&&◌, ◌||◌, List, [], ◌∷◌, ◌++◌, none, some, is_nil, take,
  drop, if◌then◌else◌, Outcome, ok, err, ◌>>=◌,
}
use dql.Go.Runtime.{Runtime}
use dql.Go.Value.{bool, str}
use dql.Go.Row.{put}
use dql.Pipe.Text.Token.{Token, word, value}
use dql.Pipe.Text.Config.{
  single, texts, Config, StageError, wrong, wrong_at, is_word, split_on_comma, first_values,
  is_keyword, first_is, index_of_keyword,
}

abbrev pub last_is : List Token → String → Bool
last_is [] s = false
last_is (t ∷ []) s = is_word t s
last_is (t ∷ u ∷ ts) s = last_is (u ∷ ts) s

-- A list without its last element.
abbrev pub but_last : List Token → List Token
but_last [] = []
but_last (t ∷ []) = []
but_last (t ∷ u ∷ ts) = t ∷ but_last (u ∷ ts)

module _ (go : Runtime) (J : Type 0) where
  open go use {Float, to_lower}

  abbrev pub Parsed : Type 0
  Parsed = Outcome StageError (Config Float J)

  -- The value of a `pivot`: a field, or a function of one.
  unfoldable pub pivot_value : List Token → Parsed
  unfolding value
  pivot_value (v ∷ []) = ok (("valueField", single (str (value v))) ∷ [])
  pivot_value (f ∷ l ∷ x ∷ y ∷ ts) =
      if is_word l "(" && last_is (x ∷ y ∷ ts) ")"
      then elim (but_last (x ∷ y ∷ ts)) [
        | [] ↦ err (wrong "pivot: aggregate body must be a single field")
        | v ∷ more ↦
            if is_nil more
            then ok (
                ("aggregate", single (str (to_lower (word f))))
                ∷ ("valueField", single (str (value v)))
                ∷ [])
            else err (wrong "pivot: aggregate body must be a single field")
      ]
      else err (wrong "pivot: expected `<valueField>` or `<agg>(<valueField>)`")
  pivot_value _ = err (wrong "pivot: expected `<valueField>` or `<agg>(<valueField>)`")

  -- What stands before `for`.
  unfoldable pub pivot_head : List (List Token) → Parsed
  unfolding value pivot_value
  pivot_head ((c ∷ []) ∷ v ∷ []) =
      pivot_value v >>= λ cfg. ok (("columnKey", single (str (value c))) ∷ cfg)
  pivot_head (_ ∷ _ ∷ []) = err (wrong "pivot: columnKey must be a single identifier")
  pivot_head (_ ∷ _ ∷ _ ∷ _) = err (wrong "pivot: too many comma-separated parts before `for`")
  pivot_head _ = err (wrong "pivot: expected `<columnKey>, <agg>(<valueField>) for ...`")

  unfoldable pub parse_pivot : List Token → Parsed
  unfolding index_of_keyword split_on_comma first_values pivot_head
  parse_pivot toks = elim (index_of_keyword go toks "for") [
    | none ↦ err (wrong "pivot: expected `for <rowKey1>[, <rowKey2>...]`")
    | some i ↦ pivot_head (split_on_comma (take i toks)) >>= λ cfg.
        let row_keys = first_values (split_on_comma (drop (suc i) toks)) in
        if is_nil row_keys
        then err (wrong "pivot: at least one rowKey required after `for`")
        else ok (cfg ++ ("rowKeys", texts row_keys) ∷ [])
  ]

  -- The parts inside the parentheses behind `to`.
  unfoldable pub unpivot_names : List String → List (List Token) → Parsed
  unfolding value
  unpivot_names cols ((n ∷ []) ∷ (v ∷ []) ∷ []) = ok (
      ("valueCols", texts cols)
      ∷ ("nameAs", single (str (value n)))
      ∷ ("valueAs", single (str (value v)))
      ∷ [])
  unpivot_names cols _ = err (wrong "unpivot: `to (...)` expects exactly two identifiers")

  unfoldable pub unpivot_tail : List String → List Token → Parsed
  unfolding unpivot_names split_on_comma
  unpivot_tail cols (l ∷ a ∷ b ∷ c ∷ d ∷ ts) =
      if not (is_word l "(") || not (last_is (a ∷ b ∷ c ∷ d ∷ ts) ")")
      then err (wrong "unpivot: expected `to (<nameAs>, <valueAs>)`")
      else unpivot_names cols (split_on_comma (but_last (a ∷ b ∷ c ∷ d ∷ ts)))
  unpivot_tail cols _ = err (wrong "unpivot: expected `to (<nameAs>, <valueAs>)`")

  unfoldable pub parse_unpivot : List Token → Parsed
  unfolding index_of_keyword split_on_comma first_values unpivot_tail
  parse_unpivot toks = elim (index_of_keyword go toks "to") [
    | none ↦ err (wrong "unpivot: expected `<col>, <col>, ... to (<nameAs>, <valueAs>)`")
    | some i ↦
        let cols = first_values (split_on_comma (take i toks)) in
        if is_nil cols
        then err (wrong "unpivot: at least one value column required before `to`")
        else unpivot_tail cols (drop (suc i) toks)
  ]

  -- What stands behind `into <field>`.
  unfoldable pub nest_include : Config Float J → List Token → Parsed
  unfolding first_values split_on_comma
  nest_include cfg [] = ok cfg
  nest_include cfg (t ∷ ts) =
      if not (is_keyword go t "include")
      then err (wrong_at "nest: unexpected token after into-field" (word t))
      else (let include = first_values (split_on_comma ts) in
          if is_nil include
          then err (wrong "nest: `include` requires at least one column")
          else ok (cfg ++ ("include", texts include) ∷ []))

  unfoldable pub nest_into : List String → List Token → Parsed
  unfolding value nest_include
  nest_into by [] = err (wrong "nest: missing field name after `into`")
  nest_into by (t ∷ ts) = nest_include (("by", texts by) ∷ ("into", single (str (value t))) ∷ []) ts

  unfoldable pub parse_nest : List Token → Parsed
  unfolding index_of_keyword split_on_comma first_values nest_into
  parse_nest toks =
      if not (first_is go toks "by")
      then err (wrong "nest: expected `by <key1>[, <key2>...] into <field>`")
      else elim (index_of_keyword go toks "into") [
        | none ↦ err (wrong "nest: missing `into <field>`")
        | some i ↦
            let by = first_values (split_on_comma (drop 1 (take i toks))) in
            if is_nil by
            then err (wrong "nest: at least one `by` key required")
            else nest_into by (drop (suc i) toks)
      ]

  pub data UnnestOption : Type 0 where
    prefix_option drop_option other_option : UnnestOption

  abbrev pub unnest_option : Token → UnnestOption
  unnest_option t =
      if is_keyword go t "prefix"
      then prefix_option
      else if is_keyword go t "drop"
      then drop_option
      else other_option

  -- The loop of `parseUnnestObject`.
  unfoldable pub unnest_loop : Config Float J → List Token → Parsed
  unfolding put value
  unnest_loop cfg [] = ok cfg
  unnest_loop cfg (t ∷ []) = elim (unnest_option t) [
    | prefix_option ↦ err (wrong "unnestObject: prefix value missing")
    | drop_option ↦ ok (put cfg "drop" (single (bool true)))
    | other_option ↦ err (wrong_at "unnestObject: unexpected token" (word t))
  ]
  unnest_loop cfg (t ∷ v ∷ ts) = elim (unnest_option t) [
    | prefix_option ↦ unnest_loop (put cfg "prefix" (single (str (value v)))) ts
    | drop_option ↦ unnest_loop (put cfg "drop" (single (bool true))) (v ∷ ts)
    | other_option ↦ err (wrong_at "unnestObject: unexpected token" (word t))
  ]

  unfoldable pub parse_unnest_object : List Token → Parsed
  unfolding unnest_loop value
  parse_unnest_object [] = err (wrong "unnestObject: field is required")
  parse_unnest_object (f ∷ ts) = unnest_loop (("field", single (str (value f))) ∷ []) ts
