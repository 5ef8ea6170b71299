-- ===== src/Sqlgen/Condition.antt =====
-- `writeWhereClause` of sqlgen/sql_generator.go and the conditions that it writes.
use Prim.Native.String.{◌++◌ as str_append}
use dql.Prelude.{
  String, Bool, true, false, not, ◌&&◌, List, [], ◌∷◌, map, Option, none, some, str_eq,
  if◌then◌else◌,
}
use dql.Go.Runtime.{Runtime}
use dql.Go.Value.{Value, str, sprint}
use dql.Go.Text.{replace_char}
use dql.Go.Coerce.{to_slice}
use dql.Dsl.Where.{WhereClause, clause, Clauses, done, more, MaybeClause, absent, present, has_any}
use dql.Sqlgen.Emit.{Emit, write, bind_value, nothing, ◌⨾◌, join_emits}
use dql.Sqlgen.Ident.{quote_ident}

-- `dsl.SQLOpMap`, with the fallback to the operator itself.
unfoldable pub sql_op : String → String
sql_op op =
    if str_eq op "=="
    then "="
    else if str_eq op "like"
    then "LIKE"
    else if str_eq op "not_like"
    then "NOT LIKE"
    else if str_eq op "is_null"
    then "IS NULL"
    else if str_eq op "is_not_null"
    then "IS NOT NULL"
    else op

module _ (go : Runtime) where
  open go use {Float}

  -- The caller's text as a LIKE pattern that matches it literally.
  unfoldable pub escape_like : Value Float → String
  unfolding sprint replace_char
  escape_like v =
      replace_char b'_' "\\_" (replace_char b'%' "\\%" (replace_char b'\\' "\\\\" (sprint go v)))

  -- `writeAffixCondition`.
  unfoldable pub affix_condition : String → Value Float → String → String → Emit Float
  unfolding escape_like
  affix_condition col v prefix suffix =
      write (str_append col " LIKE ")
      ⨾ bind_value (str (str_append prefix (str_append (escape_like v) suffix)))
      ⨾ write " ESCAPE '\\'"

  abbrev pub in_list : String → Bool → List (Value Float) → Emit Float
  in_list col negate vs =
      write (str_append col (if negate then " NOT IN (" else " IN ("))
      ⨾ join_emits ", " (map bind_value vs)
      ⨾ write ")"

  abbrev pub in_values : String → Bool → Option (List (Value Float)) → Emit Float
  in_values col negate none = write (if negate then "TRUE" else "FALSE")
  in_values col negate (some []) = write (if negate then "TRUE" else "FALSE")
  in_values col negate (some (v ∷ vs)) = in_list col negate (v ∷ vs)

  -- `writeInCondition`.
  unfoldable pub in_condition : String → Value Float → Bool → Emit Float
  unfolding to_slice
  in_condition col v negate = in_values col negate (to_slice go v)

  abbrev pub between_values : String → Option (List (Value Float)) → Emit Float
  between_values col (some (a ∷ b ∷ [])) =
      write (str_append col " BETWEEN ") ⨾ bind_value a ⨾ write " AND " ⨾ bind_value b
  between_values col _ = write "FALSE"

  -- `writeBetweenCondition`.
  unfoldable pub between_condition : String → Value Float → Emit Float
  unfolding to_slice
  between_condition col v = between_values col (to_slice go v)

  -- `writeSimpleCondition`.
  unfoldable pub simple_condition : String → String → Value Float → Emit Float
  unfolding affix_condition in_condition between_condition sql_op quote_ident
  simple_condition field op v =
      let col = quote_ident field in
      if str_eq op "is_null"
      then write (str_append col " IS NULL")
      else if str_eq op "is_not_null"
      then write (str_append col " IS NOT NULL")
      else if str_eq op "in"
      then in_condition col v false
      else if str_eq op "not_in"
      then in_condition col v true
      else if str_eq op "between"
      then between_condition col v
      else if str_eq op "starts_with"
      then affix_condition col v "" "%"
      else if str_eq op "ends_with"
      then affix_condition col v "%" ""
      else if str_eq op "contains"
      then affix_condition col v "%" "%"
      else write (str_append col (str_append " " (str_append (sql_op op) " "))) ⨾ bind_value v

  unfoldable mutual
    -- `writeWhereClause`: nothing for a clause of no shape, an expression among them.
    pub where_clause : WhereClause Float → Emit Float
    where_clause (clause f o v e ands ors neg) =
        if not (str_eq f "") && not (str_eq o "")
        then simple_condition f o v
        else if has_any ands
        then write "(" ⨾ join_emits " AND " (where_clauses ands) ⨾ write ")"
        else if has_any ors
        then write "(" ⨾ join_emits " OR " (where_clauses ors) ⨾ write ")"
        else where_not neg

    pub where_clauses : Clauses Float → List (Emit Float)
    where_clauses done = []
    where_clauses (more w ws) = where_clause w ∷ where_clauses ws

    pub where_not : MaybeClause Float → Emit Float
    where_not absent = nothing
    where_not (present w) = write "NOT (" ⨾ where_clause w ⨾ write ")"
