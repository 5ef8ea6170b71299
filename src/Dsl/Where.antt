-- ===== src/Dsl/Where.antt =====
-- `WhereClause` of dsl/types.go and its three shapes. A clause is recursive, so its lists and its
-- optional negation are types of the same block.
use dql.Prelude.{String, Bool, true, false, not, ◌&&◌, ◌||◌, str_eq}
use dql.Go.Value.{Value, nil}

mutual
  pub data WhereClause (F : Type 0) : Type 0 where
    -- field, op, value, expr, and, or, not
    clause :
        String → String → Value F → String → Clauses F → Clauses F → MaybeClause F → WhereClause F

  pub data Clauses (F : Type 0) : Type 0 where
    done : Clauses F
    more : WhereClause F → Clauses F → Clauses F

  pub data MaybeClause (F : Type 0) : Type 0 where
    absent : MaybeClause F
    present : WhereClause F → MaybeClause F

module _ {F : Type 0} where
  abbrev pub where_field : WhereClause F → String
  where_field (clause f o v e ands ors neg) = f

  abbrev pub where_op : WhereClause F → String
  where_op (clause f o v e ands ors neg) = o

  abbrev pub where_value : WhereClause F → Value F
  where_value (clause f o v e ands ors neg) = v

  abbrev pub where_expr : WhereClause F → String
  where_expr (clause f o v e ands ors neg) = e

  -- `len(cs) > 0`.
  abbrev pub has_any : Clauses F → Bool
  has_any done = false
  has_any (more w ws) = true

  abbrev pub is_present : MaybeClause F → Bool
  is_present absent = false
  is_present (present w) = true

  abbrev pub is_simple : WhereClause F → Bool
  is_simple (clause f o v e ands ors neg) = not (str_eq f "") && not (str_eq o "")

  abbrev pub is_expr : WhereClause F → Bool
  is_expr (clause f o v e ands ors neg) = not (str_eq e "")

  abbrev pub is_compound : WhereClause F → Bool
  is_compound (clause f o v e ands ors neg) = has_any ands || has_any ors || is_present neg

  -- The literals `dsl.WhereClause{…}` that the program writes.
  abbrev pub and_clause : Clauses F → WhereClause F
  and_clause ws = clause "" "" nil "" ws done absent

  abbrev pub or_clause : Clauses F → WhereClause F
  or_clause ws = clause "" "" nil "" done ws absent

  abbrev pub not_clause : WhereClause F → WhereClause F
  not_clause w = clause "" "" nil "" done done (present w)

  abbrev pub simple_clause : String → String → Value F → WhereClause F
  simple_clause f o v = clause f o v "" done done absent
