-- ===== src/Parser/Validate.antt =====
-- `Validate` of parser/parser.go, but for the shape of a pipe.
use Prim.Native.String.{◌++◌ as str_append}
use dql.Prelude.{
  ℕ, suc, String, Bool, true, false, not, ◌&&◌, ◌||◌, List, [], ◌∷◌, ◌++◌, Option, none, some,
  contains, is_nil, str_eq, if◌then◌else◌,
}
use dql.Prelude.Int.{ℤ, pos, negsuc}
use dql.Go.Runtime.{Runtime}
use dql.Go.Value.{is_null}
use dql.Go.Text.{decimal}
use dql.Dsl.Where.{
  WhereClause, clause, Clauses, done, more, MaybeClause, absent, present, is_simple, is_expr,
  is_compound,
}
use dql.Dsl.Query.{SelectField, ComputedColumn, AggregateClause, OrderByClause, JoinClause, Query}
use dql.Pipe.Grouping.{valid_aggregate_fns}

-- `ParseError`.
pub record FieldError : Type 0 where
  pub field : String
  pub message : String

-- `ValidWhereOps`.
abbrev pub valid_where_ops : List String
valid_where_ops =
    "==" ∷ "!=" ∷ ">" ∷ "<" ∷ ">=" ∷ "<=" ∷ "in" ∷ "not_in" ∷ "like" ∷ "not_like" ∷ "starts_with"
    ∷ "ends_with" ∷ "contains" ∷ "is_null" ∷ "is_not_null" ∷ "between" ∷ []

-- `ValidJoinTypes`.
abbrev pub valid_join_types : List String
valid_join_types = "inner" ∷ "left" ∷ "right" ∷ "full" ∷ "cross" ∷ []

-- An error, if the test is met.
abbrev pub error_if : Bool → String → String → List FieldError
error_if true f m = record { field = f; message = m } ∷ []
error_if false f m = []

-- `fmt.Sprintf("%s[%d]", name, i)`.
unfoldable pub indexed : String → ℕ → String
unfolding decimal
indexed name i = str_append name (str_append "[" (str_append (decimal i) "]"))

-- `fmt.Sprintf("%s %q", message, s)`, for a text that `%q` only puts into quotes.
abbrev pub quoting : String → String → String
quoting message s = str_append message (str_append " \"" (str_append s "\""))

-- The errors of a list's elements, each at its index.
module _ {ℓ} {A : Type ℓ} where
  abbrev pub each_error : (String → A → List FieldError) → String → ℕ → List A → List FieldError
  each_error f name i [] = []
  each_error f name i (x ∷ xs) = f (indexed name i) x ++ each_error f name (suc i) xs

module _ {F : Type 0} where
  -- What `validateWhere` says of one clause, without its children.
  unfoldable pub clause_errors : WhereClause F → String → List FieldError
  clause_errors (clause f o v e ands ors neg) path =
      let w = clause f o v e ands ors neg in
      if is_simple w
      then error_if (not (contains valid_where_ops o)) (str_append path ".op")
          (quoting "unknown operator" o)
        ++ error_if (not (str_eq o "is_null") && (not (str_eq o "is_not_null") && is_null v))
            (str_append path ".value") (str_append "value is required for operator " o)
      else error_if (not (is_expr w) && not (is_compound w)) path
          "where clause must have field+op, expr, or and/or/not"

  -- `validateWhere`.
  unfoldable mutual
    pub validate_where : WhereClause F → String → List FieldError
    validate_where (clause f o v e ands ors neg) path =
        clause_errors (clause f o v e ands ors neg) path
        ++ (validate_each ands (str_append path ".and") 0
            ++ (validate_each ors (str_append path ".or") 0
                ++ validate_not neg (str_append path ".not")))

    pub validate_each : Clauses F → String → ℕ → List FieldError
    validate_each done path i = []
    validate_each (more w ws) path i =
        validate_where w (indexed path i) ++ validate_each ws path (suc i)

    pub validate_not : MaybeClause F → String → List FieldError
    validate_not absent path = []
    validate_not (present w) path = validate_where w path

  abbrev pub validate_maybe : Option (WhereClause F) → String → List FieldError
  validate_maybe none path = []
  validate_maybe (some w) path = validate_where w path

abbrev pub is_negative : Option ℤ → Bool
is_negative none = false
is_negative (some (pos n)) = false
is_negative (some (negsuc n)) = true

abbrev pub has_value : {A : Type 0} → Option A → Bool
has_value none = false
has_value (some a) = true

unfoldable pub join_errors : String → JoinClause → List FieldError
join_errors path j =
    error_if (str_eq j.dataset "") (str_append path ".dataset") "dataset is required"
    ++ (error_if (str_eq j.on_left "" || str_eq j.on_right "") (str_append path ".on")
          "both left and right columns are required"
        ++ (if str_eq j.type ""
            then error_if true (str_append path ".type") "join type is required"
            else error_if (not (contains valid_join_types j.type)) (str_append path ".type")
                (quoting "unknown join type" j.type)))

unfoldable pub computed_errors : String → ComputedColumn → List FieldError
computed_errors path c =
    error_if (str_eq c.name "") (str_append path ".name") "computed column name is required"
    ++ error_if (str_eq c.expr "") (str_append path ".expr")
        "computed column expression is required"

unfoldable pub select_errors : String → SelectField → List FieldError
select_errors path s =
    error_if (str_eq s.field "" && str_eq s.expr "") path "field or expr is required"

module _ (go : Runtime) where
  open go use {Float, to_lower, to_upper}

  unfoldable pub aggregate_errors : String → AggregateClause Float → List FieldError
  aggregate_errors path a =
      (if str_eq a.fn ""
        then error_if true (str_append path ".fn") "aggregate function is required"
        else error_if (not (contains valid_aggregate_fns (to_upper a.fn))) (str_append path ".fn")
            (quoting "unknown aggregate function" a.fn))
      ++ (error_if (str_eq a.as_name "") (str_append path ".as") "output alias is required"
          ++ error_if (str_eq (to_upper a.fn) "EXPR" && str_eq a.expr "") (str_append path ".expr")
              "expr is required for EXPR aggregate")

  unfoldable pub order_errors : String → OrderByClause → List FieldError
  order_errors path o =
      let dir = to_lower o.dir in
      error_if (str_eq o.field "" && str_eq o.expr "") path "field or expr is required"
      ++ error_if (not (str_eq o.dir "") && (not (str_eq dir "asc") && not (str_eq dir "desc")))
          (str_append path ".dir")
          (str_append (quoting "invalid direction" o.dir) ", must be asc or desc")

  -- `Validate` behind the check of the pipe: the clauses of a classic query.
  unfoldable pub validate_classic : Query Float → List FieldError
  unfolding validate_where join_errors aggregate_errors computed_errors order_errors select_errors
  validate_classic q =
      validate_maybe q.filter "where"
      ++ (validate_maybe q.having "having"
          ++ (each_error join_errors "join" 0 q.joins
              ++ (each_error aggregate_errors "aggregate" 0 q.aggregate
                  ++ (each_error computed_errors "computed" 0 q.computed
                      ++ (each_error order_errors "order_by" 0 q.order_by
                          ++ (each_error select_errors "select" 0 q.select
                              ++ (error_if (is_negative q.limit) "limit"
                                    "limit must be non-negative"
                                  ++ (error_if (is_negative q.offset) "offset"
                                        "offset must be non-negative"
                                      ++ error_if
                                          (has_value q.having
                                            && (is_nil q.group_by && is_nil q.aggregate))
                                          "having" "having requires group_by or aggregate"))))))))

  -- `Validate`, given whether the query is in pipe mode and the errors of its pipe.
  unfoldable pub validate : Bool → List FieldError → Query Float → List FieldError
  unfolding validate_classic
  validate pipe_mode pipe_errors q =
      error_if (str_eq q.dataset "") "from" "dataset name is required"
      ++ (if pipe_mode then pipe_errors else validate_classic q)
