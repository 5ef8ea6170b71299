-- ===== src/Parser/Accepted.antt =====
-- What a query that `Validate` (parser/parser.go) accepts is known to have.
use dql.Prelude.{String, Bool, true, false, ◌≡◌, refl, List, [], ◌∷◌, ◌++◌, arith, str_eq}
use dql.Go.Runtime.{Runtime}
use dql.Dsl.Query.{Query}
use dql.Parser.Validate.{
  error_if, is_negative, validate_maybe, each_error, join_errors, aggregate_errors, computed_errors,
  order_errors, select_errors, validate_classic, validate,
}

module _ {A : Type 0} where
  none_left : (xs ys : List A) → xs ++ ys ≡ [] → (xs ≡ []) × (ys ≡ [])
  none_left [] ys h = (refl, h)
  none_left (x ∷ xs) ys h = absurd (ground arith)

  behind : (xs ys : List A) → xs ++ ys ≡ [] → ys ≡ []
  behind xs ys h = (none_left xs ys h).1

no_error : (b : Bool) (f m : String) → error_if b f m ≡ [] → b ≡ false
no_error false f m h = refl
no_error true f m h = absurd (ground arith)

-- A classic query that is accepted has a dataset, and neither a negative limit nor a negative
-- offset.
pub validate-paging :
    (go : Runtime) (q : Query go.Float)
    → validate go false [] q ≡ []
    → (str_eq q.dataset "" ≡ false) × (is_negative q.limit ≡ false) × (is_negative q.offset ≡ false)
unfolding validate validate_classic
validate-paging go q h =
    let (from, classic) =
      none_left (error_if (str_eq q.dataset "") "from" "dataset name is required")
        (validate_classic go q) h in
    let h2 = behind (validate_maybe q.filter "where") _ classic in
    let h3 = behind (validate_maybe q.having "having") _ h2 in
    let h4 = behind (each_error join_errors "join" 0 q.joins) _ h3 in
    let h5 = behind (each_error (aggregate_errors go) "aggregate" 0 q.aggregate) _ h4 in
    let h6 = behind (each_error computed_errors "computed" 0 q.computed) _ h5 in
    let h7 = behind (each_error (order_errors go) "order_by" 0 q.order_by) _ h6 in
    let h8 = behind (each_error select_errors "select" 0 q.select) _ h7 in
    let (limit, h9) =
      none_left (error_if (is_negative q.limit) "limit" "limit must be non-negative") _ h8 in
    let (offset, h10) =
      none_left (error_if (is_negative q.offset) "offset" "offset must be non-negative") _ h9 in
    (no_error _ _ _ from, no_error _ _ _ limit, no_error _ _ _ offset)
