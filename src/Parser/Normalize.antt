-- ===== src/Parser/Normalize.antt =====
-- What parser/parser.go does to a query that it accepts: parameters are put in, names of functions
-- and directions get one spelling.
use Prim.Native.Char.{code}
use dql.Prelude.{
  String, Bool, false, List, map, Option, none, some, is_nil, str_eq, ◌==◌, if◌then◌else◌,
}
use dql.Go.Runtime.{Runtime}
use dql.Go.Value.{Value, str}
use dql.Go.Row.{lookup}
use dql.Dsl.Where.{WhereClause, clause, Clauses, done, more, MaybeClause, absent, present}
use dql.Dsl.Query.{AggregateClause, OrderByClause, Query}

-- `strings.HasPrefix(s, "$")`.
abbrev pub is_reference : String → Bool
is_reference String.[] = false
is_reference (String.◌∷◌ c s) = code c == b'$'

module _ {F : Type 0} where
  -- `params[s]`, or the value as it was.
  abbrev pub resolved_or : Value F → Option (Value F) → Value F
  resolved_or v none = v
  resolved_or v (some w) = w

  -- The value of a clause: a text that names a parameter is replaced.
  abbrev pub resolve_value : List (String × Value F) → Value F → Value F
  resolve_value params (str s) =
      if is_reference s then resolved_or (str s) (lookup params s) else str s
  resolve_value params v = v

  -- `resolveWhereParams`.
  unfoldable mutual
    pub resolve_where : List (String × Value F) → WhereClause F → WhereClause F
    resolve_where params (clause f o v e ands ors neg) =
        clause f o (resolve_value params v) e (resolve_each params ands) (resolve_each params ors)
          (resolve_not params neg)

    pub resolve_each : List (String × Value F) → Clauses F → Clauses F
    resolve_each params done = done
    resolve_each params (more w ws) = more (resolve_where params w) (resolve_each params ws)

    pub resolve_not : List (String × Value F) → MaybeClause F → MaybeClause F
    resolve_not params absent = absent
    resolve_not params (present w) = present (resolve_where params w)

  abbrev pub resolve_maybe :
      List (String × Value F) → Option (WhereClause F) → Option (WhereClause F)
  resolve_maybe params none = none
  resolve_maybe params (some w) = some (resolve_where params w)

  -- `ResolveParameters`.
  unfoldable pub resolve_parameters : List (String × Value F) → Query F → Query F
  unfolding resolve_where
  resolve_parameters params q = if is_nil params then q else record q {
    filter = resolve_maybe params q.filter;
    having = resolve_maybe params q.having;
  }

module _ (go : Runtime) where
  open go use {Float, to_lower, to_upper}

  -- `NormalizeAggregateFns`.
  unfoldable pub normalize_aggregate_fns : Query Float → Query Float
  normalize_aggregate_fns q = record q {
    aggregate = map (λ (a : AggregateClause Float). record a { fn = to_upper a.fn }) q.aggregate;
  }

  -- `NormalizeOrderDir`.
  unfoldable pub normalize_order_dir : Query Float → Query Float
  normalize_order_dir q = record q {
    order_by =
        map
          (λ (o : OrderByClause). record o {
            dir = if str_eq o.dir "" then "asc" else to_lower o.dir;
          })
          q.order_by;
  }
