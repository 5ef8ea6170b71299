-- ===== src/Planner/Where.antt =====
-- `splitWhere` and `referencesVersionColumn` of planner/planner.go.
pub mod Split
pub mod Total
pub mod Kept
pub mod Sql
pub mod Read
use dql.Prelude.{
  String, Bool, true, false, not, ◌&&◌, ◌||◌, List, Option, none, some, contains, str_eq,
  if◌then◌else◌,
}
use dql.Dsl.Where.{
  WhereClause, clause, Clauses, done, more, MaybeClause, absent, present, has_any, and_clause,
  or_clause, not_clause,
}

-- `(pushed *WhereClause, needsInMem bool)`.
abbrev pub Parts : Type 0 → Type 0
Parts F = Option (WhereClause F) × Bool

module _ {F : Type 0} where
  -- The end of the AND branch: nil when nothing was pushed.
  abbrev pub conjunction : Clauses F → Option (WhereClause F)
  conjunction pushed = if has_any pushed then some (and_clause pushed) else none

  -- The loop body of the AND branch, for one operand.
  abbrev pub add_pushed : Option (WhereClause F) → Clauses F → Clauses F
  add_pushed none rest = rest
  add_pushed (some p) rest = more p rest

  -- The OR branch gives up at the first operand that is not pushed whole.
  abbrev pub add_whole : Parts F → Option (Clauses F) → Option (Clauses F)
  add_whole (p, true) rest = none
  add_whole (none, false) rest = none
  add_whole (some p, false) none = none
  add_whole (some p, false) (some ps) = some (more p ps)

  abbrev pub disjunction : Option (Clauses F) → Parts F
  disjunction none = (none, true)
  disjunction (some ps) = (some (or_clause ps), false)

  abbrev pub negation : Parts F → Parts F
  negation (p, true) = (none, true)
  negation (none, false) = (none, true)
  negation (some p, false) = (some (not_clause p), false)

  module _ (raw_columns computed_names : List String) where
    -- A simple condition. An unknown column is pushed too: the database reports the error.
    abbrev pub split_simple : WhereClause F → String → Parts F
    split_simple w name =
        if contains computed_names name
        then (none, true)
        else if contains raw_columns name
            || (str_eq name "workspace_id" || str_eq name "project_id")
        then (some w, false)
        else (some w, false)

    unfoldable mutual
      pub split_where : WhereClause F → Parts F
      split_where (clause f o v e ands ors neg) =
          let whole = clause f o v e ands ors neg in
          let (pushed, in_mem) = split_every ands in
          if not (str_eq e "")
          then (none, true)
          else if not (str_eq f "") && not (str_eq o "")
          then split_simple whole f
          else if has_any ands
          then (conjunction pushed, in_mem)
          else if has_any ors
          then disjunction (split_some ors)
          else split_not whole neg

      pub split_every : Clauses F → Clauses F × Bool
      split_every done = (done, false)
      split_every (more w ws) =
          let (p, in_mem) = split_where w in
          let (rest, rest_in_mem) = split_every ws in (add_pushed p rest, in_mem || rest_in_mem)

      pub split_some : Clauses F → Option (Clauses F)
      split_some done = some done
      split_some (more w ws) = add_whole (split_where w) (split_some ws)

      pub split_not : WhereClause F → MaybeClause F → Parts F
      split_not whole absent = (some whole, false)
      split_not whole (present w) = negation (split_where w)

unfoldable mutual
  -- Whether the user's clause names a version column anywhere.
  pub references_version_column : {F : Type 0} → WhereClause F → Bool
  references_version_column (clause f o v e ands ors neg) =
      str_eq f "_version"
      || (str_eq f "_is_current"
          || (str_eq f "_committed_at"
              || (str_eq f "_committed_by"
                  || (references_in ands || (references_in ors || references_not neg)))))

  pub references_in : {F : Type 0} → Clauses F → Bool
  references_in done = false
  references_in (more w ws) = references_version_column w || references_in ws

  pub references_not : {F : Type 0} → MaybeClause F → Bool
  references_not absent = false
  references_not (present w) = references_version_column w
