-- ===== src/Checks.antt =====
-- Concrete data for the modules beside this one, on which the theorems are applied: a small stand-in
-- for Go's runtime, rows, queries, plans and operators.
use dql.Prelude.{
  ℕ, ◌+◌, ◌/◌, ltb, ◌==◌, String, Bool, true, false, List, [], ◌∷◌, Option, none, some, Outcome, ok,
  err, str_eq,
}
use dql.Prelude.Int.{ℤ, pos, pos_part}
use dql.Go.Runtime.{Runtime}
use dql.Go.Value.{nil, num, int, str, bool}
use dql.Go.Text.{decimal}
use dql.Go.Row.{Row}
use dql.Dsl.Where.{WhereClause, clause, simple_clause, and_clause, done, more, absent}
use dql.Dsl.Tree.{Evaluator}
use dql.Dsl.Query.{Query, DatasetInfo, ColumnMeta, QueryPlan}
use dql.Scope.{Scope, ScopeColumn}
mod Classic
mod Pipes
mod Sheets
mod Windows
mod Texts
mod Engine
mod Runs
mod Shapes

-- Natural numbers in place of floats.
abbrev pub toy : Runtime
toy = record {
  Float = ℕ;
  zero = 0;
  lt = ltb;
  eq = λ a b. a == b;
  add = λ a b. a + b;
  div = λ a b. a / b;
  of_int = pos_part;
  print64 = λ n. "f";
  print32 = λ n. "f";
  scan = λ s. 0;
  to_lower = λ s. s;
  to_upper = λ s. s;
  equal_fold = str_eq;
  has_prefix = str_eq;
  has_suffix = str_eq;
}

abbrev pub ann : Row ℕ
ann = ("name", str "ann") ∷ ("age", num int (pos 40)) ∷ []

abbrev pub bob : Row ℕ
bob = ("name", str "bob") ∷ ("age", num int (pos 7)) ∷ []

-- An expression evaluator that finds everything true.
abbrev pub yes : Evaluator ℕ
yes e row = ok (bool true)

abbrev pub named_bob : WhereClause ℕ
named_bob = simple_clause "name" "==" (str "bob")

abbrev pub is_adult : WhereClause ℕ
is_adult = simple_clause "adult" "==" (bool true)

abbrev pub expression : WhereClause ℕ
expression = clause "" "" nil "age < 18" done done absent

abbrev pub bob_and_expression : WhereClause ℕ
bob_and_expression = and_clause (more named_bob (more expression done))

abbrev pub query_of : Option (WhereClause ℕ) → Query ℕ
query_of w = record {
  dataset = "people";
  project_id = "p1";
  joins = [];
  filter = w;
  select = [];
  computed = [];
  group_by = [];
  aggregate = [];
  having = none;
  order_by = [];
  limit = some (pos 10);
  offset = none;
}

abbrev pub people : DatasetInfo
people = record {
  name = "people";
  table_name = "people";
  columns =
      record { name = "name"; type = "string"; source = "raw"; ref_dataset = "" }
      ∷ record { name = "age"; type = "number"; source = ""; ref_dataset = "" }
      ∷ [];
  versioned = false;
}

abbrev pub plan_of : Option (WhereClause ℕ) → QueryPlan ℕ
plan_of w = record {
  dataset = people;
  dataset_name = "people";
  table_name = "people";
  pushed_where = w;
  pushed_select = "name" ∷ [];
  pushed_order = [];
  pushed_group = [];
  pushed_aggs = [];
  pushed_limit = some (pos 10);
  pushed_offset = none;
  has_having = false;
  pushed_having = none;
  joins = [];
  in_memory = [];
  columns = [];
}

abbrev pub tenant : ScopeColumn ℕ
tenant = record { name = "workspace_id"; value = str "w1"; required = true; scope_joins = true }
