-- ===== src/Pipe/Columns/Fields.antt =====
-- The columns that `drop` and `rename` (pipe/project.go) leave in a row.
use dql.Prelude.{
  String, ◌≡◌, refl, List, [], ◌∷◌, Option, none, some, Option-cases, contains, arith, inl, inr,
  str_eq, if◌then◌else◌,
}
use dql.Go.Value.{Value}
use dql.Go.Row.{Row, lookup, put, remove, lookup-put, lookup-remove}
use dql.Pipe.Columns.{drop_columns, rename_row}

module _ {F : Type 0} where
  -- `drop` takes away the columns that it names, and leaves every other column as it was.
  pub drop_columns-lookup :
      (columns : List String) (row : Row F) (k : String)
      → lookup (drop_columns columns row) k ≡ (if contains columns k then none else lookup row k)
  unfolding drop_columns
  drop_columns-lookup [] row k = refl
  drop_columns-lookup (c ∷ cs) row k =
      rw (drop_columns-lookup cs (remove row c) k, lookup-remove row c k) (ground arith)

  -- The column `k` of a row after a renaming, from the renamed column and from `k` before.
  abbrev pub renamed :
      String → String → String → Option (Value F) → Option (Value F) → Option (Value F)
  renamed from to k none old = old
  renamed from to k (some v) old =
      if str_eq from k then none else if str_eq to k then some v else old

  -- Renaming one column: where it is there, the old name is gone, even where it is the new name
  -- too, the new name has its value, and every other column is as it was; where it is not there,
  -- every column is as it was.
  pub rename_row-lookup :
      (from to : String) (row : Row F) (k : String)
      → lookup (rename_row ((from, to) ∷ []) row) k
        ≡ renamed from to k (lookup row from) (lookup row k)
  unfolding rename_row
  rename_row-lookup from to row k = elim (Option-cases (lookup row from)) [
    | inl e ↦ rw e refl
    | inr e ↦ rw (e.1, lookup-remove (put row to e.0) from k, lookup-put row to k e.0) refl
  ]
