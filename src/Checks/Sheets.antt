-- ===== src/Checks/Sheets.antt =====
-- The theorems on a sheet's formulas: a tax on a price, and two formulas that wait for each other.
use dql.Prelude.{
  String, not, ◌≡◌, refl, List, [], ◌∷◌, none, ok, err, length, contains, str_eq, ◌⊎◌, false, true,
}
use dql.Sheet.Formula.{Formula, circular, validate_formulas}
use dql.Sheet.Formula.Checked.{validate_formulas_sound}
use dql.Sheet.Dag.{Refs, topo_sort}
use dql.Sheet.Dag.Ends.{topo_sort-answers}
use dql.Sheet.Dag.Degrees.{count}
use dql.Sheet.Dag.Complete.{topo_sort_complete}
use dql.Sheet.Dag.Order.{topo_sort_ordered}

abbrev price : Formula
price = record { as_name = "price"; expr = "net * count"; reduce_expr = "" }

abbrev tax : Formula
tax = record { as_name = "tax"; expr = "price * rate"; reduce_expr = "" }

abbrev tax_refs : Refs
tax_refs = ("price", "net" ∷ "count" ∷ []) ∷ ("tax", "price" ∷ "rate" ∷ "price" ∷ []) ∷ []

abbrev mutual_refs : Refs
mutual_refs = ("price", "tax" ∷ []) ∷ ("tax", "price" ∷ []) ∷ []

tax_last : topo_sort (tax ∷ price ∷ []) tax_refs ≡ ok (price ∷ tax ∷ [])
unfolding topo_sort
tax_last = refl

both_wait : topo_sort (tax ∷ price ∷ []) mutual_refs ≡ err (circular ("price" ∷ "tax" ∷ []))
unfolding topo_sort
both_wait = refl

topo_sort-answers_example :
    ((out : List Formula) × (topo_sort (tax ∷ price ∷ []) tax_refs ≡ ok out) × (length out ≡ 2))
    ⊎ ((names : List String) × (topo_sort (tax ∷ price ∷ []) tax_refs ≡ err (circular names)))
topo_sort-answers_example = topo_sort-answers (tax ∷ price ∷ []) tax_refs

tax_accepted : validate_formulas (tax ∷ price ∷ []) ≡ none
unfolding validate_formulas
tax_accepted = refl

topo_sort_ordered_example : contains ("price" ∷ []) "price" ≡ true
topo_sort_ordered_example =
    topo_sort_ordered (tax ∷ price ∷ []) tax_refs (price ∷ []) tax [] "price" tax_accepted tax_last
      refl refl

topo_sort_complete_example : count "tax" ("price" ∷ "tax" ∷ []) ≡ count "tax" ("tax" ∷ "price" ∷ [])
topo_sort_complete_example =
    topo_sort_complete (tax ∷ price ∷ []) tax_refs (price ∷ tax ∷ []) "tax" tax_accepted tax_last

accepted : validate_formulas (price ∷ tax ∷ []) ≡ none
unfolding validate_formulas
accepted = refl

validate_formulas_sound_example :
    (str_eq "tax" "" ≡ false)
    × (str_eq "price * rate" "" ≡ not (str_eq "" ""))
    × (contains ("price" ∷ []) "tax" ≡ false)
validate_formulas_sound_example = validate_formulas_sound (price ∷ []) tax [] accepted
