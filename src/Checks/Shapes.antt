-- ===== src/Checks/Shapes.antt =====
-- The theorems on `dedupe` and on the expansion of references, and tests of the stages that change
-- the shape of rows.
use dql.Prelude.{ℕ, String, true, ◌≡◌, refl, [], ◌∷◌, none, some, ok, if◌then◌else◌, str_eq}
use dql.Prelude.Int.{pos}
use dql.Go.Value.{Value, nil, str, num, int, float64, other}
use dql.Go.Row.{Row}
use dql.Pipe.Rows.{distinct_apply}
use dql.Pipe.Quality.{dedupe_apply, drop_nulls_apply, fill_nulls_apply, FillNullsConfig}
use dql.Pipe.Quality.Dedupe.{dedupe_apply-distinct}
use dql.Pipe.Reshape.{PivotConfig, UnpivotConfig, pivot_apply, unpivot_apply}
use dql.Expand.Expander.{User, Expander, ExpandConfig, Entries, expand}
use dql.Expand.Direct.{expand_each, expand-direct}
use dql.Checks.{toy, ann, bob, people}

abbrev ann_again : Row ℕ
ann_again = ("name", str "ann") ∷ ("age", num int (pos 41)) ∷ []

dedupe_apply-distinct_example :
    dedupe_apply toy ("name" ∷ []) "first" [] (ann ∷ bob ∷ ann_again ∷ [])
    ≡ distinct_apply toy ("name" ∷ []) (ann ∷ bob ∷ ann_again ∷ [])
dedupe_apply-distinct_example =
    dedupe_apply-distinct toy ("name" ∷ []) "first" (ann ∷ bob ∷ ann_again ∷ []) refl refl

first_of_each :
    dedupe_apply toy ("name" ∷ []) "first" [] (ann ∷ bob ∷ ann_again ∷ []) ≡ ann ∷ bob ∷ []
unfolding dedupe_apply
first_of_each = refl

last_of_each :
    dedupe_apply toy ("name" ∷ []) "last" [] (ann ∷ bob ∷ ann_again ∷ []) ≡ ann_again ∷ bob ∷ []
unfolding dedupe_apply
last_of_each = refl

abbrev sale : String → String → ℕ → Row ℕ
sale who month n = ("who", str who) ∷ ("month", str month) ∷ ("n", num int (pos n)) ∷ []

abbrev by_month : PivotConfig ℕ
by_month = record {
  row_keys = "who" ∷ [];
  column_key = "month";
  value_field = "n";
  aggregate_fn = "sum";
  fill_value = nil;
  prefix = "m_";
}

pivoted :
    pivot_apply toy by_month (sale "ann" "feb" 2 ∷ sale "ann" "jan" 3 ∷ sale "ann" "jan" 4 ∷ [])
    ≡ (("who", str "ann") ∷ ("m_feb", float64 2) ∷ ("m_jan", float64 7) ∷ []) ∷ []
unfolding pivot_apply dql.Go.Value.sprint
pivoted = refl

abbrev by_name : UnpivotConfig
by_name = record { id_cols = "name" ∷ []; value_cols = []; name_as = "key"; value_as = "value" }

unpivoted :
    unpivot_apply by_name (ann ∷ [])
    ≡ (("name", str "ann") ∷ ("key", str "age") ∷ ("value", num int (pos 40)) ∷ []) ∷ []
unfolding unpivot_apply
unpivoted = refl

abbrev gap : Row ℕ
gap = ("name", nil) ∷ ("age", num int (pos 1)) ∷ []

abbrev carried : FillNullsConfig ℕ
carried = record {
  columns = "name" ∷ [];
  method = "lastvalue";
  fill = nil;
  partition_by = [];
  order_by = [];
}

filled :
    fill_nulls_apply toy carried (ann ∷ gap ∷ [])
    ≡ ok (ann ∷ (("name", str "ann") ∷ ("age", num int (pos 1)) ∷ []) ∷ [])
unfolding fill_nulls_apply
filled = refl

dropped_gap : drop_nulls_apply [] none (ann ∷ gap ∷ []) ≡ ann ∷ []
unfolding drop_nulls_apply
dropped_gap = refl

abbrev eve : User
eve = record { id = "u1"; display_name = "Eve"; email = "e"; avatar_url = "" }

abbrev directory : Expander
directory = record { users = some (λ id. if str_eq id "u1" then some eve else none); teams = none }

abbrev everything : ExpandConfig
everything = record { every = true; columns = [] }

abbrev as_text : Entries → Value ℕ
as_text entries = other "meta"

abbrev made_by_eve : Row ℕ
made_by_eve = ("name", str "doc") ∷ ("created_by", str "u1") ∷ []

expand-direct_example :
    expand as_text directory (some everything) (some people) (made_by_eve ∷ ann ∷ [])
    ≡ expand_each as_text directory (some everything) (some people) (made_by_eve ∷ ann ∷ [])
expand-direct_example =
    expand-direct as_text directory (some everything) (some people) (made_by_eve ∷ ann ∷ [])

expanded :
    expand as_text directory (some everything) (some people) (made_by_eve ∷ ann ∷ [])
    ≡ ok
        ((("name", str "doc") ∷ ("created_by", str "u1") ∷ ("_meta", other "meta") ∷ []) ∷ ann ∷ [])
unfolding expand
expanded = refl
