-- ===== src/Checks/Windows.antt =====
-- The theorems on the stage `window`, at the data of the parent.
use dql.Prelude.{ℕ, ◌≡◌, refl, List, [], ◌∷◌, map, ok, get_or}
use dql.Prelude.Int.{pos}
use dql.Go.Value.{nil, num, int}
use dql.Go.Row.{Row, lookup, put}
use dql.Go.Text.{decimal_int}
use dql.Pipe.Order.{compare_keys}
use dql.Pipe.Window.{WindowConfig, window_apply, rank_loop, dense_loop, number_loop}
use dql.Pipe.Window.Ranks.{AreInOrder, ranks-AreInOrder, window_apply-lookup}
use dql.Pipe.Window.Ties.{ranks-ties}
use dql.Checks.{toy, ann, bob}

abbrev by_age : WindowConfig ℕ
by_age = record {
  fn = "rank";
  partition_by = [];
  order_by = record { field = "age"; dir = "asc"; expr = "" } ∷ [];
  field_name = "";
  offset = pos 0;
  as_name = "place";
  default_value = nil;
}

-- Two rows of the same age, and one of a greater age.
abbrev people : List (Row ℕ)
people = bob ∷ ann ∷ bob ∷ []

abbrev places : List (Row ℕ)
places =
    put bob "place" (num int (pos 1))
    ∷ put ann "place" (num int (pos 3))
    ∷ put bob "place" (num int (pos 1))
    ∷ []

ann_is_third : window_apply toy by_age people ≡ ok places
unfolding window_apply put compare_keys decimal_int
ann_is_third = refl

ranks-AreInOrder_example :
    AreInOrder
      (dense_loop 0 0 "" ("1" ∷ "1" ∷ "2" ∷ []))
      (rank_loop 0 0 "" ("1" ∷ "1" ∷ "2" ∷ []))
      (number_loop 0 ("1" ∷ "1" ∷ "2" ∷ []))
ranks-AreInOrder_example = ranks-AreInOrder ("1" ∷ "1" ∷ "2" ∷ [])

window_apply-lookup_example :
    map (λ row. lookup row "age") places ≡ map (λ row. lookup row "age") people
window_apply-lookup_example = window_apply-lookup toy by_age people places "age" ann_is_third refl

-- The second and the third of four rows, which tie.
ranks-ties_example :
    (get_or (rank_loop 0 0 "" ("1" ∷ "2" ∷ "2" ∷ "3" ∷ [])) 2 0 ≡ 2)
    × (get_or (dense_loop 0 0 "" ("1" ∷ "2" ∷ "2" ∷ "3" ∷ [])) 2 0 ≡ 2)
unfolding rank_loop dense_loop
ranks-ties_example = ranks-ties ("1" ∷ []) "2" "2" ("3" ∷ [])
