-- ===== src/Pipe/Window/Ranks.antt =====
-- The ranks of `window` (pipe/window.go), and what the stage leaves alone.
use dql.Prelude.{
  ℕ, suc, ◌≤◌, String, false, not, ◌||◌, ◌≡◌, refl, List, [], ◌∷◌, map, ok, bind_ok, ok_inj, ap,
  ◌∙◌, sym, ◌==◌, str_eq, arith, length, get_or, Bool-cases, inl, inr,
}
use dql.Go.Runtime.{Runtime}
use dql.Go.Value.{Value, nil}
use dql.Go.Row.{Row, lookup, put, lookup-put}
use dql.Processor.Aggregate.{group_key, group_loop}
use dql.Pipe.Order.{new_perm}
use dql.Pipe.Window.{
  rank_loop, dense_loop, number_loop, write_values, window_apply, each_partition, WindowConfig,
}

-- The three numbers of each row, in order.
abbrev pub AreInOrder : List ℕ → List ℕ → List ℕ → Type 0
AreInOrder (d ∷ ds) (r ∷ rs) (n ∷ ns) = (1 ≤ d) × (d ≤ r) × (r ≤ n) × AreInOrder ds rs ns
AreInOrder [] [] [] = Unit
AreInOrder _ _ _ = ⊥

later_ranks :
    (i rank dense : ℕ) (last : String) (keys : List String)
    → 1 ≤ dense
    → dense ≤ rank
    → rank ≤ suc i
    → AreInOrder
        (dense_loop (suc i) dense last keys)
        (rank_loop (suc i) rank last keys)
        (number_loop (suc i) keys)
unfolding rank_loop dense_loop number_loop
later_ranks i rank dense last [] p h k = tt
later_ranks i rank dense last (key ∷ keys) p h k =
    elim (Bool-cases (suc i == 0 || not (str_eq key last))) [
      | inl e ↦ rw e (
        omega arith,
        omega arith,
        omega arith,
        later_ranks (suc i) (suc (suc i)) (suc dense) key keys (omega arith) (omega arith)
            (omega arith),
      )
      | inr e ↦ rw e (p, h, omega arith, later_ranks (suc i) rank dense last keys p h (omega arith))
    ]

-- In a sorted partition, whatever the order keys are, each row's `dense_rank` is at least 1 and at
-- most its `rank`, which is at most its `row_number`.
pub ranks-AreInOrder :
    (keys : List String)
    → AreInOrder (dense_loop 0 0 "" keys) (rank_loop 0 0 "" keys) (number_loop 0 keys)
unfolding rank_loop dense_loop number_loop
ranks-AreInOrder [] = tt
ranks-AreInOrder (key ∷ keys) = (
  omega arith,
  omega arith,
  omega arith,
  later_ranks 0 1 1 key keys (omega arith) (omega arith) (omega arith),
)

module _ {F : Type 0} (name col : String) (other : str_eq name col ≡ false) where
  put_other : (row : Row F) (v : Value F) → lookup (put row name v) col ≡ lookup row col
  put_other row v = rw (lookup-put row name col v, other) refl

  write_values-lookup :
      (rows : List (Row F)) (values : List (Value F))
      → map (λ row. lookup row col) (write_values name rows values)
        ≡ map (λ row. lookup row col) rows
  unfolding write_values
  write_values-lookup [] values = refl
  write_values-lookup (row ∷ rows) [] = rw (put_other row nil, write_values-lookup rows []) refl
  write_values-lookup (row ∷ rows) (v ∷ vs) = rw (put_other row v, write_values-lookup rows vs) refl

-- `window` gives as many rows as it is given, in their order, and changes no column of theirs but
-- the one that it is told to write.
pub window_apply-lookup :
    (go : Runtime) (cfg : WindowConfig go.Float) (rows out : List (Row go.Float)) (col : String)
    → window_apply go cfg rows ≡ ok out
    → str_eq cfg.as_name col ≡ false
    → map (λ row. lookup row col) out ≡ map (λ row. lookup row col) rows
unfolding window_apply
window_apply-lookup go cfg [] out col h other =
    ap (map (λ row. lookup row col)) (sym (ok_inj [] out h))
window_apply-lookup go cfg (r ∷ rs) out col h other =
    let (values, made, written) =
      bind_ok
        (each_partition go cfg (r ∷ rs)
          (group_loop (λ i. group_key go cfg.partition_by (get_or (r ∷ rs) i [])) []
            (new_perm (length (r ∷ rs))))
          (map (λ row. nil) (r ∷ rs)))
        (λ values. ok (write_values cfg.as_name (r ∷ rs) values)) out h in
    ap (map (λ row. lookup row col)) (sym (ok_inj _ out written))
    ∙ write_values-lookup cfg.as_name col other (r ∷ rs) values
