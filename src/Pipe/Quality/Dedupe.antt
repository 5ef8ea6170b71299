-- ===== src/Pipe/Quality/Dedupe.antt =====
-- The stage `dedupe` (pipe/quality.go) against `distinct` (pipe/distinct.go).
use dql.Prelude.{
  String, false, ◌||◌, ◌≡◌, refl, sym, ◌∙◌, ap, List, [], ◌∷◌, ◌++◌, map, append-nil, append_assoc,
  contains, is_nil, arith, Bool-cases, inl, inr, str_eq,
}
use dql.Go.Runtime.{Runtime}
use dql.Go.Row.{Row, keys}
use dql.Processor.Aggregate.{group_key}
use dql.Pipe.Order.{new_order_spec}
use dql.Pipe.Rows.{distinct_key, distinct_loop, distinct_apply}
use dql.Pipe.Quality.{dedupe_loop, dedupe_apply}

module _ {V : Type 0} where
  keys-last :
      (out : List (String × V)) (k : String) (v : V) (x : String)
      → contains (keys (out ++ (k, v) ∷ [])) x ≡ contains (k ∷ keys out) x
  keys-last [] k v x = refl
  keys-last ((j, w) ∷ out) k v x = ground (arith, keys-last out k v x)

  values-last :
      (out : List (String × V)) (k : String) (v : V)
      → map (λ e. e.1) (out ++ (k, v) ∷ []) ≡ map (λ e. e.1) out ++ v ∷ []
  values-last [] k v = refl
  values-last ((j, w) ∷ out) k v = ap (λ vs. w ∷ vs) (values-last out k v)

module _ (go : Runtime) (key : Row go.Float → String) where
  open go use {Float}

  -- A loop sees of the keys so far only which they are.
  distinct_loop-ext :
      (seen seen' : List String) (rows : List (Row Float))
      → ((k : String) → contains seen k ≡ contains seen' k)
      → distinct_loop go key seen rows ≡ distinct_loop go key seen' rows
  unfolding distinct_loop
  distinct_loop-ext seen seen' [] h = refl
  distinct_loop-ext seen seen' (row ∷ rows) h = elim (Bool-cases (contains seen' (key row))) [
    | inl e ↦ rw (h (key row), e) (distinct_loop-ext seen seen' rows h)
    | inr e ↦
        rw (h (key row), e)
          (ap (λ rs. row ∷ rs)
            (distinct_loop-ext (key row ∷ seen) (key row ∷ seen') rows
              (λ k. ap (λ b. str_eq (key row) k || b) (h k))))
  ]

  loop_first :
      (out : List (String × Row Float)) (rows : List (Row Float))
      → map (λ e. e.1) (dedupe_loop go false key out rows)
        ≡ map (λ e. e.1) out ++ distinct_loop go key (keys out) rows
  unfolding dedupe_loop distinct_loop
  loop_first out [] = sym (append-nil (map (λ e. e.1) out))
  loop_first out (row ∷ rows) = elim (Bool-cases (contains (keys out) (key row))) [
    | inl e ↦ rw e (loop_first out rows)
    | inr e ↦
        let more = out ++ (key row, row) ∷ [] in
        rw e (
          loop_first more rows
          ∙ ap (λ vs. vs ++ distinct_loop go key (keys more) rows) (values-last out (key row) row)
          ∙ append_assoc (map (λ e. e.1) out) (row ∷ []) (distinct_loop go key (keys more) rows)
          ∙ ap (λ rs. map (λ e. e.1) out ++ row ∷ rs)
              (distinct_loop-ext (keys more) (key row ∷ keys out) rows
                (keys-last out (key row) row)))
  ]

-- A `dedupe` that keeps the first row of each key and is given no order is a `distinct` by the same
-- columns, if there are any: the same rows in the same order.
pub dedupe_apply-distinct :
    (go : Runtime) (by : List String) (keep_which : String) (rows : List (Row go.Float))
    → is_nil by ≡ false
    → go.equal_fold keep_which "last" ≡ false
    → dedupe_apply go by keep_which [] rows ≡ distinct_apply go by rows
unfolding dedupe_apply distinct_apply distinct_key new_order_spec
dedupe_apply-distinct go [] keep_which rows named first = absurd (ground arith)
dedupe_apply-distinct go (c ∷ cs) keep_which rows named first =
    rw first (loop_first go (group_key go (c ∷ cs)) [] rows)
