-- ===== src/Pipe/Window/Ties.antt =====
-- Ties in the ranks of `window` (pipe/window.go).
use dql.Prelude.{
  ℕ, suc, ◌+◌, String, not, ◌||◌, ◌≡◌, refl, sym, ◌∙◌, List, [], ◌∷◌, ◌++◌, ◌==◌, str_eq, arith,
  if◌then◌else◌, length, get_or, eq_iff, Bool-cases, inl, inr, ap,
}
use dql.Pipe.Window.{rank_loop, dense_loop}

-- The last key of the loop, behind a row.
last_key :
    (i : ℕ) (key last : String) → (if i == 0 || not (str_eq key last) then key else last) ≡ key
last_key i key last = elim (Bool-cases (i == 0 || not (str_eq key last))) [
  | inl e ↦ rw e refl
  | inr e ↦ rw e (sym ((eq_iff key last).0 (ground arith)))
]

next_rank :
    (i rank : ℕ) (last : String) (before : List String) (key next : String) (behind : List String)
    → get_or (rank_loop i rank last (before ++ key ∷ next ∷ behind)) (suc (length before)) 0 ≡ (
        if str_eq next key
        then get_or (rank_loop i rank last (before ++ key ∷ next ∷ behind)) (length before) 0
        else suc (suc (i + length before)))
unfolding rank_loop
next_rank i rank last [] key next behind = rw (last_key i key last) (ground arith)
next_rank i rank last (b ∷ before) key next behind =
    let is_new = i == 0 || not (str_eq b last) in
    let rest =
      next_rank (suc i) (if is_new then suc i else rank) (if is_new then b else last) before key
        next behind in
    let place : i + suc (length before) ≡ suc i + length before = omega arith in rw place rest

next_dense :
    (i rank : ℕ) (last : String) (before : List String) (key next : String) (behind : List String)
    → get_or (dense_loop i rank last (before ++ key ∷ next ∷ behind)) (suc (length before)) 0 ≡ (
        let here =
          get_or (dense_loop i rank last (before ++ key ∷ next ∷ behind)) (length before) 0 in
        if str_eq next key then here else suc here)
unfolding dense_loop
next_dense i rank last [] key next behind = rw (last_key i key last) (ground arith)
next_dense i rank last (b ∷ before) key next behind =
    let is_new = i == 0 || not (str_eq b last) in
    next_dense (suc i) (if is_new then suc rank else rank) (if is_new then b else last) before key
      next behind

-- Of two rows that follow each other in a sorted partition, the second has the first one's `rank`
-- and `dense_rank` if their order keys are equal; else its `rank` is its place, counted from 1,
-- and its `dense_rank` the next number.
pub ranks-ties :
    (before : List String) (key next : String) (behind : List String)
    → (get_or (rank_loop 0 0 "" (before ++ key ∷ next ∷ behind)) (suc (length before)) 0 ≡ (
        if str_eq next key
        then get_or (rank_loop 0 0 "" (before ++ key ∷ next ∷ behind)) (length before) 0
        else suc (suc (length before))))
      × (get_or (dense_loop 0 0 "" (before ++ key ∷ next ∷ behind)) (suc (length before)) 0 ≡ (
          if str_eq next key
          then get_or (dense_loop 0 0 "" (before ++ key ∷ next ∷ behind)) (length before) 0
          else suc (get_or (dense_loop 0 0 "" (before ++ key ∷ next ∷ behind)) (length before) 0)))
ranks-ties before key next behind =
    let place : length before ≡ 0 + length before = omega arith in
    (
      next_rank 0 0 "" before key next behind
          ∙ ap
              (λ n.
                if str_eq next key
                then get_or (rank_loop 0 0 "" (before ++ key ∷ next ∷ behind)) (length before) 0
                else suc (suc n))
              (sym place),
      next_dense 0 0 "" before key next behind,
    )
