-- ===== src/Pipe/Graph/Sound.antt =====
-- What a stage graph that passes `validateStageGraph` (pipe/planner.go) guarantees.
use dql.Prelude.{
  ℕ, suc, String, true, false, not, ◌&&◌, ◌||◌, ◌≡◌, refl, List, [], ◌∷◌, ◌++◌, map, none, arith,
  Bool-cases, inl, inr, contains, str_eq, eq_iff,
}
use dql.Pipe.Operator.{Stage}
use dql.Pipe.Graph.{
  is_valid_stage_id, declare, check_id, check_from, validate_from, validate_stage_graph,
}

module _ {J : Type 0} where
  abbrev pub ids_of : List (Stage J) → List String
  ids_of ss = map (λ s. s.id) ss

  -- The ids that have been declared behind some stages.
  abbrev declared : List String → List (Stage J) → List String
  declared seen [] = seen
  declared seen (s ∷ ss) = declared (declare s seen) ss

  declared-contains :
      (seen : List String) (ss : List (Stage J)) (x : String)
      → str_eq x "" ≡ false
      → contains (declared seen ss) x ≡ (contains seen x || contains (ids_of ss) x)
  declared-contains seen [] x h = ground arith
  declared-contains seen (s ∷ ss) x h =
      ground (
        arith,
        declared-contains (declare s seen) ss x h,
        eq_iff s.id x,
        eq_iff s.id "",
        eq_iff x "",
      )

  valid_suffix :
      (i : ℕ) (seen : List String) (before : List (Stage J)) (s : Stage J) (after : List (Stage J))
      → validate_from i seen (before ++ s ∷ after) ≡ none
      → (j : ℕ) × (check_id j s (declared seen before) ≡ none)
        × (check_from j s (declared seen before) ≡ none)
  unfolding validate_from
  valid_suffix i seen [] s after h = (i, ground arith, ground arith)
  valid_suffix i seen (t ∷ ts) s after h =
      valid_suffix (suc i) (declare t seen) ts s after (ground arith)

  check_id-none :
      (i : ℕ) (s : Stage J) (seen : List String)
      → check_id i s seen ≡ none
      → str_eq s.id "" ≡ false
      → (is_valid_stage_id s.id ≡ true) × (contains seen s.id ≡ false)
  unfolding check_id
  check_id-none i s seen h e = (ground arith, ground arith)

  check_from-none :
      (i : ℕ) (s : Stage J) (seen : List String)
      → check_from i s seen ≡ none
      → str_eq s.from "" ≡ false
      → contains seen s.from ≡ true
  unfolding check_from
  check_from-none i s seen h e = ground (arith, eq_iff s.id s.from, eq_iff s.from s.id)

  -- In a pipe that is accepted: the id of a stage that has one is an identifier that no earlier
  -- stage has, and a stage that names its input names an earlier stage.
  pub validate_stage_graph_sound :
      (before : List (Stage J)) (s : Stage J) (after : List (Stage J))
      → validate_stage_graph (before ++ s ∷ after) ≡ none
      → ((str_eq s.id "" || (is_valid_stage_id s.id && not (contains (ids_of before) s.id))) ≡ true)
        × ((str_eq s.from "" || contains (ids_of before) s.from) ≡ true)
  unfolding validate_stage_graph
  validate_stage_graph_sound before s after h =
      let (i, id, from) = valid_suffix 0 [] before s after h in
      (
        elim (Bool-cases (str_eq s.id "")) [
          | inl e ↦ rw e refl
          | inr e ↦
              let (valid, fresh) = check_id-none i s (declared [] before) id e in
              ground (arith, declared-contains [] before s.id e)
        ],
        elim (Bool-cases (str_eq s.from "")) [
          | inl e ↦ rw e refl
          | inr e ↦ ground (
            arith,
            declared-contains [] before s.from e,
            check_from-none i s (declared [] before) from e,
          )
        ],
      )
