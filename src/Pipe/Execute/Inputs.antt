-- ===== src/Pipe/Execute/Inputs.antt =====
-- The outputs that the run of a tail keeps for the stages that name them (pipe/executor.go).
use dql.Prelude.{
  ℕ, suc, String, Bool, true, false, ◌||◌, ◌≡◌, refl, sym, ◌∙◌, ap, subst, List, [], ◌∷◌, ◌++◌, map,
  append_assoc, none, some, Outcome, ok, err, arith, contains, Bool-cases, Option-cases, inl, inr,
  str_eq, eq_iff, length, ltb, get_or, if◌then◌else◌,
}
use dql.Go.Row.{Row, lookup, lookup-put}
use dql.Pipe.Operator.{PipeError, no_cached_output, at_stage, Stage, Operator, ◌then◌, wrapping}
use dql.Pipe.Execute.{
  ExecutorConfig, PipePlan, Outputs, Run, StageStat, input_at, apply_op, produce, store_output,
  next_run, run_stage, run_stages, stage_number,
}
use dql.Pipe.Execute.Steps.{run_stage-Round}
use dql.Pipe.Graph.Sound.{ids_of}

-- Whether an error is that a named input has no output.
abbrev pub is_missing_error : PipeError → Bool
is_missing_error (no_cached_output i name from) = true
is_missing_error _ = false

module _ {W A : Type 0} where
  -- Whether a call fails with that error.
  abbrev pub is_missing : Outcome PipeError A × W → Bool
  is_missing (ok a, w) = false
  is_missing (err e, w) = is_missing_error e

module _ {W A B : Type 0} where
  then_missing :
      (m : Outcome PipeError A × W) (f : A → W → Outcome PipeError B × W)
      → is_missing m ≡ false
      → ((a : A) (w : W) → m ≡ (ok a, w) → is_missing (f a w) ≡ false)
      → is_missing (m then f) ≡ false
  then_missing (ok a, w) f h k = k a w refl
  then_missing (err e, w) f h k = h

wrapping_missing :
    {W A : Type 0} (i : ℕ) (name : String) (m : Outcome PipeError A × W)
    → is_missing (wrapping (at_stage i name) m) ≡ false
wrapping_missing i name (ok a, w) = refl
wrapping_missing i name (err e, w) = refl

get_or-here {ℓ κ} :
    {A : Type ℓ} {B : Type κ} (f : A → B) (xs : List A) (a : A) (ys : List A) (d : B)
    → get_or (map f (xs ++ a ∷ ys)) (length xs) d ≡ f a
get_or-here f [] a ys d = refl
get_or-here f (x ∷ xs) a ys d = get_or-here f xs a ys d

length_last {ℓ} : {A : Type ℓ} (xs : List A) (a : A) → length (xs ++ a ∷ []) ≡ suc (length xs)
length_last [] a = refl
length_last (x ∷ xs) a = ap suc (length_last xs a)

pub contains_append :
    {J : Type 0} (xs ys : List (Stage J)) (x : String)
    → contains (ids_of (xs ++ ys)) x ≡ (contains (ids_of xs) x || contains (ids_of ys) x)
contains_append [] ys x = refl
contains_append (t ∷ ts) ys x = ground (arith, contains_append ts ys x)

contains_last :
    {J : Type 0} (ss : List (Stage J)) (s : Stage J) (x : String)
    → contains (ids_of (ss ++ s ∷ [])) x ≡ (contains (ids_of ss) x || str_eq s.id x)
contains_last ss s x = ground (arith, contains_append ss (s ∷ []) x)

module _ {F : Type 0} where
  -- Whether an output is kept under a name.
  abbrev pub has_output : Outputs F → String → Bool
  has_output outputs x = elim (lookup outputs x) [ none ↦ false | some rows ↦ true ]

  -- Each name of the stages has an output.
  abbrev pub Supplies : {J : Type 0} → Outputs F → List (Stage J) → Type 0
  Supplies outputs done =
      (x : String)
      → str_eq x "" ≡ false
      → contains (ids_of done) x ≡ true
      → has_output outputs x ≡ true

-- Each stage that names its input names a stage before it.
abbrev pub Named : {J : Type 0} → List (Stage J) → Type 0
Named {J = J} stages =
    (before : List (Stage J)) (s : Stage J) (after : List (Stage J))
    → stages ≡ before ++ s ∷ after
    → str_eq s.from "" ≡ false
    → contains (ids_of before) s.from ≡ true

module _ {F W : Type 0} (cfg : ExecutorConfig) (plan : PipePlan F W) where
  apply_op-present :
      (i : ℕ) (op : Operator F W) (input : List (Row F)) (w : W)
      → is_missing (apply_op cfg plan i op input w) ≡ false
  unfolding apply_op
  apply_op-present i op input w =
      then_missing (wrapping _ (op.apply input w)) _
        (wrapping_missing (stage_number cfg plan i) op.name (op.apply input w))
        (λ out w' e. elim (Bool-cases (ltb cfg.max_rows (length out))) [
          | inl b ↦ rw b refl
          | inr b ↦ rw b refl
        ])

  input_at-present :
      {J : Type 0} (before : List (Stage J)) (s : Stage J) (after : List (Stage J))
      (op : Operator F W) (outputs : Outputs F) (rows : List (Row F)) (w : W)
      → plan.froms ≡ map (λ t. t.from) (before ++ s ∷ after)
      → Supplies outputs before
      → (str_eq s.from "" ≡ false → contains (ids_of before) s.from ≡ true)
      → is_missing (input_at cfg plan (length before) op outputs rows, w) ≡ false
  unfolding input_at
  input_at-present before s after op outputs rows w e supplied named =
      let from : get_or plan.froms (length before) "" ≡ s.from =
        ap (λ fs. get_or fs (length before) "") e ∙ get_or-here (λ t. t.from) before s after "" in
      rw from (elim (Bool-cases (str_eq s.from "")) [
        | inl e1 ↦ rw e1 refl
        | inr e1 ↦
            let here = supplied s.from e1 (named e1) in
            elim (Option-cases (lookup outputs s.from)) [
              | inl n ↦ absurd (ground arith)
              | inr j ↦ rw (e1, j.1) refl
            ]
      ])

  produce-present :
      (i : ℕ) (op : Operator F W) (outputs : Outputs F) (rows : List (Row F)) (w : W)
      → is_missing (input_at cfg plan i op outputs rows, w) ≡ false
      → is_missing (produce cfg plan i op outputs rows w) ≡ false
  unfolding produce
  produce-present i op outputs rows w h =
      then_missing _ _ h
        (λ input w1 e. then_missing _ _ (apply_op-present i op input w1) (λ out w2 e2. refl))

  stored :
      {J : Type 0} (before : List (Stage J)) (s : Stage J) (after : List (Stage J))
      (outputs : Outputs F) (out : List (Row F))
      → plan.ids ≡ ids_of (before ++ s ∷ after)
      → Supplies outputs before
      → Supplies (store_output cfg plan (length before) outputs out) (before ++ s ∷ [])
  unfolding store_output
  stored before s after outputs out e supplied x nonempty h =
      let id : get_or plan.ids (length before) "" ≡ s.id =
        ap (λ fs. get_or fs (length before) "") e ∙ get_or-here (λ t. t.id) before s after "" in
      rw id (elim (Bool-cases (contains (ids_of before) x)) [
        | inl b ↦
            let kept = supplied x nonempty b in ground (arith, lookup-put outputs s.id x out, kept)
        | inr b ↦
            let split = contains_last before s x in
            ground (
              arith,
              lookup-put outputs s.id x out,
              split,
              eq_iff s.id x,
              eq_iff s.id "",
              eq_iff x "",
            )
      ])

  run_stage-present :
      (collect : Bool) (i : ℕ) (op : Operator F W) (run : Run F) (w : W)
      → is_missing (input_at cfg plan i op run.outputs run.rows, w) ≡ false
      → is_missing (run_stage cfg plan collect i op run w) ≡ false
  unfolding run_stage
  run_stage-present collect i op run w h =
      then_missing _ _ (produce-present i op run.outputs run.rows w h) (λ io w1 e. refl)

  next_run-outputs :
      (b : Bool) (i : ℕ) (run : Run F) (out : List (Row F)) (outputs : Outputs F)
      (stats : List (StageStat F))
      → (next_run cfg plan b i run out outputs stats).outputs ≡ outputs
  next_run-outputs true i run out outputs stats = refl
  next_run-outputs false i run out outputs stats = refl

  pub run_stages-present :
      {J : Type 0} (collect : Bool) (before rest : List (Stage J)) (ops : List (Operator F W))
      (run : Run F) (w : W)
      → plan.ids ≡ ids_of (before ++ rest)
      → plan.froms ≡ map (λ t. t.from) (before ++ rest)
      → length ops ≡ length rest
      → Named (before ++ rest)
      → Supplies run.outputs before
      → is_missing (run_stages cfg plan collect (length before) ops run w) ≡ false
  unfolding run_stages
  run_stages-present collect before rest [] run w ids froms len named supplied = refl
  run_stages-present collect before [] (op ∷ ops) run w ids froms len named supplied =
      absurd (omega (arith, len))
  run_stages-present collect before (s ∷ rest) (op ∷ ops) run w ids froms len named supplied =
      then_missing _ _
        (run_stage-present collect (length before) op run w (
          input_at-present before s rest op run.outputs run.rows w froms supplied
            (named before s rest refl)))
        (λ run' w' e.
          let round = run_stage-Round cfg plan collect (length before) op run run' w w' e in
          let outputs : run'.outputs ≡ store_output cfg plan (length before) run.outputs round.out =
            ap (λ r. r.outputs) round.next
            ∙ next_run-outputs op.live_safe (length before) run round.out _ round.stats in
          let next : Supplies run'.outputs (before ++ s ∷ []) =
            subst (λ o. Supplies o (before ++ s ∷ [])) (sym outputs)
              (stored before s rest run.outputs round.out ids supplied) in
          let same : (before ++ s ∷ []) ++ rest ≡ before ++ s ∷ rest =
            append_assoc before (s ∷ []) rest in
          subst (λ n. is_missing (run_stages cfg plan collect n ops run' w') ≡ false)
            (length_last before s)
            (run_stages-present collect (before ++ s ∷ []) rest ops run' w'
              (ids ∙ ap ids_of (sym same)) (froms ∙ ap (map (λ t. t.from)) (sym same))
              (omega (arith, len)) (subst Named (sym same) named) next))
