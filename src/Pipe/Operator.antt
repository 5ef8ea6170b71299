-- ===== src/Pipe/Operator.antt =====
-- What the pipe's stages are built to (pipe/operator.go, internal/rowops/rowops.go), the stages
-- themselves (dsl/types.go), and a chain of operators (pipe/branch.go).
use dql.Prelude.{
  ℕ, suc, String, Bool, List, [], ◌∷◌, Option, none, some, Outcome, ok, err, ◌≡◌, refl, arith, all,
  str_eq, if◌then◌else◌,
}
use dql.Go.Row.{Row}
use dql.Dsl.Tree.{EvalError}

-- The errors of this package, by where they are made.
pub data PipeError : Type 0 where
  nil_query no_stages nil_plan : PipeError
  invalid_id : ℕ → String → PipeError
  duplicate_id : ℕ → String → PipeError
  unknown_from : ℕ → String → PipeError
  own_id : ℕ → String → PipeError
  unknown_op : String → PipeError
  -- a configuration that does not decode, or that a factory refuses
  bad_config : String → PipeError
  evaluation : EvalError → PipeError
  -- an error of the classic engine
  classic : String → PipeError
  too_many_stages : ℕ → ℕ → PipeError
  prefix_too_large : ℕ → ℕ → PipeError
  op_too_large : String → ℕ → ℕ → PipeError
  no_cached_output : ℕ → String → String → PipeError
  primed_out_of_range : ℕ → ℕ → PipeError
  at_stage : ℕ → String → PipeError → PipeError
  under : String → PipeError → PipeError

-- A stage of a pipe, with the JSON that it was read from.
pub record Stage (J : Type 0) : Type 0 where
  pub op : String
  pub id : String
  pub from : String
  pub config : J

-- `Operator`. `Apply` runs in a world: the services that the host supplies and their state.
pub record Operator (F W : Type 0) : Type 0 where
  pub name : String
  pub label : String
  pub live_safe : Bool
  pub apply : List (Row F) → W → Outcome PipeError (List (Row F)) × W

-- A call that returns an error or a value, and leaves a world.
module _ {W A B : Type 0} where
  infixl 5 ◌then◌
  abbrev pub ◌then◌ :
      Outcome PipeError A × W → (A → W → Outcome PipeError B × W) → Outcome PipeError B × W
  (ok a, w) then f = f a w
  (err e, w) then f = (err e, w)

  pub then_ok :
      (m : Outcome PipeError A × W) (f : A → W → Outcome PipeError B × W) (b : B) (w' : W)
      → (m then f) ≡ (ok b, w')
      → (a : A) × (w : W) × (m ≡ (ok a, w)) × (f a w ≡ (ok b, w'))
  then_ok (ok a, w) f b w' h = (a, w, refl, h)
  then_ok (err e, w) f b w' h = absurd (ground arith)

module _ {W A : Type 0} where
  -- `if err != nil { return nil, fmt.Errorf("…: %w", err) }`.
  abbrev pub wrapping : (PipeError → PipeError) → Outcome PipeError A × W → Outcome PipeError A × W
  wrapping f (ok a, w) = (ok a, w)
  wrapping f (err e, w) = (err (f e), w)

  pub ok_same :
      (a b : A) (w w' : W)
      → ◌≡◌ {A = Outcome PipeError A × W} (ok a, w) (ok b, w')
      → (a ≡ b) × (w ≡ w')
  ok_same a b w w' h = (ground arith, ground arith)

  pub wrapping-world :
      (f : PipeError → PipeError) (m : Outcome PipeError A × W) → (wrapping f m).1 ≡ m.1
  wrapping-world f (ok a, w) = refl
  wrapping-world f (err e, w) = refl

module _ {F W : Type 0} where
  -- The loop of `applyChain`, from operator number `i`.
  unfoldable pub apply_chain_from :
      ℕ → List (Operator F W) → List (Row F) → W → Outcome PipeError (List (Row F)) × W
  apply_chain_from i [] rows w = (ok rows, w)
  apply_chain_from i (op ∷ ops) rows w =
      wrapping (at_stage i op.name) (op.apply rows w) then λ out w'.
      apply_chain_from (suc i) ops out w'

  unfoldable pub apply_chain :
      List (Operator F W) → List (Row F) → W → Outcome PipeError (List (Row F)) × W
  unfolding apply_chain_from
  apply_chain ops rows w = apply_chain_from 0 ops rows w

  -- The loop of the composite operators' `IsLiveSafe`.
  abbrev pub all_live_safe : List (Operator F W) → Bool
  all_live_safe ops = all (λ op. op.live_safe) ops

-- A `Factory`, with the services of its `OpContext` fixed.
abbrev pub Factory : Type 0 → Type 0 → Type 0 → Type 0
Factory J F W = J → Outcome PipeError (Operator F W)

module _ {J F W : Type 0} where
  -- `registry[name]`.
  abbrev pub find_factory : List (String × Factory J F W) → String → Option (Factory J F W)
  find_factory [] name = none
  find_factory ((n, f) ∷ fs) name =
      let rest = find_factory fs name in if str_eq n name then some f else rest

  -- `Build`, from the registered factories.
  unfoldable pub build : List (String × Factory J F W) → Stage J → Outcome PipeError (Operator F W)
  build registry stage = elim (find_factory registry stage.op) [
    | none ↦ err (unknown_op stage.op)
    | some f ↦ f stage.config
  ]
