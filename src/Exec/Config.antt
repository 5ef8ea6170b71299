-- ===== src/Exec/Config.antt =====
-- The configuration of an engine, `NewEngine` and `applyDefaults`, of exec/engine.go.
use dql.Prelude.{zero, suc, String, Bool, [], Option, none, some, if◌then◌else◌}
use dql.Prelude.Int.{ℤ, pos, negsuc, ltb_ℤ}
use dql.Dsl.Query.{Query}
use dql.Processor.Steps.{offset_or_zero}
use dql.Scope.{Scope}
use dql.Pipe.Execute.{ExecutorConfig, new_config}

-- A function from the caller's workspace and project to a scope; none is a nil scope.
abbrev pub ScopeFor : Type 0 → Type 0
ScopeFor F = String → String → Option (Scope F)

pub record EngineConfig (F : Type 0) : Type 0 where
  pub scope_for : Option (ScopeFor F)
  pub default_limit : ℤ
  pub max_limit : ℤ
  pub pipe_disabled : Bool
  pub pipe_max_stages : ℤ
  pub pipe_max_rows : ℤ

-- What an engine keeps of its configuration, with the planner's scope.
pub record Engine (F : Type 0) : Type 0 where
  pub scope_for : ScopeFor F
  pub plan_scope : Scope F
  pub default_limit : ℤ
  pub max_limit : ℤ
  pub pipe_disabled : Bool
  pub pipe_max_rows : ℤ
  pub pipe : ExecutorConfig

-- `if n <= 0 { n = d }`.
abbrev pub unless_positive : ℤ → ℤ → ℤ
unless_positive d (pos zero) = d
unless_positive d (pos (suc n)) = pos (suc n)
unless_positive d (negsuc n) = d

module _ {F : Type 0} where
  -- A nil scope has no columns.
  abbrev pub or_unscoped : Option (Scope F) → Scope F
  or_unscoped none = []
  or_unscoped (some sc) = sc

  abbrev pub engine_of : EngineConfig F → ScopeFor F → Engine F
  engine_of config scope_for = record {
    scope_for = scope_for;
    plan_scope = or_unscoped (scope_for "" "");
    default_limit = unless_positive (pos 100) config.default_limit;
    max_limit = unless_positive (pos 10000) config.max_limit;
    pipe_disabled = config.pipe_disabled;
    pipe_max_rows = config.pipe_max_rows;
    pipe = new_config config.pipe_max_stages config.pipe_max_rows;
  }

  -- `NewEngine`; none is its panic.
  unfoldable pub new_engine : EngineConfig F → Option (Engine F)
  unfolding new_config
  new_engine config = elim config.scope_for [
    | none ↦ none
    | some scope_for ↦ some (engine_of config scope_for)
  ]

  -- The limit that a query runs with.
  unfoldable pub effective_limit : Engine F → Option ℤ → ℤ
  effective_limit e none =
      if ltb_ℤ e.max_limit e.default_limit then e.max_limit else e.default_limit
  effective_limit e (some n) = if ltb_ℤ e.max_limit n then e.max_limit else n

  -- `applyDefaults`.
  unfoldable pub apply_defaults : Engine F → Query F → Query F
  unfolding effective_limit
  apply_defaults e q = record q {
    limit = some (effective_limit e q.limit);
    offset = some (offset_or_zero q.offset);
  }
