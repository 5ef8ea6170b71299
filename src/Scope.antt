-- ===== src/Scope.antt =====
-- scope/scope.go: the partition columns that a host requires.
use dql.Prelude.{String, Bool, List, map, keep, any, str_eq}
use dql.Go.Value.{Value}

pub record ScopeColumn (F : Type 0) : Type 0 where
  pub name : String
  pub value : Value F
  pub required : Bool
  pub scope_joins : Bool

abbrev pub Scope : Type 0 → Type 0
Scope F = List (ScopeColumn F)

module _ {F : Type 0} where
  -- `JoinScoped`.
  unfoldable pub join_scoped : Scope F → Scope F
  join_scoped s = keep (λ c. c.scope_joins) s

  -- `Names`.
  unfoldable pub names : Scope F → List String
  names s = map (λ c. c.name) s

  -- `Has`.
  unfoldable pub has : Scope F → String → Bool
  has s name = any (λ c. str_eq c.name name) s
