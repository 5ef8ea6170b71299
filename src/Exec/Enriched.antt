-- ===== src/Exec/Enriched.antt =====
-- The engine's expansion (exec/engine.go) by the expander of expand/expander.go: it runs where the
-- query asks for it and the engine has an expander, and keeps the number of rows.
use dql.Prelude.{sym, ap, Option, none, some, ok_inj, length}
use dql.Go.Value.{Value}
use dql.Expand.Expander.{ExpandConfig, Expander, Entries, expand}
use dql.Expand.Direct.{expand-length}
use dql.Exec.Classic.{Expansion}
use dql.Exec.Bounds.{KeepsRows}

module _ {F : Type 0} (as_value : Entries → Value F) where
  -- `if q.Expand != nil && e.expander != nil`.
  abbrev pub expansion_of : Option Expander → Option ExpandConfig → Expansion F
  expansion_of none config = none
  expansion_of (some x) none = none
  expansion_of (some x) (some config) =
      some (λ dataset rows. expand as_value x (some config) (some dataset) rows)

  pub expansion_of-KeepsRows :
      (x : Option Expander) (config : Option ExpandConfig) → KeepsRows (expansion_of x config)
  expansion_of-KeepsRows none config dataset rows out h = ap length (sym (ok_inj rows out h))
  expansion_of-KeepsRows (some x) none dataset rows out h = ap length (sym (ok_inj rows out h))
  expansion_of-KeepsRows (some x) (some c) dataset rows out h =
      expand-length as_value x c (some dataset) rows out h
