-- ===== src/Pipe/Execute/Quiet.antt =====
-- Operators that keep what `IsLiveSafe` says (internal/rowops/rowops.go): no side effects.
use dql.Prelude.{Bool, true, false, ◌≡◌, refl, List, subst}
use dql.Go.Row.{Row}
use dql.Pipe.Operator.{Operator}

-- Whether a call kept the world, if it had to.
abbrev pub QuietAt : {W : Type 0} → Bool → W → W → Type 0
QuietAt true after before = after ≡ before
QuietAt false after before = Unit

module _ {F W : Type 0} where
  -- An operator that, if it says that it is live-safe, leaves the world as it was.
  abbrev pub IsQuiet : Operator F W → Type 0
  IsQuiet op = (rows : List (Row F)) (w : W) → QuietAt op.live_safe (op.apply rows w).1 w

  pub quiet_call :
      (op : Operator F W)
      → IsQuiet op
      → op.live_safe ≡ true
      → (rows : List (Row F)) (w : W) → (op.apply rows w).1 ≡ w
  quiet_call op quiet live rows w = subst (λ b. QuietAt b (op.apply rows w).1 w) live (quiet rows w)

  pub IsQuiet-if :
      (op : Operator F W)
      → (op.live_safe ≡ true → (rows : List (Row F)) (w : W) → (op.apply rows w).1 ≡ w)
      → IsQuiet op
  IsQuiet-if op h rows w = at op.live_safe refl
    where
      at : (b : Bool) → op.live_safe ≡ b → QuietAt b (op.apply rows w).1 w
      at true e = h e rows w
      at false e = tt
