-- ===== src/Sqlgen/Emit.antt =====
-- The state of `sqlGen` in sqlgen/sql_generator.go: what is written, and the parameters so far. The
-- text is a list of pieces, so that a placeholder is told apart from other text.
use dql.Prelude.{ℕ, String, List, [], ◌∷◌, ◌++◌, length}
use Prim.Native.String.{◌++◌ as str_append}
use dql.Go.Value.{Value}
use dql.Go.Text.{decimal}

pub data Piece : Type 0 where
  text : String → Piece
  -- "$N"
  placeholder : ℕ → Piece

abbrev pub Sql : Type 0
Sql = List Piece

-- The query as the string that the generator returns.
unfoldable pub render : Sql → String
unfolding decimal
render [] = ""
render (text s ∷ ps) = str_append s (render ps)
render (placeholder n ∷ ps) = str_append "$" (str_append (decimal n) (render ps))

-- A writer: from the parameters so far, what it writes and the parameters after it.
abbrev pub Emit : Type 0 → Type 0
Emit F = List (Value F) → Sql × List (Value F)

module _ {F : Type 0} where
  unfoldable pub write : String → Emit F
  write s ps = (text s ∷ [], ps)

  -- `placeholder`: the value is appended, and its number is the new count.
  unfoldable pub bind_value : Value F → Emit F
  bind_value v ps = let qs = ps ++ v ∷ [] in (placeholder (length qs) ∷ [], qs)

  unfoldable pub nothing : Emit F
  nothing ps = ([], ps)

  -- One writer after another.
  infixr 40 ◌⨾◌
  unfoldable pub ◌⨾◌ : Emit F → Emit F → Emit F
  ◌⨾◌ e f ps = let (a, qs) = e ps in let (b, rs) = f qs in (a ++ b, rs)

  -- `strings.Join` of what several writers write, in order.
  unfoldable pub join_emits : String → List (Emit F) → Emit F
  unfolding write nothing ◌⨾◌
  join_emits sep [] = nothing
  join_emits sep (e ∷ []) = e
  join_emits sep (e ∷ f ∷ fs) = e ⨾ write sep ⨾ join_emits sep (f ∷ fs)
