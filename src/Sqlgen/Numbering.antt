-- ===== src/Sqlgen/Numbering.antt =====
-- Placeholders and parameters: a writer of sqlgen/sql_generator.go appends parameters, and numbers
-- its placeholders by their positions. One rule for each way to build a writer.
use dql.Prelude.{
  ℕ, suc, ◌+◌, String, Bool, true, false, ◌≡◌, refl, sym, ◌∙◌, ap, List, [], ◌∷◌, ◌++◌, map, arith,
  length, length-append, append-nil, append_assoc, if◌then◌else◌, All,
}
use dql.Go.Value.{Value}
use dql.Sqlgen.Emit.{text, placeholder, Sql, Emit, write, bind_value, nothing, ◌⨾◌, join_emits}

-- The numbers of the placeholders, in the order of the text.
abbrev pub numbers : Sql → List ℕ
numbers [] = []
numbers (text s ∷ ps) = numbers ps
numbers (placeholder n ∷ ps) = n ∷ numbers ps

-- The positions of some parameters that stand behind `n` others: n + 1, n + 2, …
abbrev pub positions {ℓ} : {V : Type ℓ} → ℕ → List V → List ℕ
positions n [] = []
positions n (v ∷ vs) = suc n ∷ positions (suc n) vs

numbers-append : (a b : Sql) → numbers (a ++ b) ≡ numbers a ++ numbers b
numbers-append [] b = refl
numbers-append (text s ∷ a) b = numbers-append a b
numbers-append (placeholder n ∷ a) b = ap (◌∷◌ n) (numbers-append a b)

positions-append {ℓ} :
    {V : Type ℓ} (n : ℕ) (vs ws : List V)
    → positions n (vs ++ ws) ≡ positions n vs ++ positions (n + length vs) ws
positions-append n [] ws = ap (λ m. positions m ws) (omega arith)
positions-append n (v ∷ vs) ws = ap (◌∷◌ (suc n)) (
    positions-append (suc n) vs ws ∙ ap (λ m. positions (suc n) vs ++ positions m ws) (omega arith))

module _ {F : Type 0} where
  -- From the parameters `ps`, the writer appends `values`, and its placeholders are the positions
  -- of those values, each once and in order.
  pub record Appends (ps : List (Value F)) (r : Sql × List (Value F)) : Type 0 where
    pub values : List (Value F)
    pub params : r.1 ≡ ps ++ values
    pub numbered : numbers r.0 ≡ positions (length ps) values

  pub record IsNumbered (e : Emit F) : Type 0 where
    pub at : (ps : List (Value F)) → Appends ps (e ps)

  pub write-IsNumbered : (s : String) → IsNumbered (write s)
  unfolding write
  write-IsNumbered s = record {
    at = λ ps. record { values = []; params = sym (append-nil ps); numbered = refl };
  }

  pub nothing-IsNumbered : IsNumbered nothing
  unfolding nothing
  nothing-IsNumbered = record {
    at = λ ps. record { values = []; params = sym (append-nil ps); numbered = refl };
  }

  pub bind-IsNumbered : (v : Value F) → IsNumbered (bind_value v)
  unfolding bind_value
  bind-IsNumbered v = record {
    at = λ ps. record {
      values = v ∷ [];
      params = refl;
      numbered = ap (λ n. n ∷ []) (length-append ps (v ∷ []) ∙ omega arith);
    };
  }

  pub then-IsNumbered : (e f : Emit F) → IsNumbered e → IsNumbered f → IsNumbered (e ⨾ f)
  unfolding ◌⨾◌
  then-IsNumbered e f he hf = record {
    at = λ ps.
        let a = he.at ps in
        let b = hf.at (e ps).1 in
        record {
          values = a.values ++ b.values;
          params =
              b.params ∙ ap (λ qs. qs ++ b.values) a.params ∙ append_assoc ps a.values b.values;
          numbered =
              numbers-append (e ps).0 (f (e ps).1).0
              ∙ ap (λ ns. ns ++ numbers (f (e ps).1).0) a.numbered
              ∙ ap (λ ns. positions (length ps) a.values ++ ns)
                  (b.numbered
                    ∙ ap (λ n. positions n b.values)
                        (ap length a.params ∙ length-append ps a.values))
              ∙ sym (positions-append (length ps) a.values b.values);
        };
  }

  pub if-IsNumbered :
      (b : Bool) (e f : Emit F) → IsNumbered e → IsNumbered f → IsNumbered (if b then e else f)
  if-IsNumbered true e f he hf = he
  if-IsNumbered false e f he hf = hf

  pub join-IsNumbered :
      (sep : String) (es : List (Emit F)) → All IsNumbered es → IsNumbered (join_emits sep es)
  unfolding join_emits
  join-IsNumbered sep [] h = nothing-IsNumbered
  join-IsNumbered sep (e ∷ []) h = h.0
  join-IsNumbered sep (e ∷ f ∷ fs) h =
      then-IsNumbered e _ h.0
        (then-IsNumbered (write sep) _ (write-IsNumbered sep) (join-IsNumbered sep (f ∷ fs) h.1))

  pub map-IsNumbered :
      {A : Type 0} (g : A → Emit F)
      → ((a : A) → IsNumbered (g a))
      → (xs : List A) → All IsNumbered (map g xs)
  map-IsNumbered g h [] = tt
  map-IsNumbered g h (x ∷ xs) = (h x, map-IsNumbered g h xs)

pub ruleset numbering_rules = (
  write-IsNumbered, nothing-IsNumbered, bind-IsNumbered, then-IsNumbered, if-IsNumbered,
  join-IsNumbered, map-IsNumbered,
)
