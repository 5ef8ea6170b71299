-- ===== src/Sqlgen/Operands.antt =====
-- What an operand of AND is in a generated WHERE clause (sqlgen/sql_generator.go): a condition or a
-- text in brackets, so that no operator of it binds outside; and that each clause is written as one.
use Prim.Native.String.{◌++◌ as str_append}
use dql.Prelude.{
  ℕ, String, not, ◌&&◌, ◌≡◌, refl, sym, ap, subst, List, [], ◌∷◌, ◌++◌, All, Bool-cases, inl, inr,
  str_eq, true, contains, if◌then◌else◌, Option, none, some,
}
use dql.Go.Runtime.{Runtime}
use dql.Go.Value.{Value}
use dql.Dsl.Where.{WhereClause, clause, Clauses, done, more, MaybeClause, absent, present, has_any}
use dql.Sqlgen.Emit.{text, placeholder, Sql, Emit, write, nothing, ◌⨾◌, join_emits}
use dql.Parser.Validate.{valid_where_ops}
use dql.Sqlgen.Condition.{simple_condition, where_clause, where_clauses, where_not}

-- Texts with a separator between them.
abbrev pub joined : String → List Sql → Sql
joined sep [] = []
joined sep (a ∷ []) = a
joined sep (a ∷ b ∷ bs) = a ++ text sep ∷ joined sep (b ∷ bs)

module _ {F : Type 0} where
  -- What each of several writers writes, one after another.
  abbrev pub written : List (Emit F) → List (Value F) → List Sql
  written [] ps = []
  written (e ∷ es) ps = (e ps).0 ∷ written es (e ps).1

  abbrev pub params_after : List (Emit F) → List (Value F) → List (Value F)
  params_after [] ps = ps
  params_after (e ∷ es) ps = params_after es (e ps).1

  pub join_emits-joined :
      (sep : String) (es : List (Emit F)) (ps : List (Value F))
      → join_emits sep es ps ≡ (joined sep (written es ps), params_after es ps)
  unfolding join_emits nothing write ◌⨾◌
  join_emits-joined sep [] ps = refl
  join_emits-joined sep (e ∷ []) ps = refl
  join_emits-joined sep (e ∷ f ∷ fs) ps =
      ap (λ r. ((e ps).0 ++ text sep ∷ r.0, r.1)) (join_emits-joined sep (f ∷ fs) (e ps).1)

unfoldable mutual
  -- The operators of the conditions of a clause are those that the language has.
  pub HasKnownOps : {F : Type 0} → WhereClause F → Type 0
  HasKnownOps (clause f o v e ands ors neg) =
      if not (str_eq f "") && not (str_eq o "")
      then contains valid_where_ops o ≡ true
      else HasKnownOpsIn ands × (HasKnownOpsIn ors × HasKnownOpsNot neg)

  pub HasKnownOpsIn : {F : Type 0} → Clauses F → Type 0
  HasKnownOpsIn done = Unit
  HasKnownOpsIn (more w ws) = HasKnownOps w × HasKnownOpsIn ws

  pub HasKnownOpsNot : {F : Type 0} → MaybeClause F → Type 0
  HasKnownOpsNot absent = Unit
  HasKnownOpsNot (present w) = HasKnownOps w

abbrev pub HasKnownOpsWhere : {F : Type 0} → Option (WhereClause F) → Type 0
HasKnownOpsWhere none = Unit
HasKnownOpsWhere (some w) = HasKnownOps w

module _ (go : Runtime) where
  open go use {Float}

  mutual
    -- Nothing, `column = $n`, a simple condition with an operator of the language, operands in brackets with AND or with OR between
    -- all of them, or the negation of one in brackets.
    pub data IsOperand : Sql → Type 0 where
      is_nothing : IsOperand []
      is_equation :
          (column : String) (n : ℕ)
          → IsOperand (text (str_append column " = ") ∷ placeholder n ∷ [])
      is_condition :
          (field op : String) (v : Value Float) (ps : List (Value Float))
          → contains valid_where_ops op ≡ true
          → IsOperand (simple_condition go field op v ps).0
      is_all :
          (parts : List Sql)
          → AreOperands parts
          → IsOperand (text "(" ∷ joined " AND " parts ++ text ")" ∷ [])
      is_any :
          (parts : List Sql)
          → AreOperands parts
          → IsOperand (text "(" ∷ joined " OR " parts ++ text ")" ∷ [])
      is_negation : (part : Sql) → IsOperand part → IsOperand (text "NOT (" ∷ part ++ text ")" ∷ [])

    pub data AreOperands : List Sql → Type 0 where
      none_left : AreOperands []
      one_more :
          (part : Sql) (parts : List Sql)
          → IsOperand part
          → AreOperands parts
          → AreOperands (part ∷ parts)

  -- A writer that writes an operand, whatever the parameters are before it.
  abbrev pub WritesOperand : Emit Float → Type 0
  WritesOperand e = (ps : List (Value Float)) → IsOperand (e ps).0

  pub written-AreOperands :
      (es : List (Emit Float))
      → All WritesOperand es
      → (ps : List (Value Float)) → AreOperands (written es ps)
  written-AreOperands [] h ps = none_left
  written-AreOperands (e ∷ es) (h, hs) ps = one_more _ _ (h ps) (written-AreOperands es hs (e ps).1)

  bracketed :
      (sep : String)
      → ((parts : List Sql)
          → AreOperands parts
          → IsOperand (text "(" ∷ joined sep parts ++ text ")" ∷ []))
      → (es : List (Emit Float)) → All WritesOperand es
      → WritesOperand (write "(" ⨾ join_emits sep es ⨾ write ")")
  unfolding write ◌⨾◌
  bracketed sep rule es h ps =
      subst (λ r. IsOperand (text "(" ∷ r.0 ++ text ")" ∷ [])) (sym (join_emits-joined sep es ps))
        (rule _ (written-AreOperands es h ps))

  mutual
    unfolding where_clause write nothing ◌⨾◌ HasKnownOps

    pub where_clause-WritesOperand :
        (w : WhereClause Float) → HasKnownOps w → WritesOperand (where_clause go w)
    where_clause-WritesOperand (clause f o v e ands ors neg) known ps =
        elim (Bool-cases (not (str_eq f "") && not (str_eq o ""))) [
          | inl s ↦ rw s (is_condition f o v ps (rw s at known))
          | inr s ↦ elim (Bool-cases (has_any ands)) [
            | inl a ↦
                rw (s, a)
                  (bracketed " AND " is_all _ (where_clauses-WriteOperands ands (rw s at known).0)
                    ps)
            | inr a ↦ elim (Bool-cases (has_any ors)) [
              | inl b ↦
                  rw (s, a, b)
                    (bracketed " OR " is_any _ (where_clauses-WriteOperands ors (rw s at known).1.0)
                      ps)
              | inr b ↦ rw (s, a, b) (where_not-WritesOperand neg (rw s at known).1.1 ps)
            ]
          ]
        ]

    where_clauses-WriteOperands :
        (ws : Clauses Float) → HasKnownOpsIn ws → All WritesOperand (where_clauses go ws)
    where_clauses-WriteOperands done known = tt
    where_clauses-WriteOperands (more w ws) known =
        (where_clause-WritesOperand w known.0, where_clauses-WriteOperands ws known.1)

    where_not-WritesOperand :
        (n : MaybeClause Float) → HasKnownOpsNot n → WritesOperand (where_not go n)
    where_not-WritesOperand absent known ps = is_nothing
    where_not-WritesOperand (present w) known ps =
        is_negation _ (where_clause-WritesOperand w known ps)
