-- ===== src/Sqlgen/Joining.antt =====
-- How `strings.Join` puts the operands of a generated WHERE clause together
-- (sqlgen/sql_generator.go).
use dql.Prelude.{
  ℕ, String, ◌≡◌, refl, sym, ◌∙◌, ap, List, [], ◌∷◌, ◌++◌, Option, none, some, get_elem?, All,
  append_assoc, append-nil,
}
use dql.Go.Runtime.{Runtime}
use dql.Go.Value.{Value}
use dql.Dsl.Where.{WhereClause}
use dql.Sqlgen.Emit.{text, Emit, write, ◌⨾◌, join_emits}
use dql.Sqlgen.Placeholders.{where-IsNumbered}
use dql.Sqlgen.Condition.{where_clause}
use dql.Sqlgen.Generate.{where_parts}
use dql.Sqlgen.Numbering.{IsNumbered}
use dql.Sqlgen.Bound.{get_elem?-append}
use dql.Sqlgen.Operands.{
  joined, written, params_after, join_emits-joined, WritesOperand, where_clause-WritesOperand,
  HasKnownOpsWhere,
}

module _ {F : Type 0} where
  written-append :
      (xs ys : List (Emit F)) (ps : List (Value F))
      → written (xs ++ ys) ps ≡ written xs ps ++ written ys (params_after xs ps)
  written-append [] ys ps = refl
  written-append (x ∷ xs) ys ps = ap (◌∷◌ (x ps).0) (written-append xs ys (x ps).1)

  params_after-append :
      (xs ys : List (Emit F)) (ps : List (Value F))
      → params_after (xs ++ ys) ps ≡ params_after ys (params_after xs ps)
  params_after-append [] ys ps = refl
  params_after-append (x ∷ xs) ys ps = params_after-append xs ys (x ps).1

  -- A parameter keeps its place.
  pub kept :
      (e : Emit F) (i : ℕ) (v : Value F) (ps : List (Value F))
      → IsNumbered e
      → get_elem? ps i ≡ some v
      → get_elem? (e ps).1 i ≡ some v
  kept e i v ps h g =
      let a = h.at ps in ap (λ qs. get_elem? qs i) a.params ∙ get_elem?-append ps a.values i v g

  pub all_kept :
      (es : List (Emit F)) (i : ℕ) (v : Value F) (ps : List (Value F))
      → All IsNumbered es
      → get_elem? ps i ≡ some v
      → get_elem? (params_after es ps) i ≡ some v
  all_kept [] i v ps h g = g
  all_kept (e ∷ es) i v ps (h, hs) g = all_kept es i v (e ps).1 hs (kept e i v ps h g)

  pub then_assoc : (a b c : Emit F) (ps : List (Value F)) → ((a ⨾ b) ⨾ c) ps ≡ (a ⨾ b ⨾ c) ps
  unfolding ◌⨾◌
  then_assoc a b c ps =
      ap (λ s. (s, (c (b (a ps).1).1).1))
        (append_assoc (a ps).0 (b (a ps).1).0 (c (b (a ps).1).1).0)

  -- Two lists of writers that are joined with a separator between them are joined together.
  join_two :
      (sep : String) (x : Emit F) (xs : List (Emit F)) (e : Emit F) (ps : List (Value F))
      → (join_emits sep (x ∷ xs) ⨾ write sep ⨾ e) ps ≡ join_emits sep (x ∷ xs ++ e ∷ []) ps
  unfolding join_emits ◌⨾◌ write
  join_two sep x [] e ps = refl
  join_two sep x (y ∷ ys) e ps =
      let ih = join_two sep y ys e (x ps).1 in
      let bound = ((join_emits sep (x ∷ y ∷ ys) ⨾ write sep ⨾ e) ps).1 in
      ap (λ s. (s, bound)) (append_assoc (x ps).0 _ _)
      ∙ ap (λ r. ((x ps).0 ++ text sep ∷ r.0, r.1)) ih

module _ (go : Runtime) where
  open go use {Float}

  abbrev pub pushed : Option (WhereClause Float) → List (Emit Float)
  pushed none = []
  pushed (some w) = where_clause go w ∷ []

  pub pushed-WritesOperand :
      (w : Option (WhereClause Float)) → HasKnownOpsWhere w → All (WritesOperand go) (pushed w)
  pushed-WritesOperand none known = tt
  pushed-WritesOperand (some w) known = (where_clause-WritesOperand go w known, tt)

  pub pushed-IsNumbered : (w : Option (WhereClause Float)) → All IsNumbered (pushed w)
  pushed-IsNumbered none = tt
  pushed-IsNumbered (some w) = (where-IsNumbered go w, tt)

  nonempty_parts :
      (x : Emit Float) (xs : List (Emit Float)) (w : Option (WhereClause Float))
      (ps : List (Value Float))
      → where_parts go (x ∷ xs) w ps
        ≡ (write " WHERE " ⨾ join_emits " AND " (x ∷ xs ++ pushed w)) ps
  unfolding ◌⨾◌ write
  nonempty_parts x xs none ps =
      ap (λ es. (write " WHERE " ⨾ join_emits " AND " (x ∷ es)) ps) (sym (append-nil xs))
  nonempty_parts x xs (some w) ps =
      ap (λ r. (text " WHERE " ∷ r.0, r.1)) (join_two " AND " x xs (where_clause go w) ps)

  -- The clause around one of its operands.
  pub around :
      (xs : List (Emit Float)) (e : Emit Float) (ys : List (Emit Float))
      (w : Option (WhereClause Float)) (ps : List (Value Float))
      → let mid = params_after xs ps in
        let zs = ys ++ pushed w in
        where_parts go (xs ++ e ∷ ys) w ps ≡ (
          text " WHERE " ∷ joined " AND " (written xs ps ++ (e mid).0 ∷ written zs (e mid).1),
          params_after zs (e mid).1,
        )
  unfolding ◌⨾◌ write
  around xs e ys w ps =
      nonempty xs
      ∙ ap (λ es. (write " WHERE " ⨾ join_emits " AND " es) ps)
          (append_assoc xs (e ∷ ys) (pushed w))
      ∙ ap (λ r. (text " WHERE " ∷ r.0, r.1))
          (join_emits-joined " AND " (xs ++ e ∷ (ys ++ pushed w)) ps)
      ∙ rw
          (
            written-append xs (e ∷ (ys ++ pushed w)) ps,
            params_after-append xs (e ∷ (ys ++ pushed w)) ps,
          )
          refl
    where
      nonempty :
          (xs : List (Emit Float))
          → where_parts go (xs ++ e ∷ ys) w ps
            ≡ (write " WHERE " ⨾ join_emits " AND " ((xs ++ e ∷ ys) ++ pushed w)) ps
      nonempty [] = nonempty_parts e ys w ps
      nonempty (b ∷ bs) = nonempty_parts b (bs ++ e ∷ ys) w ps
