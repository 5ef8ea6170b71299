-- ===== src/Sqlgen/Bound.antt =====
-- A label with a placeholder behind it in the text of a writer (sqlgen/sql_generator.go), and the
-- parameter of that placeholder.
use dql.Prelude.{
  ℕ, zero, suc, String, ◌≡◌, refl, sym, ◌∙◌, ap, List, [], ◌∷◌, ◌++◌, some, length, get_elem?,
  append_assoc,
}
use dql.Go.Value.{Value}
use dql.Sqlgen.Emit.{text, placeholder, Sql, Emit, write, bind_value, ◌⨾◌}
use dql.Sqlgen.Numbering.{IsNumbered}

-- The text holds `label` with a placeholder right behind it, and that placeholder's parameter is
-- the value.
pub record Binds {F : Type 0} (label : String) (v : Value F) (r : Sql × List (Value F))
    : Type 0 where
  pub before : Sql
  pub after : Sql
  pub index : ℕ
  pub split : r.0 ≡ before ++ text label ∷ placeholder (suc index) ∷ after
  pub value : get_elem? r.1 index ≡ some v

pub get_elem?-append {ℓ} :
    {A : Type ℓ} (xs ys : List A) (i : ℕ) (a : A)
    → get_elem? xs i ≡ some a
    → get_elem? (xs ++ ys) i ≡ some a
get_elem?-append [] ys i a h = cc
get_elem?-append (x ∷ xs) ys zero a h = h
get_elem?-append (x ∷ xs) ys (suc i) a h = get_elem?-append xs ys i a h

pub get_elem?-last {ℓ} :
    {A : Type ℓ} (xs : List A) (a : A) → get_elem? (xs ++ a ∷ []) (length xs) ≡ some a
get_elem?-last [] a = refl
get_elem?-last (x ∷ xs) a = get_elem?-last xs a

pub length-snoc {ℓ} : {A : Type ℓ} (xs : List A) (a : A) → length (xs ++ a ∷ []) ≡ suc (length xs)
length-snoc [] a = refl
length-snoc (x ∷ xs) a = ap suc (length-snoc xs a)

module _ {F : Type 0} (label : String) (v : Value F) where
  pub record AlwaysBinds (e : Emit F) : Type 0 where
    pub at : (ps : List (Value F)) → Binds label v (e ps)

  pub predicate-Binds : AlwaysBinds (write label ⨾ bind_value v)
  unfolding write bind_value ◌⨾◌
  predicate-Binds = record {
    at = λ ps. record {
      before = [];
      after = [];
      index = length ps;
      split = ap (λ n. text label ∷ placeholder n ∷ []) (length-snoc ps v);
      value = get_elem?-last ps v;
    };
  }

  pub left-Binds : (e f : Emit F) → AlwaysBinds e → IsNumbered f → AlwaysBinds (e ⨾ f)
  unfolding ◌⨾◌
  left-Binds e f he hf = record {
    at = λ ps.
        let a = he.at ps in
        let b = hf.at (e ps).1 in
        record {
          before = a.before;
          after = a.after ++ (f (e ps).1).0;
          index = a.index;
          split =
              ap (λ sql. sql ++ (f (e ps).1).0) a.split
              ∙ append_assoc a.before (text label ∷ placeholder (suc a.index) ∷ a.after)
                  (f (e ps).1).0;
          value =
              ap (λ qs. get_elem? qs a.index) b.params
              ∙ get_elem?-append (e ps).1 b.values a.index v a.value;
        };
  }

  pub right-Binds : (e f : Emit F) → AlwaysBinds f → AlwaysBinds (e ⨾ f)
  unfolding ◌⨾◌
  right-Binds e f hf = record {
    at = λ ps.
        let b = hf.at (e ps).1 in
        record {
          before = (e ps).0 ++ b.before;
          after = b.after;
          index = b.index;
          split =
              ap (λ sql. (e ps).0 ++ sql) b.split
              ∙ sym (
                  append_assoc (e ps).0 b.before
                    (text label ∷ placeholder (suc b.index) ∷ b.after));
          value = b.value;
        };
  }
