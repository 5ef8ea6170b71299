-- ===== src/Pipe/Text/Parse/Lenient.antt =====
-- The two parsers of a pipe's text, `ParseText` and `ParseTextLenient` (pipe/textual.go).
use Prim.Native.Char.{Char}
use dql.Prelude.{
  ℕ, suc, String, ◌≡◌, refl, sym, ◌∙◌, ap, List, [], ◌∷◌, Option, none, some, Outcome, ok, err,
  ◌>>=◌, map_err, bind_ok, ok_inj, Outcome-cases, inl, inr, arith,
}
use dql.Go.Runtime.{Runtime}
use dql.Go.Runes.{Unicode}
use dql.Pipe.Operator.{Stage}
use dql.Pipe.Text.Config.{Config}
use dql.Pipe.Text.Parse.{
  PipeText, ParseError, ParseDiagnostic, parse_stage, parse_stages, lenient_stages, parse_head,
  parse_text, parse_text_lenient, trim_space, add_segment, stage_error,
}

module _ (go : Runtime) (u : Unicode) (J : Type 0) (parse_float : String → Option go.Float)
    (decode_object : String → Option J) (registered : List String)
    (catalog : List (String × List String)) where
  open go use {Float}

  map_err-ok :
      {E E' A : Type 0} (f : E → E') (r : Outcome E A) (a : A) → map_err f r ≡ ok a → r ≡ ok a
  map_err-ok f (ok b) a h = ap ok (ok_inj b a h)
  map_err-ok f (err e) a h = absurd (ground arith)

  strict_stages :
      (i j : ℕ) (segs : List (List Char)) (ss : List (Stage (Config Float J)))
      → parse_stages go u J parse_float decode_object i segs ≡ ok ss
      → lenient_stages go u J parse_float decode_object registered catalog j segs ≡ (ss, [])
  unfolding parse_stages lenient_stages
  strict_stages i j [] ss h = ap (λ x. (x, [])) (ok_inj [] ss h)
  strict_stages i j (seg ∷ segs) ss h =
      let r =
        parse_stage go u J parse_float decode_object
          (trim_space go u J parse_float decode_object seg) in
      let (s, parsed, rest) = bind_ok (map_err (stage_error i) r) _ ss h in
      let (later, done, made) =
        bind_ok (parse_stages go u J parse_float decode_object (suc i) segs) _ ss rest in
      let clean = strict_stages (suc i) (suc j) segs later done in
      rw (map_err-ok (stage_error i) r s parsed, clean)
        (ap (λ x. (x, [])) (ok_inj (s ∷ later) ss made))

  lenient_clean :
      (i j : ℕ) (segs : List (List Char)) (ss : List (Stage (Config Float J)))
      → lenient_stages go u J parse_float decode_object registered catalog j segs ≡ (ss, [])
      → parse_stages go u J parse_float decode_object i segs ≡ ok ss
  unfolding parse_stages lenient_stages
  lenient_clean i j [] ss h = ap ok (ap (λ x. x.0) h)
  lenient_clean i j (seg ∷ segs) ss h =
      let seg' = trim_space go u J parse_float decode_object seg in
      let later = lenient_stages go u J parse_float decode_object registered catalog (suc j) segs in
      elim (Outcome-cases (parse_stage go u J parse_float decode_object seg')) [
        | inl r ↦
            let both : ◌≡◌ {A = List (Stage (Config Float J)) × List ParseDiagnostic}
                (r.0 ∷ later.0, later.1) (ss, []) =
              ap
                (λ x.
                  add_segment go u J parse_float decode_object registered catalog j seg' x later)
                (sym r.1)
              ∙ h in
            let rest =
              lenient_clean (suc i) (suc j) segs later.0
                (ap (λ ds. (later.0, ds)) (ap (λ x. x.1) both)) in
            rw (r.1, rest) (ap ok (ap (λ x. x.0) both))
        | inr r ↦
            let bad =
              ap (λ x. x.1)
                (ap
                    (λ x.
                      add_segment go u J parse_float decode_object registered catalog j seg' x
                        later)
                    (sym r.1)
                  ∙ h) in
            absurd (ground arith)
      ]

  -- What the strict parser accepts, and what the lenient one does without a diagnostic.
  abbrev pub accepted : Outcome ParseError (PipeText Float J) → Option (PipeText Float J)
  accepted (ok q) = some q
  accepted (err e) = none

  abbrev pub unblemished :
      Outcome ParseError (PipeText Float J × List ParseDiagnostic) → Option (PipeText Float J)
  unblemished (ok (q, [])) = some q
  unblemished (ok (q, d ∷ ds)) = none
  unblemished (err e) = none

  agree_behind :
      (src : String) (segs : List (List Char))
      (r : List (Stage (Config Float J)) × List ParseDiagnostic)
      → lenient_stages go u J parse_float decode_object registered catalog 0 segs ≡ r
      → accepted (
          parse_stages go u J parse_float decode_object 1 segs >>= λ ss.
          ok (record { dataset = src; pipe = ss }))
        ≡ unblemished (ok (record { dataset = src; pipe = r.0 }, r.1))
  agree_behind src segs (ss, []) h = rw (lenient_clean 1 0 segs ss h) refl
  agree_behind src segs (ss, d ∷ ds) h =
      elim (Outcome-cases (parse_stages go u J parse_float decode_object 1 segs)) [
        | inl r ↦
            let bad = ap (λ x. x.1) (sym h ∙ strict_stages 1 0 segs r.0 r.1) in
            absurd (ground arith)
        | inr r ↦ rw r.1 refl
      ]

  -- The strict parser accepts a text exactly if the lenient one has no diagnostic for it, and the
  -- two make the same query of it.
  pub parse_text_agrees :
      (text : List Char)
      → accepted (parse_text go u J parse_float decode_object text)
        ≡ unblemished (parse_text_lenient go u J parse_float decode_object registered catalog text)
  unfolding parse_text parse_text_lenient
  parse_text_agrees text = elim (Outcome-cases (parse_head go u J parse_float decode_object text)) [
    | inl h ↦ rw h.1 (agree_behind h.0.0 h.0.1 _ refl)
    | inr h ↦ rw h.1 refl
  ]
