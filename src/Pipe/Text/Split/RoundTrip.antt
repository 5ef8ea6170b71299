-- ===== src/Pipe/Text/Split/RoundTrip.antt =====
-- Splitting a pipe's text at its bars, and joining it again (pipe/textual.go).
use Prim.Native.Char.{Char, code}
use text.Mathlib.TextEquality.{Char-path}
use dql.Prelude.{
  zero, suc, Bool, true, false, not, ◌&&◌, ◌||◌, ◌≡◌, refl, sym, ◌∙◌, ap, subst, List, [], ◌∷◌,
  ◌++◌, append-nil, append_assoc, ok, ok_inj, arith, Bool-cases, inl, inr, if-true, if-false, All,
  All-append, and-true_split,
}
use dql.Prelude.Int.{ℤ, pos, negsuc}
use dql.Pipe.Text.Split.{
  Scan, outside, is_zero, is_balanced, step, is_cut, check_end, split_loop, split_top_level,
}

abbrev pub bar : Char
bar = "|"

-- Segments with a bar between each two.
abbrev pub join_bars : List (List Char) → List Char
join_bars [] = []
join_bars (s ∷ []) = s
join_bars (s ∷ t ∷ ts) = s ++ bar ∷ join_bars (t ∷ ts)

-- The scan of a segment from a state.
abbrev pub scan_all : Scan → List Char → Scan
scan_all s [] = s
scan_all s (r ∷ rs) = scan_all (step s (code r)) rs

abbrev pub never_cuts : Scan → List Char → Bool
never_cuts s [] = true
never_cuts s (r ∷ rs) = not (is_cut s (code r)) && never_cuts (step s (code r)) rs

abbrev pub is_at_rest : Scan → Bool
is_at_rest s = not s.escape && (not s.in_string && (not s.in_raw && is_balanced s))

-- A segment with no bar at its top level, whose strings, expressions and brackets are closed.
abbrev pub is_closed : List Char → Bool
is_closed seg = never_cuts outside seg && is_at_rest (scan_all outside seg)

join_bars-extend :
    (out : List (List Char)) (b t : List Char)
    → join_bars (out ++ (b ++ t) ∷ []) ≡ join_bars (out ++ b ∷ []) ++ t
join_bars-extend [] b t = refl
join_bars-extend (x ∷ []) b t = sym (append_assoc x (bar ∷ b) t)
join_bars-extend (x ∷ y ∷ ys) b t =
    ap (λ j. x ++ bar ∷ j) (join_bars-extend (y ∷ ys) b t)
    ∙ sym (append_assoc x (bar ∷ join_bars (y ∷ ys ++ b ∷ [])) t)

join_bars-cut :
    (out : List (List Char)) (b : List Char)
    → join_bars ((out ++ b ∷ []) ++ [] ∷ []) ≡ join_bars (out ++ b ∷ []) ++ bar ∷ []
join_bars-cut [] b = refl
join_bars-cut (x ∷ []) b = sym (append_assoc x (bar ∷ b) (bar ∷ []))
join_bars-cut (x ∷ y ∷ ys) b =
    ap (λ j. x ++ bar ∷ j) (join_bars-cut (y ∷ ys) b)
    ∙ sym (append_assoc x (bar ∷ join_bars (y ∷ ys ++ b ∷ [])) (bar ∷ []))

check_end-ok :
    (s : Scan) (out res : List (List Char))
    → check_end s out ≡ ok res
    → (out ≡ res) × (s.in_string ≡ false) × (s.in_raw ≡ false) × (is_balanced s ≡ true)
unfolding check_end
check_end-ok s out res h = elim (Bool-cases s.in_string) [
  | inl e ↦ let bad = if-true _ _ _ _ e h in absurd (ground arith)
  | inr e ↦ elim (Bool-cases s.in_raw) [
    | inl k ↦ let bad = if-true _ _ _ _ k (if-false _ _ _ _ e h) in absurd (ground arith)
    | inr k ↦
        let h2 = if-false _ _ _ _ k (if-false _ _ _ _ e h) in
        elim (Bool-cases (is_balanced s)) [
          | inl z ↦ (ok_inj out res (if-false _ _ _ _ (ap not z) h2), e, k, z)
          | inr z ↦ let bad = if-true _ _ _ _ (ap not z) h2 in absurd (ground arith)
        ]
  ]
]

cut-bar : (s : Scan) (r : Char) → is_cut s (code r) ≡ true → (r ≡ bar) × (is_at_rest s ≡ true)
unfolding is_cut
cut-bar s r h = (Char-path r bar (ground arith), ground arith)

-- A round of the loop, in its two cases.
at_cut :
    (s : Scan) (out : List (List Char)) (b rs : List Char) (r : Char)
    → is_cut s (code r) ≡ true
    → split_loop s out b (r ∷ rs) ≡ split_loop s (out ++ b ∷ []) [] rs
unfolding split_loop
at_cut s out b rs r e = rw e refl

at_other :
    (s : Scan) (out : List (List Char)) (b rs : List Char) (r : Char)
    → is_cut s (code r) ≡ false
    → split_loop s out b (r ∷ rs) ≡ split_loop (step s (code r)) out (b ++ r ∷ []) rs
unfolding split_loop
at_other s out b rs r e = rw e refl

at_end :
    (s : Scan) (out : List (List Char)) (b : List Char)
    → split_loop s out b [] ≡ check_end s (out ++ b ∷ [])
unfolding split_loop
at_end s out b = refl

split_loop-join :
    (s : Scan) (out : List (List Char)) (b rs : List Char) (res : List (List Char))
    → split_loop s out b rs ≡ ok res
    → join_bars res ≡ join_bars (out ++ b ∷ []) ++ rs
split_loop-join s out b [] res h =
    ap join_bars (sym (check_end-ok s (out ++ b ∷ []) res (sym (at_end s out b) ∙ h)).0)
    ∙ sym (append-nil (join_bars (out ++ b ∷ [])))
split_loop-join s out b (r ∷ rs) res h = elim (Bool-cases (is_cut s (code r))) [
  | inl e ↦
      split_loop-join s (out ++ b ∷ []) [] rs res (sym (at_cut s out b rs r e) ∙ h)
      ∙ ap (λ j. j ++ rs) (join_bars-cut out b)
      ∙ append_assoc (join_bars (out ++ b ∷ [])) (bar ∷ []) rs
      ∙ ap (λ c. join_bars (out ++ b ∷ []) ++ c ∷ rs) (sym (cut-bar s r e).0)
  | inr e ↦
      split_loop-join (step s (code r)) out (b ++ r ∷ []) rs res (sym (at_other s out b rs r e) ∙ h)
      ∙ ap (λ j. j ++ rs) (join_bars-extend out b (r ∷ []))
      ∙ append_assoc (join_bars (out ++ b ∷ [])) (r ∷ []) rs
]

-- A closed segment is scanned to its end, where the scan is where it was at the start.
scan_segment :
    (seg : List Char) (s : Scan) (out : List (List Char)) (b rest : List Char)
    → never_cuts s seg ≡ true
    → split_loop s out b (seg ++ rest) ≡ split_loop (scan_all s seg) out (b ++ seg) rest
scan_segment [] s out b rest h = ap (λ c. split_loop s out c rest) (sym (append-nil b))
scan_segment (r ∷ seg) s out b rest h =
    at_other s out b (seg ++ rest) r (ground arith)
    ∙ scan_segment seg (step s (code r)) out (b ++ r ∷ []) rest (ground arith)
    ∙ ap (λ c. split_loop (scan_all (step s (code r)) seg) out c rest) (append_assoc b (r ∷ []) seg)

is_zero-pos : (z : ℤ) → is_zero z ≡ true → z ≡ pos 0
is_zero-pos (pos zero) h = refl
is_zero-pos (pos (suc n)) h = absurd (ground arith)
is_zero-pos (negsuc n) h = absurd (ground arith)

rest-outside : (s : Scan) → is_at_rest s ≡ true → s ≡ outside
rest-outside s h =
    let e : s.escape ≡ false = ground arith in
    let i : s.in_string ≡ false = ground arith in
    let w : s.in_raw ≡ false = ground arith in
    let p = is_zero-pos s.parens (ground arith) in
    let k = is_zero-pos s.brackets (ground arith) in
    let z = is_zero-pos s.braces (ground arith) in
    λ j. record {
      parens = p j;
      brackets = k j;
      braces = z j;
      in_string = i j;
      in_raw = w j;
      escape = e j;
    }

rest-ends :
    (out : List (List Char)) (b : List Char) → split_loop outside out b [] ≡ ok (out ++ b ∷ [])
unfolding check_end
rest-ends out b = at_end outside out b

at_bar : is_cut outside (code bar) ≡ true
unfolding is_cut
at_bar = refl

closed_segments :
    (seg : List Char) (segs : List (List Char)) (out : List (List Char))
    → All (λ s. is_closed s ≡ true) (seg ∷ segs)
    → split_loop outside out [] (join_bars (seg ∷ segs)) ≡ ok (out ++ seg ∷ segs)
closed_segments seg [] out h =
    let (calm, rest) = and-true_split _ _ h.0 in
    ap (λ text. split_loop outside out [] text) (sym (append-nil seg))
    ∙ scan_segment seg outside out [] [] calm
    ∙ ap (λ s. split_loop s out seg []) (rest-outside (scan_all outside seg) rest)
    ∙ rest-ends out seg
closed_segments seg (t ∷ ts) out h =
    let (calm, rest) = and-true_split _ _ h.0 in
    scan_segment seg outside out [] (bar ∷ join_bars (t ∷ ts)) calm
    ∙ ap (λ s. split_loop s out seg (bar ∷ join_bars (t ∷ ts)))
        (rest-outside (scan_all outside seg) rest)
    ∙ at_cut outside out seg (join_bars (t ∷ ts)) bar at_bar
    ∙ closed_segments t ts (out ++ seg ∷ []) h.1
    ∙ ap ok (append_assoc out (seg ∷ []) (t ∷ ts))

-- An escape is only under way inside a string.
abbrev is_sane : Scan → Bool
is_sane s = not s.escape || s.in_string

step-sane : (s : Scan) (r : Char) → is_sane s ≡ true → is_sane (step s (code r)) ≡ true
unfolding step
step-sane s r h = ground arith

never_cuts-snoc :
    (s : Scan) (b : List Char) (r : Char)
    → never_cuts s (b ++ r ∷ []) ≡ (never_cuts s b && not (is_cut (scan_all s b) (code r)))
never_cuts-snoc s [] r = ground arith
never_cuts-snoc s (c ∷ b) r = ground (arith, never_cuts-snoc (step s (code c)) b r)

scan_all-snoc :
    (s : Scan) (b : List Char) (r : Char) → scan_all s (b ++ r ∷ []) ≡ step (scan_all s b) (code r)
scan_all-snoc s [] r = refl
scan_all-snoc s (c ∷ b) r = scan_all-snoc (step s (code c)) b r

closed_pieces :
    (s : Scan) (out : List (List Char)) (b rs : List Char) (res : List (List Char))
    → split_loop s out b rs ≡ ok res
    → All (λ seg. is_closed seg ≡ true) out
    → scan_all outside b ≡ s
    → never_cuts outside b ≡ true
    → is_sane s ≡ true
    → All (λ seg. is_closed seg ≡ true) res
closed_pieces s out b [] res h closed here calm sane =
    let (made, string, raw, balanced) =
      check_end-ok s (out ++ b ∷ []) res (sym (at_end s out b) ∙ h) in
    let rest : is_at_rest s ≡ true = ground arith in
    subst (λ o. All (λ seg. is_closed seg ≡ true) o) made
      (All-append (λ seg. is_closed seg ≡ true) out (b ∷ []) closed (rw (calm, here) rest, tt))
closed_pieces s out b (r ∷ rs) res h closed here calm sane = elim (Bool-cases (is_cut s (code r))) [
  | inl e ↦
      let rest = (cut-bar s r e).1 in
      closed_pieces s (out ++ b ∷ []) [] rs res (sym (at_cut s out b rs r e) ∙ h)
        (All-append (λ seg. is_closed seg ≡ true) out (b ∷ []) closed (rw (calm, here) rest, tt))
        (sym (rest-outside s rest)) refl sane
  | inr e ↦
      closed_pieces (step s (code r)) out (b ++ r ∷ []) rs res (sym (at_other s out b rs r e) ∙ h)
        closed (scan_all-snoc outside b r ∙ ap (λ x. step x (code r)) here)
        (never_cuts-snoc outside b r ∙ rw (calm, here, e) refl) (step-sane s r sane)
]

-- A text that is split: the segments with bars between them are the text, and each of them is
-- closed, that is, has no bar outside its strings, expressions and brackets, which are balanced.
pub split_top_level-join :
    (text : List Char) (segs : List (List Char))
    → split_top_level text ≡ ok segs
    → (join_bars segs ≡ text) × All (λ seg. is_closed seg ≡ true) segs
unfolding split_top_level
split_top_level-join text segs h = (
  split_loop-join outside [] [] text segs h,
  closed_pieces outside [] [] text segs h tt refl refl refl,
)

-- Closed segments that are joined by bars are found again.
pub join_bars-split :
    (seg : List Char) (segs : List (List Char))
    → All (λ s. is_closed s ≡ true) (seg ∷ segs)
    → split_top_level (join_bars (seg ∷ segs)) ≡ ok (seg ∷ segs)
unfolding split_top_level
join_bars-split seg segs h = closed_segments seg segs [] h
