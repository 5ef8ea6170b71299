-- ===== src/Pipe/Plan/Scan.antt =====
-- The folded prefix of a pipe (`PlanPipe` of pipe/planner.go): which stages it can hold.
use dql.Prelude.{
  ℕ, suc, String, Bool, true, false, not, ◌&&◌, ◌||◌, ◌≡◌, refl, ◌∙◌, ap, subst, List, [], ◌∷◌,
  ◌++◌, Option, none, some, Outcome, ok, err, arith, if-true, if-false, All, any, Bool-cases, inl,
  inr, str_eq, is_nil, if◌then◌else◌,
}
use dql.Dsl.Tree.{has_expr_where}
use dql.Pipe.Operator.{Stage, PipeError}
use dql.Pipe.Moves.{
  Codec, Prefix, Move, refuse, barrier, fold, fold_last, fold_pair, reading, op_move,
  all_aggregates_pushable, filter_move, project_move, sort_move, limit_move, skip_move, group_move,
  aggregate_move,
}
use dql.Pipe.Plan.{after_move, is_held, head, scan}

module _ {F : Type 0} where
  -- Whether a move folds two stages.
  abbrev is_pair : Move F → Bool
  is_pair (refuse e) = false
  is_pair barrier = false
  is_pair (fold p) = false
  is_pair (fold_last p) = false
  is_pair (fold_pair p) = true

module _ {J F : Type 0} (codec : Codec J F) where
  is_pair-reading :
      {A : Type 0} (i : ℕ) (op : String) (r : Outcome String A) (next : A → Move F)
      → ((a : A) → is_pair (next a) ≡ false)
      → is_pair (reading i op r next) ≡ false
  is_pair-reading i op (ok a) next h = h a
  is_pair-reading i op (err e) next h = refl

  is_pair-if :
      (b : Bool) (x y : Move F)
      → is_pair x ≡ false
      → is_pair y ≡ false
      → is_pair (if b then x else y) ≡ false
  is_pair-if true x y hx hy = hx
  is_pair-if false x y hx hy = hy

  peel :
      (b : Bool) (x y : Move F)
      → is_pair x ≡ false
      → is_pair (if b then x else y) ≡ true
      → is_pair y ≡ true
  peel true x y hx h = absurd (ground arith)
  peel false x y hx h = h

  filter_single : (i : ℕ) (cfg : J) (p : Prefix F) → is_pair (filter_move codec i cfg p) ≡ false
  filter_single i cfg p = is_pair-if (p.have_sort || (p.have_limit || p.have_skip)) barrier _ refl (
      is_pair-reading i "filter" (codec.read_filter cfg) _
        (λ w. is_pair-if (has_expr_where w) barrier _ refl refl))

  project_single : (i : ℕ) (cfg : J) (p : Prefix F) → is_pair (project_move codec i cfg p) ≡ false
  project_single i cfg p =
      is_pair-if (p.have_select || (p.have_limit || p.have_skip)) barrier _ refl (
        is_pair-reading i "project" (codec.read_project cfg) _
          (λ c. is_pair-if (not (is_nil c.drop) || is_nil c.select) barrier _ refl refl))

  sort_single : (i : ℕ) (cfg : J) (p : Prefix F) → is_pair (sort_move codec i cfg p) ≡ false
  sort_single i cfg p = is_pair-if (p.have_limit || p.have_skip) barrier _ refl (
      is_pair-reading i "sort" (codec.read_sort cfg) _
        (λ by. is_pair-if (any (λ o. str_eq o.field "") by) barrier _ refl refl))

  limit_single : (i : ℕ) (cfg : J) (p : Prefix F) → is_pair (limit_move codec i cfg p) ≡ false
  limit_single i cfg p = is_pair-reading i "limit" (codec.read_limit cfg) _ (λ n. refl)

  skip_single : (i : ℕ) (cfg : J) (p : Prefix F) → is_pair (skip_move codec i cfg p) ≡ false
  skip_single i cfg p =
      is_pair-if p.have_limit barrier _ refl
        (is_pair-reading i "skip" (codec.read_skip cfg) _ (λ n. refl))

  aggregate_single :
      (i : ℕ) (cfg : J) (p : Prefix F) → is_pair (aggregate_move codec i cfg p) ≡ false
  aggregate_single i cfg p =
      is_pair-reading i "aggregate" (codec.read_aggregate cfg) _
        (λ a. is_pair-if (not (all_aggregates_pushable a.aggs)) barrier _ refl refl)

  group_move-pair :
      (i : ℕ) (cfg : J) (next : Option (Stage J)) (p : Prefix F)
      → is_pair (group_move codec i cfg next p) ≡ true
      → (t : Stage J) × (next ≡ some t) × (str_eq t.op "aggregate" ≡ true)
  group_move-pair i cfg none p h = absurd (ground arith)
  group_move-pair i cfg (some t) p h = (
    t,
    refl,
    elim (Bool-cases (str_eq t.op "aggregate")) [ inl e ↦ e | inr e ↦ absurd (ground arith) ],
  )

  -- Only a grouping with an aggregation right behind it is folded as two stages.
  op_move-pair :
      (i : ℕ) (s : Stage J) (next : Option (Stage J)) (p : Prefix F)
      → is_pair (op_move codec i s next p) ≡ true
      → (t : Stage J) × (next ≡ some t)
        × (str_eq s.op "groupBy" ≡ true)
        × (str_eq t.op "aggregate" ≡ true)
  unfolding op_move
  op_move-pair i s next p h =
      let grouped = peel (str_eq s.op "skip") _ _ (skip_single i s.config p) (
        peel (str_eq s.op "limit") _ _ (limit_single i s.config p) (
          peel (str_eq s.op "sort") _ _ (sort_single i s.config p) (
            peel (str_eq s.op "project") _ _ (project_single i s.config p)
              (peel (str_eq s.op "filter") _ _ (filter_single i s.config p) h)))) in
      elim (Bool-cases (str_eq s.op "groupBy")) [
        | inl e ↦
            let chosen : is_pair (group_move codec i s.config next p) ≡ true = ground arith in
            let (t, et, eo) = group_move-pair i s.config next p chosen in (t, et, e, eo)
        | inr e ↦
            let other =
              is_pair-if (str_eq s.op "aggregate") _ barrier (aggregate_single i s.config p) refl in
            absurd (ground arith)
      ]

module _ {J : Type 0} where
  -- Whether each aggregation right behind a grouping is without an id and without an input's name.
  abbrev pub plain_pairs : List (Stage J) → Bool
  plain_pairs [] = true
  plain_pairs (s ∷ []) = true
  plain_pairs (s ∷ t ∷ ss) =
      (not (str_eq s.op "groupBy" && str_eq t.op "aggregate")
        || (str_eq t.id "" && str_eq t.from ""))
      && plain_pairs (t ∷ ss)

  -- The stages that were folded, none of which the graph holds, and the rest.
  pub record Split (referenced : List String) (ss rest : List (Stage J)) : Type 0 where
    pub folded : List (Stage J)
    pub whole : ss ≡ folded ++ rest
    pub free : All (λ s. is_held referenced s ≡ false) folded

  nothing_folded :
      (referenced : List String) (ss rest : List (Stage J)) → ss ≡ rest → Split referenced ss rest
  nothing_folded referenced ss rest e = record { folded = []; whole = e; free = tt }

  one_more :
      (referenced : List String) (s : Stage J) (ss rest : List (Stage J))
      → is_held referenced s ≡ false
      → Split referenced ss rest
      → Split referenced (s ∷ ss) rest
  one_more referenced s ss rest h r = record {
    folded = s ∷ r.folded;
    whole = ap (◌∷◌ s) r.whole;
    free = (h, r.free);
  }

  pair_folded :
      (referenced : List String) (s t : Stage J) (ss : List (Stage J))
      → str_eq s.op "groupBy" ≡ true
      → str_eq t.op "aggregate" ≡ true
      → plain_pairs (s ∷ t ∷ ss) ≡ true
      → is_held referenced s ≡ false
      → Split referenced (s ∷ t ∷ ss) ss
  pair_folded referenced s t ss hs ht plain h = record {
    folded = s ∷ t ∷ [];
    whole = refl;
    free = (h, (ground arith, tt));
  }

  plain_rest :
      (s : Stage J) (ss : List (Stage J)) → plain_pairs (s ∷ ss) ≡ true → plain_pairs ss ≡ true
  plain_rest s [] h = refl
  plain_rest s (t ∷ ss) h = ground arith

-- What `ok` was given.
ok_pair :
    {A B : Type 0} (a a' : A) (b b' : B)
    → ◌≡◌ {A = Outcome PipeError (A × B)} (ok (a, b)) (ok (a', b'))
    → b ≡ b'
ok_pair a a' b b' h = ground arith

module _ {J F : Type 0} (codec : Codec J F) (referenced : List String) where
  scan_move :
      (i : ℕ) (s : Stage J) (ss : List (Stage J)) (p p' : Prefix F) (rest : List (Stage J))
      (m : Move F)
      → op_move codec i s (head ss) p ≡ m
      → plain_pairs (s ∷ ss) ≡ true
      → is_held referenced s ≡ false
      → ((q : Prefix F)
          → scan codec referenced (suc i) ss q ≡ ok (p', rest)
          → Split referenced ss rest)
      → after_move codec (scan codec referenced (suc i) ss) s ss p m ≡ ok (p', rest)
      → Split referenced (s ∷ ss) rest
  scan_move i s ss p p' rest (refuse e) em plain free ih h = absurd (ground arith)
  scan_move i s ss p p' rest barrier em plain free ih h =
      nothing_folded referenced _ rest (ok_pair p p' _ rest h)
  scan_move i s ss p p' rest (fold q) em plain free ih h =
      one_more referenced s ss rest free (ih q h)
  scan_move i s ss p p' rest (fold_last q) em plain free ih h =
      one_more referenced s ss rest free
        (nothing_folded referenced ss rest (ok_pair q p' ss rest h))
  scan_move i s [] p p' rest (fold_pair q) em plain free ih h =
      let (t, et, hs, ht) = op_move-pair codec i s none p (ap is_pair em) in absurd (ground arith)
  scan_move i s (u ∷ us) p p' rest (fold_pair q) em plain free ih h =
      let (t, et, hs, ht) = op_move-pair codec i s (some u) p (ap is_pair em) in
      subst (Split referenced (s ∷ u ∷ us)) (ok_pair q p' us rest h) (
        pair_folded referenced s u us hs
          (let e : u ≡ t = ground arith in ap (λ x. str_eq x.op "aggregate") e ∙ ht) plain free)

  -- The loop folds a prefix, in which no stage is held by the graph.
  pub scan-Split :
      (i : ℕ) (ss : List (Stage J)) (p p' : Prefix F) (rest : List (Stage J))
      → plain_pairs ss ≡ true
      → scan codec referenced i ss p ≡ ok (p', rest)
      → Split referenced ss rest
  unfolding scan
  scan-Split i [] p p' rest plain h = nothing_folded referenced [] rest (ok_pair p p' [] rest h)
  scan-Split i (s ∷ ss) p p' rest plain h = elim (Bool-cases (is_held referenced s)) [
    | inl e ↦
        nothing_folded referenced _ rest
          (ok_pair p p' _ rest (if-true (is_held referenced s) _ _ _ e h))
    | inr e ↦
        scan_move i s ss p p' rest (op_move codec i s (head ss) p) refl plain e
          (λ q. scan-Split (suc i) ss q p' rest (plain_rest s ss plain))
          (if-false (is_held referenced s) _ _ _ e h)
  ]
