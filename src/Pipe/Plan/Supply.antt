-- ===== src/Pipe/Plan/Supply.antt =====
-- The inputs that the stages of an accepted pipe name (pipe/planner.go), as the executor's run of
-- the tail finds them (pipe/executor.go).
use dql.Prelude.{
  ℕ, suc, ◌-◌, String, Bool, true, false, ◌≡◌, refl, sym, ◌∙◌, ap, subst, List, [], ◌∷◌, ◌++◌,
  append_assoc, Option, none, some, Outcome, ok, map_err, bind_ok, arith, All, contains, str_eq,
  eq_iff, length,
}
use dql.Go.Row.{Row}
use dql.Dsl.Query.{Query}
use dql.Pipe.Operator.{PipeError, at_stage, Stage, Operator, Factory, build}
use dql.Pipe.Execute.{ExecutorConfig, PipePlan, start_run, apply_in_memory_ops}
use dql.Pipe.Graph.{validate_stage_graph}
use dql.Pipe.Graph.Sound.{ids_of, validate_stage_graph_sound}
use dql.Pipe.Moves.{Codec}
use dql.Pipe.Plan.{is_held, froms_of, scan, start_prefix, build_tail, pipe_plan, unless, plan_pipe}
use dql.Pipe.Plan.Scan.{plain_pairs, Split, scan-Split}
use dql.Pipe.Execute.Inputs.{is_missing, contains_append, Named, run_stages-present}

free_of :
    {J : Type 0} (referenced : List String) (folded : List (Stage J)) (x : String)
    → All (λ s. is_held referenced s ≡ false) folded
    → str_eq x "" ≡ false
    → contains referenced x ≡ true
    → contains (ids_of folded) x ≡ false
free_of referenced [] x free nonempty h = refl
free_of referenced (s ∷ ss) x free nonempty h = ground (
  arith,
  free_of referenced ss x free.1 nonempty h,
  free.0,
  eq_iff s.id x,
  eq_iff x "",
  eq_iff s.id "",
)

froms_of-here :
    {J : Type 0} (before : List (Stage J)) (s : Stage J) (after : List (Stage J))
    → str_eq s.from "" ≡ false
    → contains (froms_of (before ++ s ∷ after)) s.from ≡ true
froms_of-here [] s after h = ground (arith, eq_iff s.from s.from)
froms_of-here (t ∷ ts) s after h = ground (arith, froms_of-here ts s after h)

-- The stages that a folded prefix leaves find their inputs among themselves.
rest-Named :
    {J : Type 0} (stages rest : List (Stage J))
    → validate_stage_graph stages ≡ none
    → Split (froms_of stages) stages rest
    → Named rest
rest-Named stages rest valid split before s after e h =
    let whole : stages ≡ (split.folded ++ before) ++ s ∷ after =
      split.whole
      ∙ ap (λ r. split.folded ++ r) e
      ∙ sym (append_assoc split.folded before (s ∷ after)) in
    let sound =
      validate_stage_graph_sound (split.folded ++ before) s after
        (subst (λ t. validate_stage_graph t ≡ none) whole valid) in
    let earlier : contains (ids_of (split.folded ++ before)) s.from ≡ true =
      ground (arith, sound.1) in
    let referenced =
      subst (λ t. contains (froms_of t) s.from ≡ true) (sym whole)
        (froms_of-here (split.folded ++ before) s after h) in
    let free = free_of (froms_of stages) split.folded s.from split.free h referenced in
    ground (arith, contains_append split.folded before s.from, earlier, free)

unless_ok :
    {A : Type 0} (v : Option PipeError) (r : Outcome PipeError A) (a : A)
    → unless v r ≡ ok a
    → (v ≡ none) × (r ≡ ok a)
unless_ok none r a h = (refl, h)
unless_ok (some e) r a h = absurd (ground arith)

build_tail-length :
    {J F W : Type 0} (registry : List (String × Factory J F W)) (i : ℕ) (ss : List (Stage J))
    (ops : List (Operator F W))
    → build_tail registry i ss ≡ ok ops
    → length ops ≡ length ss
unfolding build_tail
build_tail-length registry i [] [] h = refl
build_tail-length registry i [] (op ∷ ops) h = absurd (ground arith)
build_tail-length registry i (s ∷ ss) ops h =
    let (op, built, h1) = bind_ok (map_err (at_stage i "") (build registry s)) _ ops h in
    let (ops', tail, h2) = bind_ok (build_tail registry (suc i) ss) _ ops h1 in
    let same : op ∷ ops' ≡ ops = ground arith in
    subst (λ os. length os ≡ suc (length ss)) same
      (ap suc (build_tail-length registry (suc i) ss ops' tail))

module _ {J F W : Type 0} (codec : Codec J F) (registry : List (String × Factory J F W)) where
  -- A pipe that is planned, in which no aggregation that a grouping takes along has an id or names
  -- its input, runs without an error for a named input that is missing, whatever its operators do.
  pub plan_pipe-supplied :
      (q : Query F) (s : Stage J) (ss : List (Stage J)) (plan : PipePlan F W) (cfg : ExecutorConfig)
      (collect : Bool) (rows : List (Row F)) (w : W)
      → plain_pairs (s ∷ ss) ≡ true
      → plan_pipe codec registry (some q) (s ∷ ss) ≡ ok plan
      → is_missing (apply_in_memory_ops cfg plan collect rows w) ≡ false
  unfolding plan_pipe apply_in_memory_ops
  plan_pipe-supplied q s ss plan cfg collect rows w plain h =
      let (valid, scanned) = unless_ok (validate_stage_graph (s ∷ ss)) _ plan h in
      let (r, split, h1) =
        bind_ok (scan codec (froms_of (s ∷ ss)) 0 (s ∷ ss) (start_prefix q)) _ plan scanned in
      let (ops, built, h2) =
        bind_ok (build_tail registry (length (s ∷ ss) - length r.1) r.1) _ plan h1 in
      let same : pipe_plan r.0 r.1 ops ≡ plan = ground arith in
      subst (λ p. is_missing (apply_in_memory_ops cfg p collect rows w) ≡ false) same
        (run_stages-present cfg (pipe_plan r.0 r.1 ops) collect [] r.1 ops
          (start_run cfg (pipe_plan r.0 r.1 ops) rows) w refl refl
          (build_tail-length registry _ r.1 ops built)
          (rest-Named (s ∷ ss) r.1 valid
            (scan-Split codec (froms_of (s ∷ ss)) 0 (s ∷ ss) (start_prefix q) r.0 r.1 plain split))
          (λ x nonempty none_before. absurd (ground arith)))
