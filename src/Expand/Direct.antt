-- ===== src/Expand/Direct.antt =====
-- The batched resolution of ids (expand/expander.go) against the look-up of each where it stands.
use dql.Prelude.{
  String, Bool, true, ◌≡◌, refl, sym, ◌∙◌, ap, subst, List, [], ◌∷◌, Option, none, some, Outcome,
  ok, ◌>>=◌, arith, contains, All, str_eq, eq_iff, Option-cases, Outcome-cases, inl, inr, length,
  length-map, if◌then◌else◌, bind_ok, ok_inj,
}
use dql.Go.Value.{Value}
use dql.Go.Row.{Row, lookup, lookup-put}
use dql.Dsl.Query.{DatasetInfo}
use dql.Expand.Expander.{
  ExpandConfig, User, Team, Expander, RefMap, Entries, Ids, build_ref_map, note_id, resolve,
  entry_of, put_entry, put_found, note_found, row_string, collect_row, collect, fill_meta, inject,
  inject_all, expand_refs, expand,
}

-- A resolver that may be nil, asked for one id.
abbrev pub ask : {A : Type 0} → Option (String → Option A) → String → Option A
ask none id = none
ask (some f) id = f id

-- The reference definition: each id is asked for where it stands.
abbrev pub expand_each :
    {F : Type 0}
    → (Entries → Value F)
    → Expander
    → Option ExpandConfig
    → Option DatasetInfo
    → List (Row F)
    → Outcome String (List (Row F))
expand_each as_value x none dataset rows = ok rows
expand_each as_value x (some config) dataset rows = build_ref_map x dataset config >>= λ refs.
    ok (inject_all as_value (ask x.users) (ask x.teams) refs rows)

-- What is resolved of a set of ids.
resolve_lem :
    {A : Type 0} (o : Option (String → Option A)) (ids : List String) (id : String)
    → lookup (resolve o ids) id ≡ (if contains ids id then ask o id else none)
unfolding resolve
resolve_lem none ids id = ground arith
resolve_lem (some f) [] id = refl
resolve_lem (some f) (i ∷ ids) id = elim (Option-cases (f i)) [
  | inl e ↦ rw e (ground (arith, eq_iff i id, resolve_lem (some f) ids id, e))
  | inr (a, e) ↦ rw e (
      ground (
        arith,
        eq_iff i id,
        resolve_lem (some f) ids id,
        e,
        lookup-put (resolve (some f) ids) i id a,
      ))
]

-- Whether the id of such a reference is in its set.
abbrev knows : Ids → String → String → Bool
knows ids ref id =
    if str_eq ref "@user"
    then contains ids.0 id
    else if str_eq ref "@team"
    then contains ids.1 id
    else true

note_id-here : (ref id : String) (ids : Ids) → knows (note_id ref id ids) ref id ≡ true
note_id-here ref id ids = ground (arith, eq_iff id id)

note_id_mono :
    (r i : String) (ids : Ids) (ref id : String)
    → knows ids ref id ≡ true
    → knows (note_id r i ids) ref id ≡ true
note_id_mono r i ids ref id h = ground arith

entry_of-known :
    (x : Expander) (ids : Ids) (ref id : String)
    → knows ids ref id ≡ true
    → entry_of (lookup (resolve x.users ids.0)) (lookup (resolve x.teams ids.1)) ref id
      ≡ entry_of (ask x.users) (ask x.teams) ref id
entry_of-known x ids ref id h =
    ground (arith, resolve_lem x.users ids.0 id, resolve_lem x.teams ids.1 id)

note_found_mono :
    (r : String) (o : Option String) (ids : Ids) (ref id : String)
    → knows ids ref id ≡ true
    → knows (note_found r o ids) ref id ≡ true
note_found_mono r none ids ref id h = h
note_found_mono r (some i) ids ref id h = note_id_mono r i ids ref id h

note_found-here :
    (ref id : String) (o : Option String) (ids : Ids)
    → o ≡ some id
    → knows (note_found ref o ids) ref id ≡ true
note_found-here ref id o ids e =
    subst (λ x. knows (note_found ref x ids) ref id ≡ true) (sym e) (note_id-here ref id ids)

put_found-known :
    (x : Expander) (ids : Ids) (meta : Entries) (col ref : String) (o : Option String)
    → ((id : String) → o ≡ some id → knows ids ref id ≡ true)
    → put_found (lookup (resolve x.users ids.0)) (lookup (resolve x.teams ids.1)) meta col ref o
      ≡ put_found (ask x.users) (ask x.teams) meta col ref o
put_found-known x ids meta col ref none h = refl
put_found-known x ids meta col ref (some id) h =
    ap (put_entry meta col) (entry_of-known x ids ref id (h id refl))

module _ {F : Type 0} where
  -- The ids of a row that its references name are in the sets.
  abbrev Covers : Ids → Row F → RefMap → Type 0
  Covers ids row [] = Unit
  Covers ids row ((col, ref) ∷ refs) =
      ((id : String) → row_string row col ≡ some id → knows ids ref id ≡ true) × Covers ids row refs

  Covers-mono :
      (row : Row F) (refs : RefMap) (ids ids' : Ids)
      → ((ref id : String) → knows ids ref id ≡ true → knows ids' ref id ≡ true)
      → Covers ids row refs
      → Covers ids' row refs
  Covers-mono row [] ids ids' h c = tt
  Covers-mono row ((col, ref) ∷ refs) ids ids' h (here, rest) =
      (λ id e. h ref id (here id e), Covers-mono row refs ids ids' h rest)

  collect_row_mono :
      (refs : RefMap) (row : Row F) (ids : Ids) (ref id : String)
      → knows ids ref id ≡ true
      → knows (collect_row refs row ids) ref id ≡ true
  unfolding collect_row
  collect_row_mono [] row ids ref id h = h
  collect_row_mono ((col, r) ∷ refs) row ids ref id h =
      note_found_mono r (row_string row col) (collect_row refs row ids) ref id
        (collect_row_mono refs row ids ref id h)

  collect_row-Covers :
      (refs : RefMap) (row : Row F) (ids : Ids) → Covers (collect_row refs row ids) row refs
  unfolding collect_row
  collect_row-Covers [] row ids = tt
  collect_row-Covers ((col, r) ∷ refs) row ids =
      let rest = collect_row refs row ids in
      (
        λ id e. note_found-here r id (row_string row col) rest e,
        Covers-mono row refs rest (note_found r (row_string row col) rest)
            (note_found_mono r (row_string row col) rest) (collect_row-Covers refs row ids),
      )

  All-Covers :
      (refs : RefMap) (ids ids' : Ids) (rows : List (Row F))
      → ((ref id : String) → knows ids ref id ≡ true → knows ids' ref id ≡ true)
      → All (λ row. Covers ids row refs) rows
      → All (λ row. Covers ids' row refs) rows
  All-Covers refs ids ids' [] h all = tt
  All-Covers refs ids ids' (row ∷ rows) h (here, rest) =
      (Covers-mono row refs ids ids' h here, All-Covers refs ids ids' rows h rest)

  collect-Covers :
      (refs : RefMap) (rows : List (Row F)) → All (λ row. Covers (collect refs rows) row refs) rows
  unfolding collect
  collect-Covers refs [] = tt
  collect-Covers refs (row ∷ rows) =
      let rest = collect refs rows in
      (
        collect_row-Covers refs row rest,
        All-Covers refs rest (collect_row refs row rest) rows (collect_row_mono refs row rest)
            (collect-Covers refs rows),
      )

  fill_meta-known :
      (x : Expander) (ids : Ids) (refs : RefMap) (row : Row F) (meta : Entries)
      → Covers ids row refs
      → fill_meta (lookup (resolve x.users ids.0)) (lookup (resolve x.teams ids.1)) refs row meta
        ≡ fill_meta (ask x.users) (ask x.teams) refs row meta
  unfolding fill_meta
  fill_meta-known x ids [] row meta c = refl
  fill_meta-known x ids ((col, ref) ∷ refs) row meta (here, rest) =
      ap (fill_meta (lookup (resolve x.users ids.0)) (lookup (resolve x.teams ids.1)) refs row)
        (put_found-known x ids meta col ref (row_string row col) here)
      ∙ fill_meta-known x ids refs row _ rest

  inject_all-known :
      (as_value : Entries → Value F) (x : Expander) (ids : Ids) (refs : RefMap)
      (rows : List (Row F))
      → All (λ row. Covers ids row refs) rows
      → inject_all as_value
          (lookup (resolve x.users ids.0))
          (lookup (resolve x.teams ids.1))
          refs
          rows
        ≡ inject_all as_value (ask x.users) (ask x.teams) refs rows
  inject_all-known as_value x ids refs [] all = refl
  inject_all-known as_value x ids refs (row ∷ rows) (here, rest) =
      let users = lookup (resolve x.users ids.0) in
      let teams = lookup (resolve x.teams ids.1) in
      ap (λ meta. inject as_value meta row ∷ inject_all as_value users teams refs rows)
        (fill_meta-known x ids refs row [] here)
      ∙ ap (λ tail. inject as_value (fill_meta (ask x.users) (ask x.teams) refs row []) row ∷ tail)
          (inject_all-known as_value x ids refs rows rest)

  inject_all-unreferenced :
      (as_value : Entries → Value F) (users : String → Option User) (teams : String → Option Team)
      (rows : List (Row F))
      → inject_all as_value users teams [] rows ≡ rows
  unfolding inject fill_meta
  inject_all-unreferenced as_value users teams [] = refl
  inject_all-unreferenced as_value users teams (row ∷ rows) =
      ap (λ tail. row ∷ tail) (inject_all-unreferenced as_value users teams rows)

  expand_refs-direct :
      (as_value : Entries → Value F) (x : Expander) (refs : RefMap) (rows : List (Row F))
      → expand_refs as_value x refs rows ≡ inject_all as_value (ask x.users) (ask x.teams) refs rows
  expand_refs-direct as_value x [] rows = sym (inject_all-unreferenced as_value _ _ rows)
  expand_refs-direct as_value x (r ∷ refs) [] = refl
  expand_refs-direct as_value x (r ∷ refs) (row ∷ rows) =
      inject_all-known as_value x (collect (r ∷ refs) (row ∷ rows)) (r ∷ refs) (row ∷ rows)
        (collect-Covers (r ∷ refs) (row ∷ rows))

  -- The batched resolution gives what it would give to ask the directory for each id where it
  -- stands: for all rows, datasets, configurations and directories, missing resolvers and unknown
  -- ids included, `Expand` returns the same rows as the reference definition, and the same error.
  pub expand-direct :
      (as_value : Entries → Value F) (x : Expander) (config : Option ExpandConfig)
      (dataset : Option DatasetInfo) (rows : List (Row F))
      → expand as_value x config dataset rows ≡ expand_each as_value x config dataset rows
  unfolding expand
  expand-direct as_value x none dataset rows = refl
  expand-direct as_value x (some c) dataset rows =
      elim (Outcome-cases (build_ref_map x dataset c)) [
        | inl (refs, e) ↦ rw e (ap ok (expand_refs-direct as_value x refs rows))
        | inr (bad, e) ↦ rw e refl
      ]

  inject_all-length :
      (as_value : Entries → Value F) (users : String → Option User) (teams : String → Option Team)
      (refs : RefMap) (rows : List (Row F))
      → length (inject_all as_value users teams refs rows) ≡ length rows
  inject_all-length as_value users teams refs rows = length-map _ rows

  pub expand-length :
      (as_value : Entries → Value F) (x : Expander) (config : ExpandConfig)
      (dataset : Option DatasetInfo) (rows out : List (Row F))
      → expand as_value x (some config) dataset rows ≡ ok out
      → length out ≡ length rows
  unfolding expand
  expand-length as_value x config dataset rows out h =
      let (refs, e1, h1) = bind_ok (build_ref_map x dataset config) _ out h in
      sym (ap length (ok_inj (expand_refs as_value x refs rows) out h1))
      ∙ ap length (expand_refs-direct as_value x refs rows)
      ∙ inject_all-length as_value (ask x.users) (ask x.teams) refs rows
