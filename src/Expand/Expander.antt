-- ===== src/Expand/Expander.antt =====
-- expand/expander.go and expand/resolvers.go. The order in which Go walks its maps is unspecified,
-- and nothing here depends on it; a set of ids is a list. How a map of entries stands in a row, as
-- an `any`, is a parameter.
use Prim.Native.String.{◌++◌ as str_append}
use dql.Prelude.{
  String, Bool, true, false, ◌||◌, List, [], ◌∷◌, ◌++◌, map, keep, Option, none, some, Outcome, ok,
  err, ◌>>=◌, is_nil, str_eq, if◌then◌else◌,
}
use dql.Go.Value.{Value, str}
use dql.Go.Text.{join}
use dql.Go.Row.{Row, lookup, put}
use dql.Dsl.Query.{ColumnMeta, DatasetInfo}

-- `dsl.ExpandConfig`.
pub record ExpandConfig : Type 0 where
  pub every : Bool
  pub columns : List String

pub record User : Type 0 where
  pub id : String
  pub display_name : String
  pub email : String
  pub avatar_url : String

pub record Team : Type 0 where
  pub id : String
  pub name : String

-- The map that is put for an id, by its "_type".
pub data Entry : Type 0 where
  user_entry : User → Entry
  team_entry : Team → Entry

-- `Expander`: either resolver may be nil. A resolver's error and a nil result are both none.
pub record Expander : Type 0 where
  pub users : Option (String → Option User)
  pub teams : Option (String → Option Team)

abbrev pub RefMap : Type 0
RefMap = List (String × String)

abbrev pub Entries : Type 0
Entries = List (String × Entry)

-- `systemUserColumns`.
abbrev pub system_user_columns : List String
system_user_columns = "created_by" ∷ "updated_by" ∷ "deleted_by" ∷ "committed_by" ∷ []

-- The loops that fill `expandable`.
abbrev pub dataset_refs : List ColumnMeta → RefMap → RefMap
dataset_refs [] refs = refs
dataset_refs (c ∷ cs) refs =
    dataset_refs cs (if str_eq c.ref_dataset "" then refs else put refs c.name c.ref_dataset)

abbrev pub system_refs : List String → RefMap → RefMap
system_refs [] refs = refs
system_refs (c ∷ cs) refs =
    system_refs cs (elim (lookup refs c) [ none ↦ put refs c "@user" | some r ↦ refs ])

unfoldable pub expandable : List ColumnMeta → RefMap
unfolding put
expandable cols = system_refs system_user_columns (dataset_refs cols [])

-- The loop over the requested columns: those that can be expanded, and the invalid ones.
unfoldable pub pick : RefMap → List String → RefMap × List String → RefMap × List String
unfolding put
pick all [] acc = acc
pick all (c ∷ cs) (refs, invalid) =
    pick all cs
      (elim (lookup all c) [ none ↦ (refs, invalid ++ c ∷ []) | some r ↦ (put refs c r, invalid) ])

abbrev pub is_present {ℓ} : {A : Type ℓ} → Option A → Bool
is_present none = false
is_present (some a) = true

-- Whether there is a resolver for a type of reference.
abbrev pub is_resolvable : Expander → String → Bool
is_resolvable x ref =
    if str_eq ref "@user"
    then is_present x.users
    else if str_eq ref "@team"
    then is_present x.teams
    else false

abbrev pub picked : RefMap × List String → Outcome String RefMap
picked (refs, []) = ok refs
picked (refs, c ∷ cs) =
    err (str_append "cannot expand non-reference columns: " (join ", " (c ∷ cs)))

-- The columns of a dataset, none for a nil one.
abbrev pub columns_of : Option DatasetInfo → List ColumnMeta
columns_of none = []
columns_of (some dataset) = dataset.columns

-- `buildRefMap`.
unfoldable pub build_ref_map : Expander → Option DatasetInfo → ExpandConfig → Outcome String RefMap
unfolding expandable pick join
build_ref_map x dataset config =
    (if config.every
      then ok (expandable (columns_of dataset))
      else picked (pick (expandable (columns_of dataset)) config.columns ([], [])))
    >>= λ refs. ok (keep (λ r. is_resolvable x r.1) refs)

-- The sets of ids, of users and of teams.
abbrev pub Ids : Type 0
Ids = List String × List String

abbrev pub note_id : String → String → Ids → Ids
note_id ref id (users, teams) =
    if str_eq ref "@user"
    then (id ∷ users, teams)
    else if str_eq ref "@team"
    then (users, id ∷ teams)
    else (users, teams)

abbrev pub note_found : String → Option String → Ids → Ids
note_found ref none ids = ids
note_found ref (some id) ids = note_id ref id ids

-- `resolveUsers` and `resolveTeams`: what is found of the ids.
unfoldable pub resolve : {A : Type 0} → Option (String → Option A) → List String → List (String × A)
unfolding put
resolve none ids = []
resolve (some f) [] = []
resolve (some f) (id ∷ ids) =
    let rest = resolve (some f) ids in elim (f id) [ none ↦ rest | some a ↦ put rest id a ]

-- What stands for an id, by the type of the reference.
abbrev pub entry_of :
    (String → Option User) → (String → Option Team) → String → String → Option Entry
entry_of users teams ref id =
    if str_eq ref "@user"
    then elim (users id) [ none ↦ none | some u ↦ some (user_entry u) ]
    else if str_eq ref "@team"
    then elim (teams id) [ none ↦ none | some t ↦ some (team_entry t) ]
    else none

abbrev pub put_entry : Entries → String → Option Entry → Entries
put_entry meta col none = meta
put_entry meta col (some e) = put meta col e

abbrev pub put_found :
    (String → Option User)
    → (String → Option Team)
    → Entries
    → String
    → String
    → Option String
    → Entries
put_found users teams meta col ref none = meta
put_found users teams meta col ref (some id) = put_entry meta col (entry_of users teams ref id)

module _ {F : Type 0} where
  abbrev pub id_text : Value F → Option String
  id_text (str s) = if str_eq s "" then none else some s
  id_text v = none

  -- `rowString`.
  unfoldable pub row_string : Row F → String → Option String
  row_string row col = elim (lookup row col) [ none ↦ none | some v ↦ id_text v ]

  -- The loop that collects the ids of a row, and the loop over the rows.
  unfoldable pub collect_row : RefMap → Row F → Ids → Ids
  unfolding row_string
  collect_row [] row ids = ids
  collect_row ((col, ref) ∷ refs) row ids =
      note_found ref (row_string row col) (collect_row refs row ids)

  unfoldable pub collect : RefMap → List (Row F) → Ids
  unfolding collect_row
  collect refs [] = ([], [])
  collect refs (row ∷ rows) = collect_row refs row (collect refs rows)

  -- The inner loop that fills `meta`.
  unfoldable pub fill_meta :
      (String → Option User) → (String → Option Team) → RefMap → Row F → Entries → Entries
  unfolding put row_string
  fill_meta users teams [] row meta = meta
  fill_meta users teams ((col, ref) ∷ refs) row meta =
      fill_meta users teams refs row (put_found users teams meta col ref (row_string row col))

  -- `if len(meta) > 0 { row["_meta"] = meta }`.
  unfoldable pub inject : (Entries → Value F) → Entries → Row F → Row F
  unfolding put
  inject as_value meta row = if is_nil meta then row else put row "_meta" (as_value meta)

  -- The rows with what is found of the ids, looked up by these functions.
  abbrev pub inject_all :
      (Entries → Value F)
      → (String → Option User)
      → (String → Option Team)
      → RefMap
      → List (Row F)
      → List (Row F)
  inject_all as_value users teams refs rows =
      map (λ row. inject as_value (fill_meta users teams refs row []) row) rows

  abbrev pub expand_refs : (Entries → Value F) → Expander → RefMap → List (Row F) → List (Row F)
  expand_refs as_value x refs rows =
      let ids = collect refs rows in
      let users = resolve x.users ids.0 in
      let teams = resolve x.teams ids.1 in
      if is_nil refs || is_nil rows
      then rows
      else inject_all as_value (lookup users) (lookup teams) refs rows

  -- `Expand`: the rows as it leaves them.
  unfoldable pub expand :
      (Entries → Value F)
      → Expander
      → Option ExpandConfig
      → Option DatasetInfo
      → List (Row F)
      → Outcome String (List (Row F))
  unfolding build_ref_map resolve collect fill_meta inject
  expand as_value x none dataset rows = ok rows
  expand as_value x (some config) dataset rows =
      build_ref_map x dataset config >>= λ refs. ok (expand_refs as_value x refs rows)
