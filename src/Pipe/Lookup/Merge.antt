-- ===== src/Pipe/Lookup/Merge.antt =====
-- The hash join of `lookup` (pipe/lookup.go).
use dql.Prelude.{
  suc, String, Bool, true, false, ◌≡◌, refl, ◌∙◌, ap, List, [], ◌∷◌, Option, none, some,
  Option-cases, inl, inr, length, str_eq, if◌then◌else◌,
}
use dql.Go.Runtime.{Runtime}
use dql.Go.Value.{sprint}
use dql.Go.Row.{Row, lookup, put, field, lookup-put}
use dql.Pipe.Lookup.{LookupConfig, build_index, join_rows}

module _ (go : Runtime) where
  open go use {Float}

  -- Each entry of an index stands under its row's own key.
  abbrev IsKeyed : String → List (String × Row Float) → Type 0
  IsKeyed right index =
      (k : String) (r : Row Float) → lookup index k ≡ some r → sprint go (field r right) ≡ k

  -- The last row with a key, none where no row has it.
  abbrev pub last_with : String → String → List (Row Float) → Option (Row Float)
  last_with right k [] = none
  last_with right k (r ∷ rs) =
      let later = last_with right k rs in
      elim later [
        | some s ↦ some s
        | none ↦ if str_eq (sprint go (field r right)) k then some r else none
      ]

  later_or : Option (Row Float) → Option (Row Float) → Option (Row Float)
  later_or (some s) earlier = some s
  later_or none earlier = earlier

  last_wins :
      (right : String) (rows : List (Row Float)) (index : List (String × Row Float)) (k : String)
      → lookup (build_index go right index rows) k
        ≡ later_or (last_with right k rows) (lookup index k)
  unfolding build_index later_or
  last_wins right [] index k = refl
  last_wins right (r ∷ rows) index k =
      let key = sprint go (field r right) in
      last_wins right rows (put index key r) k
      ∙ ap (later_or (last_with right k rows)) (lookup-put index key k r)
      ∙ pick (last_with right k rows) (str_eq key k)
    where
      pick :
          (later : Option (Row Float)) (b : Bool)
          → later_or later (if b then some r else lookup index k)
            ≡ later_or
                (elim later [ some s ↦ some s | none ↦ if b then some r else none ])
                (lookup index k)
      pick (some s) b = refl
      pick none true = refl
      pick none false = refl

  -- For each key, the index of a right side has the last of the rows with that key, and nothing
  -- where no row has it.
  pub build_index-last :
      (right : String) (rights : List (Row Float)) (k : String)
      → lookup (build_index go right [] rights) k ≡ last_with right k rights
  unfolding later_or
  build_index-last right rights k =
      last_wins right rights [] k ∙ nothing_before (last_with right k rights)
    where
      nothing_before : (o : Option (Row Float)) → later_or o none ≡ o
      nothing_before none = refl
      nothing_before (some s) = refl

  -- A lookup that is not inner gives one row for each row that it is given, matched or not.
  pub join_rows-length :
      (cfg : LookupConfig Float) (index : List (String × Row Float)) (rows : List (Row Float))
      → str_eq cfg.mode "inner" ≡ false
      → length (join_rows go cfg index rows) ≡ length rows
  unfolding join_rows
  join_rows-length cfg index [] outer = refl
  join_rows-length cfg index (row ∷ rows) outer =
      elim (Option-cases (lookup index (sprint go (field row cfg.left)))) [
        | inl e ↦ rw (e, outer) (ap suc (join_rows-length cfg index rows outer))
        | inr e ↦ rw e.1 (ap suc (join_rows-length cfg index rows outer))
      ]
