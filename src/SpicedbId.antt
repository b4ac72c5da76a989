-- ===== src/SpicedbId.antt =====
-- libs/holon_common/spicedb_id.py: how a URN becomes a SpiceDB object id.
pub mod Injective
mod Examples
use holon.Prelude.{ℕ, Option, none, some, List, [], ◌∷◌, ◌++◌, map, ◌==◌, if◌then◌else◌}
use holon.Prelude.Text.{Text, codes, text_eq}

-- `s.replace(c, by)` for a text `c` of one character
replace : ℕ → Text → Text → Text
replace c by [] = []
replace c by (x ∷ s) = (if x == c then by else x ∷ []) ++ replace c by s

unfoldable pub spicedb_object_id : Text → Text
unfolding replace
spicedb_object_id urn =
    replace b':' (codes "_c") (replace b'.' (codes "_d") (replace b'_' (codes "__") urn))

-- A dict keyed by texts; a comprehension writes its entries in order.
module _ {ℓ} {V : Type ℓ} where
  unfoldable pub lookup : Text → List (Text × V) → Option V
  lookup k [] = none
  lookup k ((j, v) ∷ d) = if text_eq j k then some v else lookup k d

  pub insert : Text → V → List (Text × V) → List (Text × V)
  insert k v [] = (k, v) ∷ []
  insert k v ((j, w) ∷ d) = if text_eq j k then (j, v) ∷ d else (j, w) ∷ insert k v d

  index_from : (V → Text) → List (Text × V) → List V → List (Text × V)
  unfolding insert
  index_from urn_of index [] = index
  index_from urn_of index (row ∷ rows) =
      index_from urn_of (insert (spicedb_object_id (urn_of row)) row index) rows

  -- `urn_of` reads `row[urn_key]`
  pub index_by_spicedb_object_id : (V → Text) → List V → List (Text × V)
  unfolding index_from
  index_by_spicedb_object_id urn_of rows = index_from urn_of [] rows
