-- ===== src/Resource.antt =====
-- libs/holon_common/resource.py: the classification of a derived resource.
pub mod Bounds
mod Examples
use holon.Prelude.{ℕ, Option, none, some, List, [], ◌∷◌, ltb, if◌then◌else◌}
use holon.Prelude.Text.{Text, codes, text_eq}

pub data Classification : Type 0 where
  public : Classification
  internal : Classification
  confidential : Classification
  restricted : Classification

-- `_CLASSIFICATION_RANK`
abbrev pub rank : Classification → ℕ
rank public = 0
rank internal = 1
rank confidential = 2
rank restricted = 3

-- `Classification(v)`, where `none` is the ValueError
unfoldable pub classification_of : Text → Option Classification
classification_of v =
    if text_eq v (codes "public")
    then some public
    else if text_eq v (codes "internal")
    then some internal
    else if text_eq v (codes "confidential")
    then some confidential
    else if text_eq v (codes "restricted")
    then some restricted
    else none

abbrev pub prepend :
    Option Classification → Option (List Classification) → Option (List Classification)
prepend none cs = none
prepend (some c) none = none
prepend (some c) (some cs) = some (c ∷ cs)

unfoldable pub classify_each : List Text → Option (List Classification)
classify_each [] = some []
classify_each (v ∷ values) = prepend (classification_of v) (classify_each values)

-- `max(classifications, key=…)`, which keeps the first of the greatest
unfoldable pub greatest : Classification → List Classification → Classification
greatest c [] = c
greatest c (d ∷ ds) = greatest (if ltb (rank c) (rank d) then d else c) ds

abbrev pub most_restrictive_of : Option (List Classification) → Option Classification
most_restrictive_of none = none
most_restrictive_of (some []) = some internal
most_restrictive_of (some (c ∷ cs)) = some (greatest c cs)

unfoldable pub most_restrictive : List Text → Option Classification
most_restrictive values = most_restrictive_of (classify_each values)
