-- ===== src/Resource/Examples.antt =====
-- Three parents, of which the second is the most restricted.
use holon.Prelude.{◌≡◌, ◌↔◌, refl, true, none, List, [], ◌∷◌, All, leb}
use holon.Prelude.Text.{Text, codes}
use holon.Resource.{
  confidential, rank, classification_of, classify_each, greatest, most_restrictive,
}
use holon.Resource.Bounds.{rank_at_most, most_restrictive-least_bound}

abbrev parents : List Text
parents = codes "confidential" ∷ codes "public" ∷ []

unknown_value : most_restrictive (codes "secret" ∷ parents) ≡ none
unfolding most_restrictive classify_each classification_of
unknown_value = refl

most_restrictive-least_bound_example :
    (leb (rank confidential) 2 ≡ true)
    ↔ All (λ w. rank_at_most 2 (classification_of w) ≡ true) (codes "internal" ∷ parents)
unfolding most_restrictive classify_each classification_of greatest
most_restrictive-least_bound_example =
    most_restrictive-least_bound (codes "internal") parents confidential 2 refl
