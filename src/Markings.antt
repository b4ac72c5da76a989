-- ===== src/Markings.antt =====
-- services/knowledge/app/ontology/markings.py: `category_groups_satisfied`.
pub mod Filed
pub mod Cleared
mod Examples
use holon.Prelude.{Bool, true, ◌&&◌, List, [], ◌∷◌, ◌++◌, any, if◌then◌else◌}
use holon.Prelude.Text.{Text, text_eq}

-- An entry of `meta`
pub record Item : Type 0 where
  pub name : Text
  pub category_id : Text
  pub is_disjunctive : Bool

-- An entry of `by_category`, in the order in which the categories are met
pub record Group : Type 0 where
  pub id : Text
  pub disjunctive : Bool
  pub names : List Text

unfoldable pub add_item : Item → List Group → List Group
add_item i [] =
    record { id = i.category_id; disjunctive = i.is_disjunctive; names = i.name ∷ [] } ∷ []
add_item i (g ∷ gs) =
    let rest = add_item i gs in
    if text_eq g.id i.category_id
    then record g { names = g.names ++ (i.name ∷ []) } ∷ gs
    else g ∷ rest

unfoldable pub by_category : List Item → List Group → List Group
by_category [] gs = gs
by_category (i ∷ items) gs = by_category items (add_item i gs)

abbrev pub all_held : (Text → Bool) → List Text → Bool
all_held held [] = true
all_held held (n ∷ names) = held n && all_held held names

abbrev pub is_satisfied : (Text → Bool) → Group → Bool
is_satisfied held g = if g.disjunctive then any held g.names else all_held held g.names

abbrev pub all_satisfied : (Text → Bool) → List Group → Bool
all_satisfied held [] = true
all_satisfied held (g ∷ gs) = is_satisfied held g && all_satisfied held gs

unfoldable pub category_groups_satisfied : List Item → (Text → Bool) → Bool
category_groups_satisfied meta held = all_satisfied held (by_category meta [])
