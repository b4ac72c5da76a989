-- ===== src/Markings/Examples.antt =====
-- A conjunctive category of two markings and a disjunctive one of two.
use holon.Prelude.{◌≡◌, refl, Bool, true, false, List, [], ◌∷◌, All}
use holon.Prelude.Text.{Text, codes, text_eq}
use holon.Denylist.Sets.{contains}
use holon.Markings.{Item, add_item, by_category, category_groups_satisfied}
use holon.Markings.Cleared.{passes, category_groups_satisfied-passes}

abbrev item : Text → Text → Bool → Item
item name id disj = record { name = name; category_id = id; is_disjunctive = disj }

abbrev applied : List Item
applied =
    item (codes "pii") (codes "1") false
    ∷ item (codes "eu") (codes "2") true
    ∷ item (codes "us") (codes "2") true
    ∷ item (codes "legal") (codes "1") false
    ∷ []

abbrev held : Text → Bool
held n = contains n (codes "us" ∷ codes "pii" ∷ codes "legal" ∷ [])

one_is_missing : category_groups_satisfied applied (λ n. text_eq n (codes "us")) ≡ false
unfolding category_groups_satisfied by_category add_item
one_is_missing = refl

category_groups_satisfied-passes_example : All (λ i. passes applied held i ≡ true) applied
unfolding category_groups_satisfied by_category add_item contains
category_groups_satisfied-passes_example =
    category_groups_satisfied-passes (λ id. text_eq id (codes "2")) applied held
      (refl, (refl, (refl, (refl, tt)))) refl
