-- ===== src/Markings/Filed.antt =====
-- services/knowledge/app/ontology/markings.py: every item of `meta` gets into the group of its category.
use holon.Prelude.{◌≡◌, refl, Bool, true, false, ◌&&◌, ◌||◌, List, [], ◌∷◌, ◌++◌, All, arith}
use holon.Prelude.Text.{Text, text_eq, text_eq_iff}
use holon.Denylist.Sets.{contains}
use holon.Markings.{Item, Group, add_item, by_category}

contains-append :
    (t : Text) (xs ys : List Text) → contains t (xs ++ ys) ≡ (contains t xs || contains t ys)
unfolding contains
contains-append t [] ys = refl
contains-append t (x ∷ xs) ys = ground (arith, contains-append t xs ys)

abbrev pub filed : Item → List Group → Bool
filed i [] = false
filed i (g ∷ gs) = (text_eq g.id i.category_id && contains i.name g.names) || filed i gs

filed-add_item : (i : Item) (gs : List Group) → filed i (add_item i gs) ≡ true
unfolding add_item contains
filed-add_item i [] =
    ground (arith, text_eq_iff i.category_id i.category_id, text_eq_iff i.name i.name)
filed-add_item i (g ∷ gs) = ground (
  arith,
  filed-add_item i gs,
  text_eq_iff i.name i.name,
  contains-append i.name g.names (i.name ∷ []),
)

filed-kept : (i j : Item) (gs : List Group) → filed i gs ≡ true → filed i (add_item j gs) ≡ true
unfolding add_item
filed-kept i j [] h = absurd (cc)
filed-kept i j (g ∷ gs) h =
    ground (arith, h, filed-kept i j gs, contains-append i.name g.names (j.name ∷ []))

filed-by_category :
    (i : Item) (items : List Item) (gs : List Group)
    → filed i gs ≡ true
    → filed i (by_category items gs) ≡ true
unfolding by_category
filed-by_category i [] gs h = h
filed-by_category i (j ∷ items) gs h =
    filed-by_category i items (add_item j gs) (filed-kept i j gs h)

pub by_category-filed :
    (items : List Item) (gs : List Group) → All (λ i. filed i (by_category items gs) ≡ true) items
unfolding by_category
by_category-filed [] gs = tt
by_category-filed (i ∷ items) gs = (
  filed-by_category i items (add_item i gs) (filed-add_item i gs),
  by_category-filed items (add_item i gs),
)
