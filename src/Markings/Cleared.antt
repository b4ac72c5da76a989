-- ===== src/Markings/Cleared.antt =====
-- services/knowledge/app/ontology/markings.py: what a principal holds when its markings satisfy.
use mathlib.Core.Path.{subst}
use holon.Prelude.{
  ◌≡◌, sym, ◌∙◌, Bool, true, ◌&&◌, List, [], ◌∷◌, ◌++◌, All, any, arith, if◌then◌else◌, Bool-cases,
  inl, inr,
}
use holon.Prelude.Text.{Text, text_eq, text_eq_iff}
use holon.Denylist.Sets.{contains}
use holon.Markings.{
  Item, Group, add_item, by_category, all_held, is_satisfied, all_satisfied,
  category_groups_satisfied,
}
use holon.Markings.Filed.{filed, by_category-filed}

-- A principal passes an item when it holds its marking or, in a disjunctive category, one of the
-- category's.
abbrev pub passes : List Item → (Text → Bool) → Item → Bool
passes meta held i =
    if i.is_disjunctive
    then any (λ j. text_eq j.category_id i.category_id && held j.name) meta
    else held i.name

module _ (type_of : Text → Bool) (meta : List Item) where
  abbrev listed : Text → Text → Bool
  listed id n = any (λ j. text_eq j.category_id id && text_eq j.name n) meta

  -- A group has its category's type, and its names are of items of the category.
  abbrev IsOf : Group → Type 0
  IsOf g = (g.disjunctive ≡ type_of g.id) × All (λ n. listed g.id n ≡ true) g.names

  All-snoc :
      (P : Text → Type 0) (xs : List Text) (x : Text) → All P xs → P x → All P (xs ++ (x ∷ []))
  All-snoc P [] x h p = (p, tt)
  All-snoc P (y ∷ xs) x h p = (h.0, All-snoc P xs x h.1 p)

  add_item-IsOf :
      (i : Item) (gs : List Group)
      → i.is_disjunctive ≡ type_of i.category_id
      → listed i.category_id i.name ≡ true
      → All IsOf gs
      → All IsOf (add_item i gs)
  unfolding add_item
  add_item-IsOf i [] e l h = ((e, (l, tt)), tt)
  add_item-IsOf i (g ∷ gs) e l h = elim (Bool-cases (text_eq g.id i.category_id)) [
    | inl same ↦ rw same (
      (
        h.0.0,
        All-snoc (λ n. listed g.id n ≡ true) g.names i.name h.0.1
            (subst (λ c. listed c i.name ≡ true) (sym ((text_eq_iff g.id i.category_id).0 same)) l),
      ),
      h.1,
    )
    | inr other ↦ rw other (h.0, add_item-IsOf i gs e l h.1)
  ]

  by_category-IsOf :
      (items : List Item) (gs : List Group)
      → All (λ i. i.is_disjunctive ≡ type_of i.category_id) items
      → All (λ i. listed i.category_id i.name ≡ true) items
      → All IsOf gs
      → All IsOf (by_category items gs)
  unfolding by_category
  by_category-IsOf [] gs e l h = h
  by_category-IsOf (i ∷ items) gs e l h =
      by_category-IsOf items (add_item i gs) e.1 l.1 (add_item-IsOf i gs e.0 l.0 h)

  module _ (held : Text → Bool) where
    listed-held :
        (ms : List Item) (id n : Text)
        → any (λ j. text_eq j.category_id id && text_eq j.name n) ms ≡ true
        → held n ≡ true
        → any (λ j. text_eq j.category_id id && held j.name) ms ≡ true
    listed-held [] id n h k = absurd (cc)
    listed-held (j ∷ ms) id n h k = elim (Bool-cases (text_eq j.name n)) [
      | inl same ↦
          let held_j = subst (λ m. held m ≡ true) (sym ((text_eq_iff j.name n).0 same)) k in
          ground (arith, h, same, held_j, listed-held ms id n)
      | inr other ↦ ground (arith, h, other, listed-held ms id n, k)
    ]

    any-listed :
        (id : Text) (names : List Text)
        → All (λ n. listed id n ≡ true) names
        → any held names ≡ true
        → any (λ j. text_eq j.category_id id && held j.name) meta ≡ true
    any-listed id [] l h = absurd (cc)
    any-listed id (n ∷ names) l h = elim (Bool-cases (held n)) [
      | inl k ↦ listed-held meta id n l.0 k
      | inr k ↦ any-listed id names l.1 (ground (arith, h, k))
    ]

    all_held-contains :
        (n : Text) (names : List Text)
        → all_held held names ≡ true
        → contains n names ≡ true
        → held n ≡ true
    unfolding contains
    all_held-contains n [] h c = absurd (cc)
    all_held-contains n (m ∷ names) h c = elim (Bool-cases (text_eq m n)) [
      | inl same ↦ subst (λ t. held t ≡ true) ((text_eq_iff m n).0 same) (ground (arith, h))
      | inr other ↦ all_held-contains n names (ground (arith, h)) (ground (arith, c, other))
    ]

    group-passes :
        (i : Item) (g : Group)
        → i.is_disjunctive ≡ type_of i.category_id
        → IsOf g
        → is_satisfied held g ≡ true
        → (text_eq g.id i.category_id && contains i.name g.names) ≡ true
        → passes meta held i ≡ true
    group-passes i g e of sat at =
        let same = (text_eq_iff g.id i.category_id).0 (ground (arith, at)) in
        let type = e ∙ sym (subst (λ c. g.disjunctive ≡ type_of c) same of.0) in
        elim (Bool-cases g.disjunctive) [
          | inl disj ↦
              rw (type, disj)
                (subst (λ c. any (λ j. text_eq j.category_id c && held j.name) meta ≡ true) same
                  (any-listed g.id g.names of.1 (ground (arith, sat, disj))))
          | inr conj ↦
              rw (type, conj)
                (all_held-contains i.name g.names (ground (arith, sat, conj)) (ground (arith, at)))
        ]

    filed-passes :
        (i : Item) (gs : List Group)
        → i.is_disjunctive ≡ type_of i.category_id
        → All IsOf gs
        → all_satisfied held gs ≡ true
        → filed i gs ≡ true
        → passes meta held i ≡ true
    filed-passes i [] e of sat h = absurd (cc)
    filed-passes i (g ∷ gs) e of sat h =
        elim (Bool-cases (text_eq g.id i.category_id && contains i.name g.names)) [
          | inl here ↦ group-passes i g e of.0 (ground (arith, sat)) here
          | inr later ↦ filed-passes i gs e of.1 (ground (arith, sat)) (ground (arith, h, later))
        ]

    all_satisfied-All :
        (items : List Item) (gs : List Group)
        → All (λ i. i.is_disjunctive ≡ type_of i.category_id) items
        → All IsOf gs
        → all_satisfied held gs ≡ true
        → All (λ i. filed i gs ≡ true) items
        → All (λ i. passes meta held i ≡ true) items
    all_satisfied-All [] gs e of sat h = tt
    all_satisfied-All (i ∷ items) gs e of sat h =
        (filed-passes i gs e.0 of sat h.0, all_satisfied-All items gs e.1 of sat h.1)

listed-more :
    (i : Item) (meta items : List Item)
    → All (λ k. listed (λ t. true) meta k.category_id k.name ≡ true) items
    → All (λ k. listed (λ t. true) (i ∷ meta) k.category_id k.name ≡ true) items
listed-more i meta [] h = tt
listed-more i meta (k ∷ items) h = (ground (arith, h.0), listed-more i meta items h.1)

listed-All :
    (meta : List Item) → All (λ k. listed (λ t. true) meta k.category_id k.name ≡ true) meta
listed-All [] = tt
listed-All (i ∷ meta) = (
  ground (arith, text_eq_iff i.category_id i.category_id, text_eq_iff i.name i.name),
  listed-more i meta meta (listed-All meta),
)

-- When the type of a category depends on the category alone and the categories of the applied markings
-- are satisfied, the principal holds every applied marking of a conjunctive category, and for every
-- applied marking of a disjunctive category an applied marking of the same category.
pub category_groups_satisfied-passes :
    (type_of : Text → Bool) (meta : List Item) (held : Text → Bool)
    → All (λ i. i.is_disjunctive ≡ type_of i.category_id) meta
    → category_groups_satisfied meta held ≡ true
    → All (λ i. passes meta held i ≡ true) meta
unfolding category_groups_satisfied
category_groups_satisfied-passes type_of meta held e sat =
    all_satisfied-All type_of meta held meta (by_category meta []) e
      (by_category-IsOf type_of meta meta [] e (listed-All meta) tt) sat (by_category-filed meta [])
