-- ===== src/Resource/Bounds.antt =====
-- libs/holon_common/resource.py: a derived resource is no less restricted than its parents.
use mathlib.Core.Path.{subst}
use holon.Prelude.{
  ℕ, ◌≡◌, ◌↔◌, refl, sym, Bool, true, false, Option, none, some, List, [], ◌∷◌, All, ltb, leb,
  arith, if◌then◌else◌, Bool-cases, inl, inr,
}
use holon.Prelude.Text.{Text}
use holon.Resource.{
  Classification, rank, classification_of, prepend, classify_each, greatest, most_restrictive_of,
  most_restrictive,
}

-- The value names a classification of at most this rank.
abbrev pub rank_at_most : ℕ → Option Classification → Bool
rank_at_most n none = false
rank_at_most n (some c) = leb (rank c) n

abbrev Bounded : ℕ → Option (List Classification) → Type 0
Bounded n none = Unit
Bounded n (some cs) = All (λ c. leb (rank c) n ≡ true) cs

greatest-All :
    (n : ℕ) (c : Classification) (cs : List Classification)
    → leb (rank (greatest c cs)) n ≡ true
    → All (λ d. leb (rank d) n ≡ true) (c ∷ cs)
unfolding greatest
greatest-All n c [] h = (h, tt)
greatest-All n c (d ∷ ds) h =
    let rest = greatest-All n (if ltb (rank c) (rank d) then d else c) ds h in
    (ground (arith, rest.0), (ground (arith, rest.0), rest.1))

prepend-Bounded :
    (n : ℕ) (c : Option Classification) (r : Option (List Classification))
    (cs : List Classification)
    → prepend c r ≡ some cs
    → Bounded n (some cs)
    → (rank_at_most n c ≡ true)
      × ((ds : List Classification) × ((r ≡ some ds) × Bounded n (some ds)))
prepend-Bounded n none r cs e h = absurd (cc)
prepend-Bounded n (some c) none cs e h = absurd (cc)
prepend-Bounded n (some c) (some ds) cs e h =
    let all = subst (Bounded n) (sym e) h in (all.0, (ds, (refl, all.1)))

classify_each-All :
    (n : ℕ) (values : List Text) (cs : List Classification)
    → classify_each values ≡ some cs
    → Bounded n (some cs)
    → All (λ v. rank_at_most n (classification_of v) ≡ true) values
unfolding classify_each
classify_each-All n [] cs e h = tt
classify_each-All n (v ∷ values) cs e h =
    let first = prepend-Bounded n (classification_of v) (classify_each values) cs e h in
    (first.0, classify_each-All n values first.1.0 first.1.1.0 first.1.1.1)

greatest_level : (d c : Classification) → some d ≡ some c → leb (rank d) (rank c) ≡ true
greatest_level d c e = subst (λ o. rank_at_most (rank c) o ≡ true) (sym e) (ground arith)

most_restrictive_of-Bounded :
    (r : Option (List Classification)) (c : Classification)
    → most_restrictive_of r ≡ some c
    → (cs : List Classification) × ((r ≡ some cs) × Bounded (rank c) (some cs))
most_restrictive_of-Bounded none c e = absurd (cc)
most_restrictive_of-Bounded (some []) c e = ([], (refl, tt))
most_restrictive_of-Bounded (some (d ∷ ds)) c e = (
  d ∷ ds,
  (refl, greatest-All (rank c) d ds (ground (arith, e, greatest_level (greatest d ds) c e))),
)

greatest-least :
    (n : ℕ) (c : Classification) (cs : List Classification)
    → Bounded n (some (c ∷ cs))
    → leb (rank (greatest c cs)) n ≡ true
unfolding greatest
greatest-least n c [] h = h.0
greatest-least n c (d ∷ ds) h = elim (Bool-cases (ltb (rank c) (rank d))) [
  | inl less ↦ rw less (greatest-least n d ds h.1)
  | inr more ↦ rw more (greatest-least n c ds (h.0, h.1.1))
]

of_prepend-Bounded :
    (n : ℕ) (c : Option Classification) (r : Option (List Classification))
    → rank_at_most n c ≡ true
    → Bounded n r
    → Bounded n (prepend c r)
of_prepend-Bounded n none r h g = tt
of_prepend-Bounded n (some c) none h g = tt
of_prepend-Bounded n (some c) (some cs) h g = (h, g)

classify_each-Bounded :
    (n : ℕ) (values : List Text)
    → All (λ v. rank_at_most n (classification_of v) ≡ true) values
    → Bounded n (classify_each values)
unfolding classify_each
classify_each-Bounded n [] h = tt
classify_each-Bounded n (v ∷ values) h =
    of_prepend-Bounded n (classification_of v) (classify_each values) h.0
      (classify_each-Bounded n values h.1)

most_restrictive_of-least :
    (n : ℕ) (v : Option Classification) (r : Option (List Classification)) (c : Classification)
    → most_restrictive_of (prepend v r) ≡ some c
    → Bounded n (prepend v r)
    → leb (rank c) n ≡ true
most_restrictive_of-least n none r c e h = absurd (cc)
most_restrictive_of-least n (some d) none c e h = absurd (cc)
most_restrictive_of-least n (some d) (some ds) c e h =
    subst (λ o. rank_at_most n o ≡ true) e (greatest-least n d ds h)

weaken :
    (m n : ℕ) (values : List Text)
    → leb m n ≡ true
    → All (λ v. rank_at_most m (classification_of v) ≡ true) values
    → All (λ v. rank_at_most n (classification_of v) ≡ true) values
weaken m n [] h g = tt
weaken m n (v ∷ values) h g = (weaken_one (classification_of v) g.0, weaken m n values h g.1)
  where
    weaken_one : (o : Option Classification) → rank_at_most m o ≡ true → rank_at_most n o ≡ true
    weaken_one none k = k
    weaken_one (some c) k = ground (arith, h, k)

-- When the classification of a resource with at least one parent is c, a level is at or above c exactly
-- when every parent's value names a classification at or below that level: c is the least upper bound
-- of the parents, and no parent has a value that is not the name of a classification.
pub most_restrictive-least_bound :
    (v : Text) (values : List Text) (c : Classification) (n : ℕ)
    → most_restrictive (v ∷ values) ≡ some c
    → (leb (rank c) n ≡ true) ↔ All (λ w. rank_at_most n (classification_of w) ≡ true) (v ∷ values)
unfolding most_restrictive classify_each
most_restrictive-least_bound v values c n e =
    let found = most_restrictive_of-Bounded (classify_each (v ∷ values)) c e in
    (
      (λ h.
          weaken (rank c) n (v ∷ values) h
            (classify_each-All (rank c) (v ∷ values) found.0 found.1.0 found.1.1)),
      λ h.
          most_restrictive_of-least n (classification_of v) (classify_each values) c e
            (classify_each-Bounded n (v ∷ values) h),
    )
