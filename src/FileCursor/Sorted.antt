-- ===== src/FileCursor/Sorted.antt =====
-- services/connectivity/app/file_cursor.py: the order of entries and their sorting.
use holon.Prelude.{
  ◌≡◌, refl, Bool, true, false, List, [], ◌∷◌, All, arith, if◌then◌else◌, Bool-cases, inl, inr,
}
use holon.Prelude.Text.{Text}
use holon.Paging.{text_ltb}
use holon.Paging.Keys.{text_ltb_trans, text_ltb_irreflexive}
use holon.FileCursor.{Entry, entry_ltb, insert_entry, sort_entries, last_entry}

text_ltb_weak : (s t u : Text) → text_ltb s u ≡ true → text_ltb s t ≡ false → text_ltb t u ≡ true
unfolding text_ltb
text_ltb_weak [] [] u h g = h
text_ltb_weak [] (d ∷ t) u h g = absurd (cc)
text_ltb_weak (c ∷ s) t [] h g = absurd (cc)
text_ltb_weak (c ∷ s) [] (e ∷ u) h g = refl
text_ltb_weak (c ∷ s) (d ∷ t) (e ∷ u) h g = ground (arith, h, g, text_ltb_weak s t u)

entry_ltb_weak :
    (a b c : Entry) → entry_ltb a c ≡ true → entry_ltb a b ≡ false → entry_ltb b c ≡ true
unfolding entry_ltb
entry_ltb_weak (m, k) (n, l) (o, j) h g = ground (arith, h, g, text_ltb_weak k l j)

pub entry_ltb_trans :
    (a b c : Entry) → entry_ltb a b ≡ true → entry_ltb b c ≡ true → entry_ltb a c ≡ true
unfolding entry_ltb
entry_ltb_trans (m, k) (n, l) (o, j) h g = ground (arith, h, g, text_ltb_trans k l j)

entry_ltb_irreflexive : (a : Entry) → entry_ltb a a ≡ false
unfolding entry_ltb
entry_ltb_irreflexive (m, k) = ground (arith, text_ltb_irreflexive k)

abbrev pub Ascending : List Entry → Type 0
Ascending [] = Unit
Ascending (e ∷ es) = All (λ x. entry_ltb x e ≡ false) es × Ascending es

pub All-map :
    (P Q : Entry → Type 0) → ((x : Entry) → P x → Q x) → (es : List Entry) → All P es → All Q es
All-map P Q f [] h = tt
All-map P Q f (e ∷ es) h = (f e h.0, All-map P Q f es h.1)

insert-All :
    (P : Entry → Type 0) (e : Entry) (es : List Entry) → P e → All P es → All P (insert_entry e es)
unfolding insert_entry
insert-All P e [] p h = (p, tt)
insert-All P e (x ∷ xs) p h = elim (Bool-cases (entry_ltb x e)) [
  | inl c ↦ rw c (h.0, insert-All P e xs p h.1)
  | inr c ↦ rw c (p, h)
]

of_placed-All :
    (P : Entry → Type 0) (e x : Entry) (xs rest : List Entry) (before : Bool)
    → (All P rest → P e × All P xs)
    → All P (if before then x ∷ rest else e ∷ x ∷ xs)
    → P e × All P (x ∷ xs)
of_placed-All P e x xs rest true f h = ((f h.1).0, (h.0, (f h.1).1))
of_placed-All P e x xs rest false f h = h

of_insert-All :
    (P : Entry → Type 0) (e : Entry) (es : List Entry) → All P (insert_entry e es) → P e × All P es
unfolding insert_entry
of_insert-All P e [] h = h
of_insert-All P e (x ∷ xs) h =
    of_placed-All P e x xs (insert_entry e xs) (entry_ltb x e) (of_insert-All P e xs) h

pub sort-All : (P : Entry → Type 0) (es : List Entry) → All P es → All P (sort_entries es)
unfolding sort_entries
sort-All P [] h = tt
sort-All P (e ∷ es) h = insert-All P e (sort_entries es) h.0 (sort-All P es h.1)

pub of_sort-All : (P : Entry → Type 0) (es : List Entry) → All P (sort_entries es) → All P es
unfolding sort_entries
of_sort-All P [] h = tt
of_sort-All P (e ∷ es) h =
    let both = of_insert-All P e (sort_entries es) h in (both.0, of_sort-All P es both.1)

insert-Ascending : (e : Entry) (es : List Entry) → Ascending es → Ascending (insert_entry e es)
unfolding insert_entry
insert-Ascending e [] h = (tt, tt)
insert-Ascending e (x ∷ xs) h = elim (Bool-cases (entry_ltb x e)) [
  | inl c ↦ rw c (
    insert-All (λ y. entry_ltb y x ≡ false) e xs
        (ground (arith, entry_ltb_trans x e x c, entry_ltb_irreflexive x)) h.0,
    insert-Ascending e xs h.1,
  )
  | inr c ↦ rw c (
    (
      c,
      All-map (λ y. entry_ltb y x ≡ false) (λ y. entry_ltb y e ≡ false)
          (λ y g. ground (arith, g, c, entry_ltb_weak y x e)) xs h.0,
    ),
    h,
  )
]

pub sort-Ascending : (es : List Entry) → Ascending (sort_entries es)
unfolding sort_entries
sort-Ascending [] = tt
sort-Ascending (e ∷ es) = insert-Ascending e (sort_entries es) (sort-Ascending es)

pub last-All :
    (P : Entry → Type 0) (e : Entry) (es : List Entry) → All P (e ∷ es) → P (last_entry e es)
unfolding last_entry
last-All P e [] h = h.0
last-All P e (x ∷ xs) h = last-All P x xs h.1

-- Nothing in a sorted list is after its last entry.
pub last-greatest :
    (e : Entry) (es : List Entry)
    → Ascending (e ∷ es)
    → All (λ x. entry_ltb (last_entry e es) x ≡ false) (e ∷ es)
unfolding last_entry
last-greatest e [] h = (entry_ltb_irreflexive e, tt)
last-greatest e (x ∷ xs) h =
    (last-All (λ y. entry_ltb y e ≡ false) x xs h.0, last-greatest x xs h.1)
