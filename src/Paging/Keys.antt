-- ===== src/Paging/Keys.antt =====
-- services/knowledge/app/paging.py: the order of the sort keys, and sorted rows.
use holon.Prelude.{
  ◌+◌, ◌≡◌, ◌≢◌, refl, ap, inl, inr, true, false, List, [], ◌∷◌, All, arith, Bool-cases, length,
}
use holon.Prelude.Text.{Text}
use holon.Paging.{SortKey, numeric, textual, text_ltb, key_ltb, key, insert, sorted}

pub text_ltb_irreflexive : (s : Text) → text_ltb s s ≡ false
unfolding text_ltb
text_ltb_irreflexive [] = refl
text_ltb_irreflexive (c ∷ s) = ground (arith, text_ltb_irreflexive s)

pub text_ltb_trans :
    (s t u : Text) → text_ltb s t ≡ true → text_ltb t u ≡ true → text_ltb s u ≡ true
unfolding text_ltb
text_ltb_trans [] [] u h g = absurd (cc)
text_ltb_trans [] (d ∷ t) [] h g = absurd (cc)
text_ltb_trans [] (d ∷ t) (e ∷ u) h g = refl
text_ltb_trans (c ∷ s) [] u h g = absurd (cc)
text_ltb_trans (c ∷ s) (d ∷ t) [] h g = absurd (cc)
text_ltb_trans (c ∷ s) (d ∷ t) (e ∷ u) h g = ground (arith, h, g, text_ltb_trans s t u)

text_ltb_total : (s t : Text) → text_ltb s t ≡ false → s ≢ t → text_ltb t s ≡ true
unfolding text_ltb
text_ltb_total [] [] h n = absurd (n refl)
text_ltb_total [] (d ∷ t) h n = absurd (cc)
text_ltb_total (c ∷ s) [] h n = refl
text_ltb_total (c ∷ s) (d ∷ t) h n = ground (arith, h, n, text_ltb_total s t)

pub key_ltb_irreflexive : (a : SortKey) → key_ltb a a ≡ false
unfolding key_ltb
key_ltb_irreflexive (numeric m) = ground arith
key_ltb_irreflexive (textual s) = text_ltb_irreflexive s

pub key_ltb_trans : (a b c : SortKey) → key_ltb a b ≡ true → key_ltb b c ≡ true → key_ltb a c ≡ true
unfolding key_ltb
key_ltb_trans (numeric a) (numeric b) (numeric c) h g = ground (arith, h, g)
key_ltb_trans (numeric a) (numeric b) (textual c) h g = refl
key_ltb_trans (numeric a) (textual b) (numeric c) h g = absurd (cc)
key_ltb_trans (numeric a) (textual b) (textual c) h g = refl
key_ltb_trans (textual a) (numeric b) c h g = absurd (cc)
key_ltb_trans (textual a) (textual b) (numeric c) h g = absurd (cc)
key_ltb_trans (textual a) (textual b) (textual c) h g = text_ltb_trans a b c h g

pub key_ltb_total : (a b : SortKey) → key_ltb a b ≡ false → a ≢ b → key_ltb b a ≡ true
unfolding key_ltb
key_ltb_total (numeric a) (numeric b) h n = ground (arith, h, n)
key_ltb_total (numeric a) (textual b) h n = absurd (cc)
key_ltb_total (textual a) (numeric b) h n = refl
key_ltb_total (textual a) (textual b) h n = text_ltb_total a b h (λ e. n (ap textual e))

module _ {R : Type 0} (id_of : R → Text) where
  -- Every row sorts before all that follow it.
  abbrev pub Ascending : List R → Type 0
  Ascending [] = Unit
  Ascending (r ∷ rows) = All (λ x. key_ltb (key id_of r) (key id_of x) ≡ true) rows × Ascending rows

  -- No two rows have the same key.
  abbrev pub AllDistinct : List R → Type 0
  AllDistinct [] = Unit
  AllDistinct (r ∷ rows) = All (λ x. key id_of x ≢ key id_of r) rows × AllDistinct rows

  insert-All :
      (P : R → Type 0) (r : R) (rows : List R) → P r → All P rows → All P (insert id_of r rows)
  unfolding insert
  insert-All P r [] h g = (h, tt)
  insert-All P r (x ∷ rows) h g = elim (Bool-cases (key_ltb (key id_of x) (key id_of r))) [
    | inl e ↦ rw e (g.0, insert-All P r rows h g.1)
    | inr e ↦ rw e (h, g)
  ]

  pub sorted-All : (P : R → Type 0) (rows : List R) → All P rows → All P (sorted id_of rows)
  unfolding sorted
  sorted-All P [] h = tt
  sorted-All P (r ∷ rows) h = insert-All P r (sorted id_of rows) h.0 (sorted-All P rows h.1)

  before-All :
      (k m : SortKey) (rows : List R)
      → key_ltb k m ≡ true
      → All (λ x. key_ltb m (key id_of x) ≡ true) rows
      → All (λ x. key_ltb k (key id_of x) ≡ true) rows
  before-All k m [] h g = tt
  before-All k m (x ∷ rows) h g = (key_ltb_trans k m (key id_of x) h g.0, before-All k m rows h g.1)

  insert-Ascending :
      (r : R) (rows : List R)
      → All (λ x. key id_of x ≢ key id_of r) rows
      → Ascending rows
      → Ascending (insert id_of r rows)
  unfolding insert
  insert-Ascending r [] d h = (tt, tt)
  insert-Ascending r (x ∷ rows) d h = elim (Bool-cases (key_ltb (key id_of x) (key id_of r))) [
    | inl e ↦ rw e (insert-All _ r rows e h.0, insert-Ascending r rows d.1 h.1)
    | inr e ↦
        let first = key_ltb_total (key id_of x) (key id_of r) e d.0 in
        rw e ((first, before-All (key id_of r) (key id_of x) rows first h.0), h)
  ]

  pub sorted-Ascending : (rows : List R) → AllDistinct rows → Ascending (sorted id_of rows)
  unfolding sorted
  sorted-Ascending [] d = tt
  sorted-Ascending (r ∷ rows) d =
      insert-Ascending r (sorted id_of rows) (sorted-All _ rows d.0) (sorted-Ascending rows d.1)

  insert-length : (r : R) (rows : List R) → length (insert id_of r rows) ≡ length rows + 1
  unfolding insert
  insert-length r [] = refl
  insert-length r (x ∷ rows) = ground (arith, insert-length r rows)

  pub sorted-length : (rows : List R) → length (sorted id_of rows) ≡ length rows
  unfolding sorted
  sorted-length [] = refl
  sorted-length (r ∷ rows) = ground (arith, insert-length r (sorted id_of rows), sorted-length rows)
