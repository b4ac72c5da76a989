-- ===== src/Paging/Walk.antt =====
-- services/knowledge/app/paging.py: following the page tokens from the first page to the last.
use holon.Prelude.{
  ℕ, zero, suc, ◌<◌, ◌≡◌, ◌≢◌, refl, sym, ap, ◌∙◌, inl, inr, true, false, Option, none, some, List,
  [], ◌∷◌, ◌++◌, All, take, drop, length, ltb, ==_iff, arith, Bool-cases, append_assoc,
}
use holon.Prelude.Text.{Text}
use holon.Paging.{
  SortKey, sort_key, key_ltb, key, sorted, after_cursor, from_cursor, last_id, page_of,
  clamp_page_size, paginate_rows,
}
use holon.Paging.Keys.{
  key_ltb_irreflexive, key_ltb_trans, Ascending, AllDistinct, sorted-Ascending, sorted-length,
}

module _ {R : Type 0} (id_of : R → Text) where
  abbrev more : List R → Option (List R) → Option (List R)
  more page none = none
  more page (some rest) = some (page ++ rest)

  -- A client that asks for page after page, at most `fuel` of them.
  unfoldable pub walk : ℕ → List R → Option ℕ → Option Text → Option (List R)
  walk zero rows page_size cursor = none
  walk (suc fuel) rows page_size cursor = elim (paginate_rows id_of rows page_size cursor) [
    | none ↦ none
    | some page ↦ elim page.next_page_token [
      | none ↦ some page.data_
      | some token ↦ more page.data_ (walk fuel rows page_size (some token))
    ]
  ]

  -- The rows up to the n-th after the first, that row, and the rows behind it.
  record Cut (n : ℕ) (rest : List R) : Type 0 where
    front : List R
    last : R
    back : List R
    taken : take (suc n) rest ≡ front ++ last ∷ []
    dropped : drop (suc n) rest ≡ back
    whole : rest ≡ front ++ last ∷ back

  cut : (n : ℕ) (rest : List R) → n < length rest → Cut n rest
  unfolding take drop
  cut n [] h = absurd (omega (arith, h))
  cut zero (r ∷ rest) h = record {
    front = [];
    last = r;
    back = rest;
    taken = refl;
    dropped = refl;
    whole = refl;
  }
  cut (suc n) (r ∷ rest) h =
      let c = cut n rest (omega (arith, h)) in
      record {
        front = r ∷ c.front;
        last = c.last;
        back = c.back;
        taken = ap (◌∷◌ r) c.taken;
        dropped = c.dropped;
        whole = ap (◌∷◌ r) c.whole;
      }

  last_id-append : (front : List R) (r : R) → last_id id_of (front ++ r ∷ []) ≡ some (id_of r)
  unfolding last_id
  last_id-append [] r = refl
  last_id-append (x ∷ []) r = refl
  last_id-append (x ∷ y ∷ front) r = last_id-append (y ∷ front) r

  after-last :
      (r : R) (back : List R)
      → All (λ x. key_ltb (key id_of r) (key id_of x) ≡ true) back
      → after_cursor id_of (key id_of r) back ≡ back
  unfolding after_cursor
  after-last r [] h = refl
  after-last r (x ∷ back) h = rw h.0 refl

  first-of :
      (front : List R) (r : R) (back : List R) (k : SortKey)
      → All (λ x. key_ltb k (key id_of x) ≡ true) (front ++ r ∷ back)
      → key_ltb k (key id_of r) ≡ true
  first-of [] r back k h = h.0
  first-of (x ∷ front) r back k h = first-of front r back k h.1

  -- From the key of a row on, what is left are the rows behind it.
  after_cursor-append :
      (front : List R) (r : R) (back : List R)
      → Ascending id_of (front ++ r ∷ back)
      → after_cursor id_of (key id_of r) (front ++ r ∷ back) ≡ back
  unfolding after_cursor
  after_cursor-append [] r back h = rw (key_ltb_irreflexive (key id_of r)) (after-last r back h.0)
  after_cursor-append (x ∷ front) r back h =
      let k = key id_of r in
      let up = first-of front r back (key id_of x) h.0 in
      elim (Bool-cases (key_ltb k (key id_of x))) [
        | inl down ↦
            absurd (ground (arith, key_ltb_trans k (key id_of x) k down up, key_ltb_irreflexive k))
        | inr not_down ↦ rw not_down (after_cursor-append front r back h.1)
      ]

  take_all : (n : ℕ) (rest : List R) → ltb n (length rest) ≡ false → take n rest ≡ rest
  unfolding take
  take_all zero [] h = refl
  take_all zero (r ∷ rest) h = absurd (ground (arith, h))
  take_all (suc n) [] h = refl
  take_all (suc n) (r ∷ rest) h = ground (arith, h, take_all n rest)

  take-drop : (n : ℕ) (rest : List R) → take n rest ++ drop n rest ≡ rest
  unfolding take drop
  take-drop zero rest = refl
  take-drop (suc n) [] = refl
  take-drop (suc n) (r ∷ rest) = ap (◌∷◌ r) (take-drop n rest)

  module _ (rows : List R) (page_size : Option ℕ) (size : ℕ)
      (clamped : clamp_page_size page_size ≡ some size) where
    last-page :
        (fuel : ℕ) (cursor : Option Text) (rest : List R)
        → from_cursor id_of cursor (sorted id_of rows) ≡ rest
        → ltb size (length rest) ≡ false
        → walk (suc fuel) rows page_size cursor ≡ some rest
    unfolding walk paginate_rows page_of
    last-page fuel cursor rest e short = ground (arith, clamped, e, short, take_all size rest short)

    more-pages :
        (fuel : ℕ) (cursor : Option Text) (rest : List R) (token : Text)
        → from_cursor id_of cursor (sorted id_of rows) ≡ rest
        → ltb size (length rest) ≡ true
        → last_id id_of (take size rest) ≡ some token
        → walk (suc fuel) rows page_size cursor
          ≡ more (take size rest) (walk fuel rows page_size (some token))
    unfolding walk paginate_rows page_of
    more-pages fuel cursor rest token e long t = ground (arith, clamped, e, long, t)

  shorter :
      (front : List R) (r : R) (back : List R) (fuel : ℕ)
      → length (front ++ r ∷ back) < suc fuel
      → length back < fuel
  shorter [] r back fuel h = omega (arith, h)
  shorter (x ∷ front) r back fuel h = shorter front r back fuel (omega (arith, h))

  clamped-positive : (page_size : Option ℕ) → clamp_page_size page_size ≢ some 0
  unfolding clamp_page_size
  clamped-positive none h = ground (arith, h)
  clamped-positive (some size) h = ground (arith, h, ==_iff size 0)

  walk-rest :
      (fuel : ℕ) (rows : List R) (page_size : Option ℕ) (n : ℕ) (cursor : Option Text)
      (before rest : List R)
      → clamp_page_size page_size ≡ some (suc n)
      → sorted id_of rows ≡ before ++ rest
      → Ascending id_of (before ++ rest)
      → from_cursor id_of cursor (sorted id_of rows) ≡ rest
      → length rest < fuel
      → walk fuel rows page_size cursor ≡ some rest
  unfolding from_cursor
  walk-rest zero rows page_size n cursor before rest clamped e up from enough =
      absurd (omega (arith, enough))
  walk-rest (suc fuel) rows page_size n cursor before rest clamped e up from enough =
      elim (Bool-cases (ltb (suc n) (length rest))) [
        | inr short ↦ last-page rows page_size (suc n) clamped fuel cursor rest from short
        | inl long ↦
            let c = cut n rest (ground (arith, long)) in
            let token = id_of c.last in
            let first =
              more-pages rows page_size (suc n) clamped fuel cursor rest token from long
                (ap (last_id id_of) c.taken ∙ last_id-append c.front c.last) in
            let whole : before ++ rest ≡ (before ++ c.front) ++ c.last ∷ c.back =
              ap (λ r. before ++ r) c.whole ∙ sym (append_assoc before c.front (c.last ∷ c.back)) in
            let split : before ++ rest ≡ ((before ++ c.front) ++ c.last ∷ []) ++ c.back =
              whole ∙ sym (append_assoc (before ++ c.front) (c.last ∷ []) c.back) in
            let left : from_cursor id_of (some token) (sorted id_of rows) ≡ c.back =
              ap (after_cursor id_of (sort_key token)) (e ∙ whole)
              ∙ after_cursor-append (before ++ c.front) c.last c.back (rw whole at up) in
            let others =
              walk-rest fuel rows page_size n (some token) ((before ++ c.front) ++ c.last ∷ [])
                c.back clamped (e ∙ split) (rw split at up) left
                (shorter c.front c.last c.back fuel (rw c.whole at enough)) in
            first
            ∙ (ap (more (take (suc n) rest)) others
                ∙ ap some (
                    ap (λ back. take (suc n) rest ++ back) (sym c.dropped)
                    ∙ take-drop (suc n) rest))
      ]

  -- Following the page tokens from the first page on returns every row exactly once, in the order of
  -- the sort keys, and ends: if the page size is valid and no two rows have the same key, the pages
  -- one after the other are the sorted rows. One page more than there are rows is always enough.
  pub walk-sorted :
      (rows : List R) (page_size : Option ℕ) (size : ℕ)
      → clamp_page_size page_size ≡ some size
      → AllDistinct id_of rows
      → walk (suc (length rows)) rows page_size none ≡ some (sorted id_of rows)
  unfolding from_cursor
  walk-sorted rows page_size zero clamped distinct = absurd (clamped-positive page_size clamped)
  walk-sorted rows page_size (suc n) clamped distinct =
      walk-rest (suc (length rows)) rows page_size n none [] (sorted id_of rows) clamped refl
        (sorted-Ascending id_of rows distinct) refl (ground (arith, sorted-length id_of rows))
