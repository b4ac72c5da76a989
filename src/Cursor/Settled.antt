-- ===== src/Cursor/Settled.antt =====
-- services/connectivity/app/cursor_window.py: what a tracker knows of the rows that it has seen.
use mathlib.Core.Path.{subst}
use holon.Prelude.{
  ◌≡◌, refl, sym, Bool, true, false, not, ◌&&◌, ◌||◌, Option, none, some, List, [], ◌∷◌, All, arith,
  Bool-cases, inl, inr,
}
use holon.Prelude.Text.{Text, text_eq_iff}
use holon.Denylist.Sets.{contains, add, contains-add}
use holon.Cursor.{Source, Tracker, key_of, is_old, note, keep_one, keep}

module _ {R V K : Type 0} (src : Source R V K) where
  -- The order of the keys: a strict weak order.
  pub record IsWeakOrder : Type 0 where
    pub asymmetric : (a b : K) → src.precedes a b ≡ true → src.precedes b a ≡ false
    pub weak :
        (a b c : K) → src.precedes a c ≡ true → src.precedes a b ≡ false → src.precedes b c ≡ true

  -- The newest key is not before the row, and the row's identity is known if it stands at that key.
  abbrev pub covers : R → K → Option (K × V) → List Text → Bool
  covers r key none ids = false
  covers r key (some (newest, raw)) ids =
      not (src.precedes newest key)
      && (src.precedes key newest || contains (src.row_identity r) ids)

  -- The row was dropped as old, or is covered.
  abbrev pub settled : R → Option V → Tracker V K → Bool
  settled r none t = true
  settled r (some raw) t =
      let key = src.cursor_key raw in
      is_old src r key (key_of src t.last_cursor) t.seen || covers r key t.newest t.boundary_ids

  irreflexive : (order : IsWeakOrder) (a : K) → src.precedes a a ≡ false
  irreflexive order a = elim (Bool-cases (src.precedes a a)) [
    | inr e ↦ e
    | inl e ↦ order.asymmetric a a e
  ]

  note-covers :
      (order : IsWeakOrder) (r : R) (key : K) (raw : V) (newest : Option (K × V)) (t : Tracker V K)
      → t.newest ≡ newest
      → let after = note src r key raw newest t in
        covers r key after.newest after.boundary_ids ≡ true
  unfolding contains
  note-covers order r key raw none t e =
      ground (arith, irreflexive order key, text_eq_iff (src.row_identity r) (src.row_identity r))
  note-covers order r key raw (some (n, n_raw)) t e = ground (
    arith,
    e,
    irreflexive order key,
    order.asymmetric n key,
    order.asymmetric key n,
    text_eq_iff (src.row_identity r) (src.row_identity r),
    contains-add (src.row_identity r) (src.row_identity r) t.boundary_ids,
  )

  note-keeps :
      (order : IsWeakOrder) (r x : R) (key k : K) (raw : V) (newest : Option (K × V))
      (t : Tracker V K)
      → t.newest ≡ newest
      → covers x k newest t.boundary_ids ≡ true
      → let after = note src r key raw newest t in covers x k after.newest after.boundary_ids ≡ true
  unfolding contains
  note-keeps order r x key k raw none t e h = absurd (cc)
  note-keeps order r x key k raw (some (n, n_raw)) t e h = ground (
    arith,
    e,
    h,
    order.weak n k key,
    order.asymmetric k key,
    order.asymmetric key k,
    contains-add (src.row_identity x) (src.row_identity r) t.boundary_ids,
  )

  note-fixed :
      (r : R) (key : K) (raw : V) (newest : Option (K × V)) (t : Tracker V K)
      → let after = note src r key raw newest t in
        (after.last_cursor ≡ t.last_cursor) × (after.seen ≡ t.seen)
  note-fixed r key raw none t = (refl, refl)
  note-fixed r key raw (some (n, n_raw)) t = ground arith

  keep_one-fixed :
      (r : R) (v : Option V) (t : Tracker V K)
      → let after = (keep_one src r v t).1 in
        (after.last_cursor ≡ t.last_cursor) × (after.seen ≡ t.seen)
  unfolding keep_one
  keep_one-fixed r none t = (refl, refl)
  keep_one-fixed r (some raw) t =
      let key = src.cursor_key raw in
      elim (Bool-cases (is_old src r key (key_of src t.last_cursor) t.seen)) [
        | inl old ↦ rw old (refl, refl)
        | inr new ↦ rw new (note-fixed r key raw t.newest t)
      ]

  keep_one-settles :
      (order : IsWeakOrder) (r : R) (v : Option V) (t : Tracker V K)
      → settled r v (keep_one src r v t).1 ≡ true
  unfolding keep_one
  keep_one-settles order r none t = refl
  keep_one-settles order r (some raw) t =
      let key = src.cursor_key raw in
      elim (Bool-cases (is_old src r key (key_of src t.last_cursor) t.seen)) [
        | inl old ↦ rw old (ground (arith, old))
        | inr new ↦ rw new (ground (arith, note-covers order r key raw t.newest t refl))
      ]

  keep_one-keeps :
      (order : IsWeakOrder) (r x : R) (v w : Option V) (t : Tracker V K)
      → settled x w t ≡ true
      → settled x w (keep_one src r v t).1 ≡ true
  unfolding keep_one
  keep_one-keeps order r x v none t h = refl
  keep_one-keeps order r x none (some w) t h = h
  keep_one-keeps order r x (some raw) (some w) t h =
      let key = src.cursor_key raw in
      let k = src.cursor_key w in
      elim (Bool-cases (is_old src r key (key_of src t.last_cursor) t.seen)) [
        | inl old ↦ rw old h
        | inr new ↦ rw new (
            ground (
              arith,
              h,
              note-fixed r key raw t.newest t,
              note-keeps order r x key k raw t.newest t refl,
            ))
      ]

  keep-keeps :
      (order : IsWeakOrder) (records : List R) (x : R) (t : Tracker V K)
      → settled x (src.value_of x) t ≡ true
      → settled x (src.value_of x) (keep src records t).1 ≡ true
  unfolding keep
  keep-keeps order [] x t h = h
  keep-keeps order (r ∷ records) x t h =
      keep-keeps order records x (keep_one src r (src.value_of r) t).1
        (keep_one-keeps order r x (src.value_of r) (src.value_of x) t h)

  pub keep-settles :
      (order : IsWeakOrder) (records : List R) (t : Tracker V K)
      → All (λ x. settled x (src.value_of x) (keep src records t).1 ≡ true) records
  unfolding keep
  keep-settles order [] t = tt
  keep-settles order (r ∷ records) t =
      let after = (keep_one src r (src.value_of r) t).1 in
      (
        keep-keeps order records r after (keep_one-settles order r (src.value_of r) t),
        keep-settles order records after,
      )

  -- The newest key is that of its value, and not before the stored cursor.
  abbrev pub not_before : K → Option K → Bool
  not_before n none = true
  not_before n (some last) = not (src.precedes n last)

  abbrev pub IsTracked : Option (K × V) → Tracker V K → Type 0
  IsTracked none t = Unit
  IsTracked (some (n, raw)) t =
      (n ≡ src.cursor_key raw) × (not_before n (key_of src t.last_cursor) ≡ true)

  is_old-not_before :
      (r : R) (key : K) (last : Option K) (seen : List Text)
      → is_old src r key last seen ≡ false
      → not_before key last ≡ true
  is_old-not_before r key none seen h = refl
  is_old-not_before r key (some l) seen h = ground (arith, h)

  IsTracked-ids :
      (n : K) (raw : V) (t : Tracker V K) (ids : List Text)
      → IsTracked (some (n, raw)) t
      → IsTracked (some (n, raw)) (record t { boundary_ids = ids })
  IsTracked-ids n raw t ids h = h

  note-IsTracked :
      (r : R) (raw : V) (newest : Option (K × V)) (t : Tracker V K)
      → t.newest ≡ newest
      → is_old src r (src.cursor_key raw) (key_of src t.last_cursor) t.seen ≡ false
      → IsTracked newest t
      → let after = note src r (src.cursor_key raw) raw newest t in IsTracked after.newest after
  note-IsTracked r raw none t e new h = (refl, is_old-not_before r _ _ _ new)
  note-IsTracked r raw (some (n, n_raw)) t e new h =
      let key = src.cursor_key raw in
      let fresh = is_old-not_before r key (key_of src t.last_cursor) t.seen new in
      elim (Bool-cases (src.precedes n key)) [
        | inl later ↦ rw later (refl, fresh)
        | inr not_later ↦ elim (Bool-cases (src.precedes key n)) [
          | inl earlier ↦ rw (not_later, earlier) (subst (λ x. IsTracked x t) (sym e) h)
          | inr level ↦
              rw (not_later, level)
                (subst
                  (λ x.
                    IsTracked x
                      (record t { boundary_ids = add (src.row_identity r) t.boundary_ids }))
                  (sym e) (IsTracked-ids n n_raw t (add (src.row_identity r) t.boundary_ids) h))
        ]
      ]

  keep_one-IsTracked :
      (r : R) (v : Option V) (t : Tracker V K)
      → IsTracked t.newest t
      → let after = (keep_one src r v t).1 in IsTracked after.newest after
  unfolding keep_one
  keep_one-IsTracked r none t h = h
  keep_one-IsTracked r (some raw) t h =
      elim (Bool-cases (is_old src r (src.cursor_key raw) (key_of src t.last_cursor) t.seen)) [
        | inl old ↦ rw old h
        | inr new ↦ rw new (note-IsTracked r raw t.newest t refl new h)
      ]

  pub keep-IsTracked :
      (records : List R) (t : Tracker V K)
      → IsTracked t.newest t
      → let after = (keep src records t).1 in IsTracked after.newest after
  unfolding keep
  keep-IsTracked [] t h = h
  keep-IsTracked (r ∷ records) t h =
      keep-IsTracked records (keep_one src r (src.value_of r) t).1
        (keep_one-IsTracked r (src.value_of r) t h)
