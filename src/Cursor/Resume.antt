-- ===== src/Cursor/Resume.antt =====
-- services/connectivity/app/cursor_window.py: a sync that resumes from the stored result of another.
use mathlib.Core.Path.{subst}
use holon.Prelude.{
  ◌≡◌, refl, sym, true, false, ◌||◌, Option, none, some, List, [], ◌∷◌, length, leb, All, arith,
  Bool-cases, inl, inr,
}
use holon.Prelude.Text.{Text}
use holon.Denylist.Sets.{contains, add, contains-add}
use holon.Cursor.{
  Source, Tracker, key_of, is_old, at_last, keep_one, keep, union, cap_boundary, level_ids,
  next_cursor, changes, result, tracker, advance_cursor,
}
use holon.Cursor.Settled.{
  IsWeakOrder, covers, settled, not_before, IsTracked, keep-settles, keep-IsTracked,
}

contains-union :
    (t : Text) (xs s : List Text) → contains t (union xs s) ≡ (contains t xs || contains t s)
unfolding contains union
contains-union t [] s = refl
contains-union t (x ∷ xs) s = ground (arith, contains-union t xs (add x s), contains-add t x s)

module _ {R V K : Type 0} (src : Source R V K) (order : IsWeakOrder src) where
  -- Level with the stored cursor: the identities are merged.
  old_at_last :
      (r : R) (key n : K) (last : Option K) (raw : V) (ids seen : List Text)
      → at_last src n last ≡ true
      → (is_old src r key last seen || covers src r key (some (n, raw)) ids) ≡ true
      → is_old src r key last (union ids seen) ≡ true
  old_at_last r key n none raw ids seen same h = absurd (cc)
  old_at_last r key n (some l) raw ids seen same h = ground (
    arith,
    same,
    h,
    order.weak l n key,
    order.weak key l n,
    contains-union (src.row_identity r) ids seen,
  )

  -- After the stored cursor: the identities of the newest key replace the stored ones.
  old_after_last :
      (r : R) (key n : K) (raw : V) (last : Option K) (ids seen : List Text)
      → not_before src n last ≡ true
      → at_last src n last ≡ false
      → (is_old src r key last seen || covers src r key (some (n, raw)) ids) ≡ true
      → is_old src r key (some n) ids ≡ true
  old_after_last r key n raw none ids seen fresh new h = ground (arith, h)
  old_after_last r key n raw (some l) ids seen fresh new h =
      ground (arith, fresh, new, h, order.weak l key n, order.asymmetric key l)

  module _ (store : (v : V) → src.cursor_key (src.store_cursor v) ≡ src.cursor_key v) where
    old_next :
        (r : R) (key : K) (newest : Option (K × V)) (t : Tracker V K)
        → IsTracked src newest t
        → (is_old src r key (key_of src t.last_cursor) t.seen
            || covers src r key newest t.boundary_ids)
          ≡ true
        → is_old src r key (key_of src (next_cursor src newest t)) (level_ids src newest t) ≡ true
    unfolding next_cursor level_ids
    old_next r key none t tracked h = ground (arith, h)
    old_next r key (some (n, raw)) t tracked h =
        let last = key_of src t.last_cursor in
        elim (Bool-cases (at_last src n last)) [
          | inl same ↦ rw same (old_at_last r key n last raw t.boundary_ids t.seen same h)
          | inr new ↦
              rw (new, store raw, sym tracked.0)
                (old_after_last r key n raw last t.boundary_ids t.seen tracked.1 new h)
        ]

    -- A row that an earlier sync has settled is not kept by one that starts at the stored result.
    keep_one-old :
        (r : R) (v : Option V) (t next : Tracker V K) (c : V)
        → next.last_cursor ≡ some c
        → next_cursor src t.newest t ≡ some c
        → next.seen ≡ level_ids src t.newest t
        → IsTracked src t.newest t
        → settled src r v t ≡ true
        → keep_one src r v next ≡ (false, next)
    unfolding keep_one
    keep_one-old r none t next c at cursor seen tracked h = rw at refl
    keep_one-old r (some raw) t next c at cursor seen tracked h =
        let key = src.cursor_key raw in
        let old = old_next r key t.newest t tracked h in
        rw
          (
            at,
            seen,
            subst (λ x. is_old src r key (key_of src x) (level_ids src t.newest t) ≡ true) cursor
                old,
          )
          refl

    keep-old :
        (records : List R) (t next : Tracker V K) (c : V)
        → next.last_cursor ≡ some c
        → next_cursor src t.newest t ≡ some c
        → next.seen ≡ level_ids src t.newest t
        → IsTracked src t.newest t
        → All (λ x. settled src x (src.value_of x) t ≡ true) records
        → keep src records next ≡ ([], next)
    unfolding keep
    keep-old [] t next c at cursor seen tracked h = refl
    keep-old (r ∷ records) t next c at cursor seen tracked h =
        rw
          (
            keep_one-old r (src.value_of r) t next c at cursor seen tracked h.0,
            keep-old records t next c at cursor seen tracked h.1,
          )
          refl

    -- Let the keys of cursor values be ordered by a strict weak order, which storing a value does not
    -- change, and let a sync that starts anywhere leave a cursor and at most 4096 identities at it. The
    -- next sync, started at what the first one stored, keeps none of the rows that the first one was
    -- given when it is given them again; it leaves the cursor and reports no change.
    pub advance_cursor-advance_cursor :
        (records : List R) (last : Option V) (seen : List Text) (c : V)
        → (advance_cursor src records last seen).cursor ≡ some c
        → (let t = (keep src records (tracker src last seen)).1 in
            leb (length (level_ids src t.newest t)) 4_096 ≡ true)
        → let first = advance_cursor src records last seen in
          let again = advance_cursor src records first.cursor first.boundary_keys in
          (again.rows ≡ []) × (again.cursor ≡ first.cursor) × (again.changed ≡ false)
    unfolding advance_cursor result next_cursor changes cap_boundary
    advance_cursor-advance_cursor records last seen c at fits =
        let start = tracker src last seen in
        let t = (keep src records start).1 in
        let next =
          tracker src (next_cursor src t.newest t) (cap_boundary (level_ids src t.newest t)) in
        let old =
          keep-old records t next c at at (rw fits refl) (keep-IsTracked src records start tt)
            (keep-settles src order records start) in
        rw old (refl, refl, refl)
