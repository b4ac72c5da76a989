-- ===== src/FileCursor/Resume.antt =====
-- services/connectivity/app/file_cursor.py: a read that resumes from the stored cursor.
use mathlib.Core.Path.{subst}
use holon.Prelude.{
  ◌≡◌, refl, sym, Bool, true, false, List, [], ◌∷◌, All, filter, arith, if◌then◌else◌, Bool-cases,
  inl, inr,
}
use holon.FileCursor.{
  Entry, FileCursor, absent, legacy, at, entry_ltb, include, sort_entries, last_entry, read_chosen,
  select_files,
}
use holon.FileCursor.Sorted.{
  entry_ltb_trans, Ascending, All-map, sort-All, of_sort-All, sort-Ascending, last-All,
  last-greatest,
}

filter-All : (keep : Entry → Bool) (es : List Entry) → All (λ e. keep e ≡ true) (filter keep es)
unfolding filter
filter-All keep [] = tt
filter-All keep (e ∷ es) = elim (Bool-cases (keep e)) [
  | inl k ↦ rw k (k, filter-All keep es)
  | inr k ↦ rw k (filter-All keep es)
]

of_kept-All :
    (P : Entry → Type 0) (e : Entry) (es : List Entry) (kept : Bool)
    → All P (if kept then e ∷ es else es)
    → (kept ≡ true → P e) × All P es
of_kept-All P e es true h = ((λ k. h.0), h.1)
of_kept-All P e es false h = ((λ k. absurd (cc)), h)

of_filter-All :
    (P : Entry → Type 0) (keep : Entry → Bool) (es : List Entry)
    → All P (filter keep es)
    → All (λ e. keep e ≡ true → P e) es
unfolding filter
of_filter-All P keep [] h = tt
of_filter-All P keep (e ∷ es) h =
    let both = of_kept-All P e (filter keep es) (keep e) h in
    (both.0, of_filter-All P keep es both.1)

filter-none :
    (keep : Entry → Bool) (es : List Entry) → All (λ e. keep e ≡ false) es → filter keep es ≡ []
unfolding filter
filter-none keep [] h = refl
filter-none keep (e ∷ es) h = rw h.0 (filter-none keep es h.1)

-- The cursor is absent or a pair, not the key of an earlier version.
abbrev pub is_versioned : FileCursor → Bool
is_versioned absent = true
is_versioned (legacy key) = false
is_versioned (at e) = true

-- An entry that is not chosen is not after one that is.
not_after_chosen :
    (entries : List Entry) (cursor : FileCursor) (m x : Entry)
    → is_versioned cursor ≡ true
    → include entries cursor m ≡ true
    → (include entries cursor x ≡ true → entry_ltb m x ≡ false)
    → entry_ltb m x ≡ false
unfolding include
not_after_chosen entries absent m x v h f = f refl
not_after_chosen entries (legacy key) m x v h f = absurd (cc)
not_after_chosen entries (at p) m x v h f = elim (Bool-cases (entry_ltb p x)) [
  | inl after ↦ f after
  | inr not_after ↦ ground (arith, not_after, h, entry_ltb_trans p m x)
]

none_left :
    (entries : List Entry) (cursor : FileCursor) (chosen : List Entry)
    → is_versioned cursor ≡ true
    → sort_entries (filter (include entries cursor) entries) ≡ chosen
    → filter (include entries (read_chosen cursor chosen).1) entries ≡ []
unfolding include
none_left entries cursor [] v same =
    let keep = include entries cursor in
    let nothing = subst (All (λ x. keep x ≡ false)) (sym same) tt in
    filter-none keep entries (
      All-map (λ x. keep x ≡ true → keep x ≡ false) (λ x. keep x ≡ false)
        (λ x f. elim (Bool-cases (keep x)) [ inl k ↦ f k | inr k ↦ k ]) entries
        (of_filter-All (λ x. keep x ≡ false) keep entries
          (of_sort-All (λ x. keep x ≡ false) (filter keep entries) nothing)))
none_left entries cursor (e ∷ chosen) v same =
    let keep = include entries cursor in
    let m = last_entry e chosen in
    let greatest =
      last-greatest e chosen (subst Ascending same (sort-Ascending (filter keep entries))) in
    let all_kept =
      subst (All (λ x. keep x ≡ true)) same
        (sort-All (λ x. keep x ≡ true) (filter keep entries) (filter-All keep entries)) in
    filter-none (entry_ltb m) entries (
      All-map (λ x. keep x ≡ true → entry_ltb m x ≡ false) (λ x. entry_ltb m x ≡ false)
        (λ x f.
          not_after_chosen entries cursor m x v (last-All (λ y. keep y ≡ true) e chosen all_kept) f)
        entries
        (of_filter-All (λ x. entry_ltb m x ≡ false) keep entries
          (of_sort-All (λ x. entry_ltb m x ≡ false) (filter keep entries)
            (subst (All (λ x. entry_ltb m x ≡ false)) (sym same) greatest))))

-- When the cursor is absent or a pair, a second read of the same listing, from the cursor that the first
-- one stored, reads no file and leaves the cursor.
pub select_files-select_files :
    (entries : List Entry) (cursor : FileCursor)
    → is_versioned cursor ≡ true
    → let first = select_files entries cursor in select_files entries first.1 ≡ ([], first.1)
unfolding select_files sort_entries
select_files-select_files entries cursor v =
    rw (none_left entries cursor (sort_entries (filter (include entries cursor) entries)) v refl)
      refl
