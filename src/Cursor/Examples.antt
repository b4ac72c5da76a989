-- ===== src/Cursor/Examples.antt =====
-- Rows of a number, which is the cursor property, and a name; the cursor stands at 2 and two rows follow.
use holon.Prelude.{ℕ, ◌≡◌, ◌==◌, refl, false, Option, none, some, List, [], ◌∷◌, arith, ltb}
use holon.Prelude.Text.{Text, codes}
use holon.Cursor.{
  Source, advance_cursor, keep, keep_one, result, changes, next_cursor, level_ids, union,
  cap_boundary,
}
use holon.Denylist.Sets.{contains, add}
use holon.Cursor.Settled.{IsWeakOrder}
use holon.Cursor.Resume.{advance_cursor-advance_cursor}

abbrev Row : Type 0
Row = Option ℕ × Text

abbrev numbered : Source Row ℕ ℕ
numbered = record {
  value_of = λ r. r.0;
  cursor_key = λ v. v;
  precedes = ltb;
  store_cursor = λ v. v;
  same_value = λ v w. v == w;
  row_identity = λ r. r.1;
}

abbrev rows : List Row
rows =
    (some 1, codes "a")
    ∷ (some 2, codes "b")
    ∷ (some 3, codes "c")
    ∷ (none, codes "d")
    ∷ (some 3, codes "e")
    ∷ []

numbered-IsWeakOrder : IsWeakOrder numbered
numbered-IsWeakOrder = record {
  asymmetric = λ a b h. ground (arith, h);
  weak = λ a b c h k. ground (arith, h, k);
}

kept_rows :
    (advance_cursor numbered rows (some 2) (codes "b" ∷ [])).rows
    ≡ (some 3, codes "c") ∷ (some 3, codes "e") ∷ []
unfolding advance_cursor result keep keep_one contains changes next_cursor level_ids cap_boundary
    add union
kept_rows = refl

advance_cursor-advance_cursor_example :
    let first = advance_cursor numbered rows (some 2) (codes "b" ∷ []) in
    let again = advance_cursor numbered rows first.cursor first.boundary_keys in
    (again.rows ≡ []) × (again.cursor ≡ first.cursor) × (again.changed ≡ false)
unfolding advance_cursor result keep keep_one contains changes next_cursor level_ids cap_boundary
    add union
advance_cursor-advance_cursor_example =
    advance_cursor-advance_cursor numbered numbered-IsWeakOrder (λ v. refl) rows (some 2)
      (codes "b" ∷ []) 3 refl refl
