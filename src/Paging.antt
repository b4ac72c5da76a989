-- ===== src/Paging.antt =====
-- services/knowledge/app/paging.py: `clamp_page_size`, `_sort_key` and `paginate_rows`. A cursor is
-- the id that `encode_cursor` writes into it and `decode_cursor` reads back.
pub mod Keys
pub mod Walk
mod Examples
use holon.Prelude.{
  ℕ, zero, suc, ◌+◌, ◌-◌, ◌*◌, ◌≤◌, Bool, true, false, not, ◌&&◌, ◌||◌, Option, none, some, List,
  [], ◌∷◌, ◌++◌, take, drop, length, ltb, leb, ◌==◌, if◌then◌else◌,
}
use holon.Prelude.Text.{Text}
use holon.Prelude.Exec.{Outcome, returned, raised}
use holon.Urn.Decimal.{read_decimal}

pub data SortKey : Type 0 where
  numeric : ℕ → SortKey
  textual : Text → SortKey

-- A text of digits sorts as its number, in front of all others. The id None is the empty text.
unfoldable pub sort_key : Text → SortKey
sort_key id = elim (read_decimal id) [ none ↦ textual id | some n ↦ numeric n ]

unfoldable pub text_ltb : Text → Text → Bool
text_ltb [] [] = false
text_ltb [] (d ∷ t) = true
text_ltb (c ∷ s) [] = false
text_ltb (c ∷ s) (d ∷ t) = ltb c d || ((c == d) && text_ltb s t)

unfoldable pub key_ltb : SortKey → SortKey → Bool
unfolding text_ltb
key_ltb (numeric m) (numeric n) = ltb m n
key_ltb (numeric m) (textual t) = true
key_ltb (textual s) (numeric n) = false
key_ltb (textual s) (textual t) = text_ltb s t

-- `clamp_page_size`, where `none` of the result is the PagingError
unfoldable pub clamp_page_size : Option ℕ → Option ℕ
clamp_page_size none = some 50
clamp_page_size (some size) =
    if size == 0 then none else if ltb 10_000 size then none else some size

pub record Page (R : Type 0) : Type 0 where
  pub data_ : List R
  pub next_page_token : Option Text
  pub page_size : ℕ

module _ {R : Type 0} (id_of : R → Text) where
  abbrev pub key : R → SortKey
  key r = sort_key (id_of r)

  insert : R → List R → List R
  insert r [] = r ∷ []
  insert r (x ∷ xs) =
      let rest = insert r xs in if key_ltb (key x) (key r) then x ∷ rest else r ∷ x ∷ xs

  -- `sorted(rows, key=…)`, which keeps the order of equal keys
  unfoldable pub sorted : List R → List R
  unfolding insert
  sorted [] = []
  sorted (r ∷ rows) = insert r (sorted rows)

  -- `ordered[start:]`, from the first row after the cursor on
  unfoldable pub after_cursor : SortKey → List R → List R
  after_cursor k [] = []
  after_cursor k (r ∷ rows) =
      let rest = after_cursor k rows in if key_ltb k (key r) then r ∷ rows else rest

  unfoldable pub from_cursor : Option Text → List R → List R
  unfolding after_cursor
  from_cursor none ordered = ordered
  from_cursor (some id) ordered = after_cursor (sort_key id) ordered

  -- `key_of(page[-1])`
  last_id : List R → Option Text
  last_id [] = none
  last_id (r ∷ []) = some (id_of r)
  last_id (r ∷ x ∷ xs) = last_id (x ∷ xs)

  -- The page of the rows from the cursor on; there is a next one if more than `size` are left.
  unfoldable pub page_of : ℕ → List R → Page R
  unfolding last_id
  page_of size rest =
      let page = take size rest in
      record {
        data_ = page;
        next_page_token = if ltb size (length rest) then last_id page else none;
        page_size = if leb size 100 then size else 50;
      }

  unfoldable pub paginate_rows : List R → Option ℕ → Option Text → Option (Page R)
  paginate_rows rows page_size cursor = elim (clamp_page_size page_size) [
    | none ↦ none
    | some size ↦ some (page_of size (from_cursor cursor (sorted rows)))
  ]
