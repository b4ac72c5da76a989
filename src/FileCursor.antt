-- ===== src/FileCursor.antt =====
-- services/connectivity/app/file_cursor.py: `select_files`, on a cursor that is decoded.
pub mod Sorted
pub mod Resume
mod Examples
use holon.Prelude.{
  ℕ, ◌==◌, Bool, true, false, ◌&&◌, ◌||◌, Option, none, some, List, [], ◌∷◌, ltb, filter,
  if◌then◌else◌,
}
use holon.Prelude.Text.{Text, text_eq}
use holon.Paging.{text_ltb}

-- `(mtime_ns, key)`
abbrev pub Entry : Type 0
Entry = ℕ × Text

-- What is stored between two reads: nothing, the key of an earlier version, or a pair.
pub data FileCursor : Type 0 where
  absent : FileCursor
  legacy : Text → FileCursor
  at : Entry → FileCursor

unfoldable pub entry_ltb : Entry → Entry → Bool
entry_ltb (m, k) (n, l) = ltb m n || (m == n && text_ltb k l)

-- The time of the file that an earlier version's cursor names
unfoldable pub legacy_mtime : Text → List Entry → Option ℕ
legacy_mtime key [] = none
legacy_mtime key ((m, k) ∷ entries) =
    let rest = legacy_mtime key entries in if text_eq k key then some m else rest

abbrev pub is_after : ℕ → Option ℕ → Bool
is_after m none = false
is_after m (some n) = ltb n m

unfoldable pub include : List Entry → FileCursor → Entry → Bool
include entries absent e = true
include entries (legacy key) (m, k) = text_ltb key k || is_after m (legacy_mtime key entries)
include entries (at stored) e = entry_ltb stored e

unfoldable pub insert_entry : Entry → List Entry → List Entry
insert_entry e [] = e ∷ []
insert_entry e (x ∷ xs) =
    let rest = insert_entry e xs in if entry_ltb x e then x ∷ rest else e ∷ x ∷ xs

unfoldable pub sort_entries : List Entry → List Entry
sort_entries [] = []
sort_entries (e ∷ es) = insert_entry e (sort_entries es)

-- `chosen[-1]` of a list that starts with e
unfoldable pub last_entry : Entry → List Entry → Entry
last_entry e [] = e
last_entry e (x ∷ xs) = last_entry x xs

abbrev pub keys_of : List Entry → List Text
keys_of [] = []
keys_of (e ∷ es) = e.1 ∷ keys_of es

abbrev pub read_chosen : FileCursor → List Entry → List Text × FileCursor
read_chosen cursor [] = ([], cursor)
read_chosen cursor (e ∷ chosen) = (keys_of (e ∷ chosen), at (last_entry e chosen))

unfoldable pub select_files : List Entry → FileCursor → List Text × FileCursor
select_files entries cursor =
    read_chosen cursor (sort_entries (filter (include entries cursor) entries))
