-- ===== src/FileCursor/Examples.antt =====
-- A listing of three files, read from a pair between them and from the key of an earlier version.
use holon.Prelude.{◌≡◌, refl, [], List, ◌∷◌, filter}
use holon.Prelude.Text.{codes}
use holon.Paging.{text_ltb}
use holon.FileCursor.{
  Entry, legacy, at, entry_ltb, legacy_mtime, include, insert_entry, sort_entries, last_entry,
  select_files,
}
use holon.FileCursor.Resume.{select_files-select_files}

abbrev listing : List Entry
listing = (7, codes "a") ∷ (5, codes "b") ∷ (5, codes "c") ∷ []

later_files :
    select_files listing (at (5, codes "b")) ≡ (codes "c" ∷ codes "a" ∷ [], at (7, codes "a"))
unfolding select_files filter include entry_ltb text_ltb sort_entries insert_entry last_entry
later_files = refl

-- `a` sorts before the stored key, but it is newer than the file of that key.
rewritten_file : select_files listing (legacy (codes "c")) ≡ (codes "a" ∷ [], at (7, codes "a"))
unfolding select_files filter include entry_ltb text_ltb sort_entries insert_entry last_entry
    legacy_mtime
rewritten_file = refl

select_files-select_files_example :
    let first = select_files listing (at (5, codes "b")) in
    select_files listing first.1 ≡ ([], first.1)
select_files-select_files_example = select_files-select_files listing (at (5, codes "b")) refl
