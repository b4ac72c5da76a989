-- ===== src/Cursor.antt =====
-- services/connectivity/app/cursor_window.py: `CursorTracker` and `advance_cursor`. The keys of cursor
-- values, their comparison by `_cmp` and the identity of a row are an interface of the tracker.
pub mod Settled
pub mod Resume
mod Examples
use holon.Prelude.{
  ℕ, Bool, true, false, not, ◌&&◌, ◌||◌, Option, none, some, List, [], ◌∷◌, ◌++◌, length, take, leb,
  if◌then◌else◌,
}
use holon.Prelude.Text.{Text, text_eq}
use holon.Denylist.Sets.{contains, add}
use holon.Paging.{text_ltb}

-- `record.get(cursor_property)`, `_cursor_key`, `_cmp(a, b) < 0`, `_store_cursor`, equality of
-- stored values and `row_identity`.
pub record Source (R V K : Type 0) : Type 0 where
  pub value_of : R → Option V
  pub cursor_key : V → K
  pub precedes : K → K → Bool
  pub store_cursor : V → V
  pub same_value : V → V → Bool
  pub row_identity : R → Text

-- The attributes of a tracker. `_newest` and `_newest_raw` are set together.
pub record Tracker (V K : Type 0) : Type 0 where
  pub last_cursor : Option V
  pub seen : List Text
  pub newest : Option (K × V)
  pub boundary_ids : List Text

pub record CursorAdvance (R V : Type 0) : Type 0 where
  pub rows : List R
  pub cursor : Option V
  pub boundary_keys : List Text
  pub changed : Bool

insert_text : Text → List Text → List Text
insert_text t [] = t ∷ []
insert_text t (u ∷ us) =
    let rest = insert_text t us in if text_ltb u t then u ∷ rest else t ∷ u ∷ us

-- `sorted(keys)` of a set of texts
sort_texts : List Text → List Text
unfolding insert_text
sort_texts [] = []
sort_texts (t ∷ ts) = insert_text t (sort_texts ts)

unfoldable pub cap_boundary : List Text → List Text
unfolding sort_texts
cap_boundary keys = if leb (length keys) 4_096 then keys else take 4_096 (sort_texts keys)

-- `a | b` of two sets
unfoldable pub union : List Text → List Text → List Text
union [] s = s
union (x ∷ xs) s = union xs (add x s)

abbrev texts_eq : List Text → List Text → Bool
texts_eq [] [] = true
texts_eq [] (u ∷ us) = false
texts_eq (t ∷ ts) [] = false
texts_eq (t ∷ ts) (u ∷ us) = text_eq t u && texts_eq ts us

module _ {R V K : Type 0} (src : Source R V K) where
  abbrev pub key_of : Option V → Option K
  key_of none = none
  key_of (some v) = some (src.cursor_key v)

  -- The row lies before the stored cursor, or at it with an identity that is stored there.
  abbrev pub is_old : R → K → Option K → List Text → Bool
  is_old r key none seen = false
  is_old r key (some last) seen =
      src.precedes key last || (not (src.precedes last key) && contains (src.row_identity r) seen)

  -- A kept row becomes the newest, or joins those at the newest key.
  abbrev pub note : R → K → V → Option (K × V) → Tracker V K → Tracker V K
  note r key raw none t = record t {
    newest = some (key, raw);
    boundary_ids = src.row_identity r ∷ [];
  }
  note r key raw (some (newest, newest_raw)) t =
      if src.precedes newest key
      then record t { newest = some (key, raw); boundary_ids = src.row_identity r ∷ [] }
      else if src.precedes key newest
      then t
      else record t { boundary_ids = add (src.row_identity r) t.boundary_ids }

  -- Is the row kept, and the tracker after it
  unfoldable pub keep_one : R → Option V → Tracker V K → Bool × Tracker V K
  keep_one r none t = (elim t.last_cursor [ none ↦ true | some v ↦ false ], t)
  keep_one r (some raw) t =
      let key = src.cursor_key raw in
      if is_old r key (key_of t.last_cursor) t.seen
      then (false, t)
      else (true, note r key raw t.newest t)

  -- `CursorTracker.keep`
  unfoldable pub keep : List R → Tracker V K → List R × Tracker V K
  keep [] t = ([], t)
  keep (r ∷ records) t =
      let (kept, after) = keep_one r (src.value_of r) t in
      let (others, last) = keep records after in (if kept then r ∷ others else others, last)

  abbrev pub at_last : K → Option K → Bool
  at_last newest none = false
  at_last newest (some last) = not (src.precedes newest last) && not (src.precedes last newest)

  abbrev same_cursor : Option V → Option V → Bool
  same_cursor none none = true
  same_cursor none (some w) = false
  same_cursor (some v) none = false
  same_cursor (some v) (some w) = src.same_value v w

  -- The identities at the cursor to store
  unfoldable pub level_ids : Option (K × V) → Tracker V K → List Text
  level_ids none t = t.seen
  level_ids (some (newest, raw)) t =
      if at_last newest (key_of t.last_cursor) then union t.boundary_ids t.seen else t.boundary_ids

  unfoldable pub next_cursor : Option (K × V) → Tracker V K → Option V
  next_cursor none t = t.last_cursor
  next_cursor (some (newest, raw)) t =
      if at_last newest (key_of t.last_cursor) then t.last_cursor else some (src.store_cursor raw)

  unfoldable pub changes : Option (K × V) → Tracker V K → Bool
  unfolding sort_texts
  changes none t = false
  changes (some newest) t =
      not (same_cursor (next_cursor (some newest) t) t.last_cursor)
      || not (texts_eq (sort_texts (cap_boundary (level_ids (some newest) t))) (sort_texts t.seen))

  -- `CursorTracker.result`
  unfoldable pub result : Tracker V K → CursorAdvance R V
  unfolding changes
  result t = record {
    rows = [];
    cursor = next_cursor t.newest t;
    boundary_keys = cap_boundary (level_ids t.newest t);
    changed = changes t.newest t;
  }

  -- `CursorTracker.__init__`
  abbrev pub tracker : Option V → List Text → Tracker V K
  tracker last_cursor seen = record {
    last_cursor = last_cursor;
    seen = seen;
    newest = none;
    boundary_ids = [];
  }

  unfoldable pub advance_cursor : List R → Option V → List Text → CursorAdvance R V
  advance_cursor records last_cursor seen =
      let (kept, t) = keep records (tracker last_cursor seen) in record (result t) { rows = kept }
