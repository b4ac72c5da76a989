-- ===== src/Actions/Edits/Writes.antt =====
-- declarative_edits.py: what `_write_instance_edits` leaves in the table.
use holon.Prelude.{
  ◌≡◌, refl, Option, none, some, List, [], ◌∷◌, arith, if◌then◌else◌, Bool-cases, inl, inr,
}
use holon.Prelude.Text.{Text, text_eq, text_eq_iff}
use holon.Prelude.Table.{get, upsert, get-upsert}
use holon.Actions.Json.{Value, Fields}
use holon.Actions.Db.{InstanceKey, EditKey, same_edit, same_edit_iff, same_instance}
use holon.Actions.State.{Dict}
use holon.Actions.Edits.{Stamp, Edits, edit_key, view, stamped, merge_key, top_level_of, write_each}

pub view-upsert :
    (k j : EditKey) (by : Stamp) (v : Value) (edits : Edits)
    → view j (upsert same_edit k (stamped by v) edits)
      ≡ (if same_edit k j then some v else view j edits)
view-upsert k j by v edits =
    ground (arith, get-upsert same_edit same_edit_iff k j (stamped by v) edits)

-- No two items have the same name.
unfoldable pub IsDict : {V : Type 0} → Dict V → Type 0
IsDict [] = Unit
IsDict ((name, v) ∷ items) = (get text_eq name items ≡ none) × IsDict items

upsert-IsDict :
    {V : Type 0} (name : Text) (v : V) (items : Dict V)
    → IsDict items
    → IsDict (upsert text_eq name v items)
unfolding IsDict upsert get
upsert-IsDict name v [] h = (refl, tt)
upsert-IsDict name v ((other, w) ∷ items) h = elim (Bool-cases (text_eq other name)) [
  | inl e ↦ rw e h
  | inr e ↦ rw e (
    ground (
      arith,
      h.0,
      e,
      get-upsert text_eq text_eq_iff name other v items,
      text_eq_iff other name,
      text_eq_iff name other,
    ),
    upsert-IsDict name v items h.1,
  )
]

module _ (i : InstanceKey) (base_instance : Option Fields) (edits : Edits) where
  merge_key-IsDict :
      (path : Text × List Text) (v : Value) (items : Dict Value)
      → IsDict items
      → IsDict (merge_key i base_instance edits path v items)
  unfolding merge_key
  merge_key-IsDict (top, []) v items h = upsert-IsDict top v items h
  merge_key-IsDict (top, next ∷ rest) v items h = upsert-IsDict top _ items h

  pub top_level_of-IsDict :
      (resolved items : Dict Value)
      → IsDict items
      → IsDict (top_level_of i base_instance edits resolved items)
  unfolding top_level_of
  top_level_of-IsDict [] items h = h
  top_level_of-IsDict ((key, v) ∷ resolved) items h =
      top_level_of-IsDict resolved _ (merge_key-IsDict _ v items h)

-- The key is a property of the instance that stands in the dict.
abbrev pub written : {V : Type 0} → InstanceKey → Dict V → EditKey → Option V
written i items k =
    if same_instance i k.instance_key then get text_eq k.property_name items else none

abbrev pub or_else {ℓ} : {A : Type ℓ} → Option A → Option A → Option A
or_else none b = b
or_else (some a) b = some a

pub write_each-view :
    (i : InstanceKey) (by : Stamp) (items : Dict Value) (edits : Edits) (k : EditKey)
    → IsDict items
    → view k (write_each i by items edits).1 ≡ or_else (written i items k) (view k edits)
unfolding write_each IsDict get same_edit
write_each-view i by [] edits k h = ground arith
write_each-view i by ((name, v) ∷ items) edits k h =
    let next = upsert same_edit (edit_key i name) (stamped by v) edits in
    ground (
      arith,
      h.0,
      write_each-view i by items next k h.1,
      view-upsert (edit_key i name) k by v edits,
      text_eq_iff name k.property_name,
    )
