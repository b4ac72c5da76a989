-- ===== src/Actions/Edits/Restore.antt =====
-- declarative_edits.py: the revert puts back what stood there before `_write_instance_edits`.
use holon.Prelude.{◌≡◌, refl, Option, none, some, [], ◌∷◌, arith, if◌then◌else◌}
use holon.Prelude.Text.{Text, text_eq, text_eq_iff}
use holon.Prelude.Table.{get, upsert, get-delete, get-update}
use holon.Actions.Json.{Value, Fields}
use holon.Actions.Db.{InstanceKey, EditKey, same_edit, same_edit_iff, same_instance_iff}
use holon.Actions.State.{Dict}
use holon.Actions.Edits.{
  Stamp, Edits, edit_key, view, stamped, write_each, write_instance_edits, restore_one,
  restore_each, top_level_of,
}
use holon.Actions.Edits.Writes.{view-upsert, IsDict, top_level_of-IsDict, written, write_each-view}

write_each-prior :
    (i : InstanceKey) (by : Stamp) (items : Dict Value) (edits : Edits) (k : EditKey)
    → IsDict items
    → written i (write_each i by items edits).0 k
      ≡ (elim (written i items k) [ none ↦ none | some v ↦ some (view k edits) ])
unfolding write_each IsDict get same_edit
write_each-prior i by [] edits k h = ground arith
write_each-prior i by ((name, v) ∷ items) edits k h =
    let next = upsert same_edit (edit_key i name) (stamped by v) edits in
    ground (
      arith,
      h.0,
      write_each-prior i by items next k h.1,
      view-upsert (edit_key i name) k by v edits,
      text_eq_iff name k.property_name,
      same_instance_iff i k.instance_key,
    )

write_each-absent :
    (i : InstanceKey) (by : Stamp) (items : Dict Value) (edits : Edits) (name : Text)
    → get text_eq name items ≡ none
    → get text_eq name (write_each i by items edits).0 ≡ none
unfolding write_each get
write_each-absent i by [] edits name h = refl
write_each-absent i by ((other, v) ∷ items) edits name h =
    let next = upsert same_edit (edit_key i other) (stamped by v) edits in
    ground (arith, h, write_each-absent i by items next name)

pub write_each-IsDict :
    (i : InstanceKey) (by : Stamp) (items : Dict Value) (edits : Edits)
    → IsDict items
    → IsDict (write_each i by items edits).0
unfolding write_each IsDict
write_each-IsDict i by [] edits h = tt
write_each-IsDict i by ((name, v) ∷ items) edits h =
    let next = upsert same_edit (edit_key i name) (stamped by v) edits in
    (write_each-absent i by items next name h.0, write_each-IsDict i by items next h.1)

-- What the revert makes of a value, given the prior value that is recorded for it, if one is.
abbrev after_restore : Option (Option Value) → Option Value → Option Value
after_restore none now = now
after_restore (some none) now = none
after_restore (some (some v)) none = none
after_restore (some (some v)) (some w) = some v

restore_one-view :
    (k j : EditKey) (by : Stamp) (prior : Option Value) (edits : Edits)
    → view j (restore_one k by prior edits)
      ≡ (if same_edit k j then after_restore (some prior) (view j edits) else view j edits)
unfolding restore_one
restore_one-view k j by none edits =
    ground
      (arith, same_edit_iff k j, same_edit_iff j k, get-delete same_edit same_edit_iff k j edits)
restore_one-view k j by (some v) edits =
    ground (arith, get-update same_edit same_edit_iff k j (stamped by v) edits)

restore_each-view :
    (i : InstanceKey) (by : Stamp) (priors : Dict (Option Value)) (edits : Edits) (k : EditKey)
    → IsDict priors
    → view k (restore_each i by priors edits) ≡ after_restore (written i priors k) (view k edits)
unfolding restore_each IsDict get same_edit
restore_each-view i by [] edits k h = ground arith
restore_each-view i by ((name, prior) ∷ priors) edits k h = ground (
  arith,
  h.0,
  restore_each-view i by priors (restore_one (edit_key i name) by prior edits) k h.1,
  restore_one-view (edit_key i name) k by prior edits,
  text_eq_iff name k.property_name,
)

restore_each-write_each :
    (i : InstanceKey) (by again : Stamp) (items : Dict Value) (edits : Edits) (k : EditKey)
    → IsDict items
    → let (priors, after) = write_each i by items edits in
      view k (restore_each i again priors after) ≡ view k edits
restore_each-write_each i by again items edits k h =
    let w = write_each i by items edits in
    ground (
      arith,
      restore_each-view i again w.0 w.1 k (write_each-IsDict i by items edits h),
      write_each-prior i by items edits k h,
      write_each-view i by items edits k h,
    )

-- Writing any edits, dotted keys included, and then reverting them from the prior values that were
-- recorded gives every property of every instance the value it had before.
pub restore_each-write_instance_edits :
    (i : InstanceKey) (resolved : Dict Value) (by again : Stamp) (base_instance : Option Fields)
    (edits : Edits) (k : EditKey)
    → let (result, priors, after) = write_instance_edits i resolved by base_instance edits in
      view k (restore_each i again priors after) ≡ view k edits
unfolding write_instance_edits IsDict
restore_each-write_instance_edits i resolved by again base_instance edits k =
    restore_each-write_each i by again (top_level_of i base_instance edits resolved []) edits k
      (top_level_of-IsDict i base_instance edits resolved [] tt)
