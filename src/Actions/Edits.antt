-- ===== src/Actions/Edits.antt =====
-- services/knowledge/app/actions/declarative_edits.py: `_write_instance_edits`, the property half of
-- `_apply_declarative_edits`, and the property half of the revert.
pub mod Writes
pub mod Restore
use holon.Prelude.{
  ℕ, Bool, true, false, not, Option, none, some, String, List, [], ◌∷◌, ◌==◌, if◌then◌else◌,
}
use holon.Prelude.Text.{Text, text_eq, codes}
use holon.Prelude.Table.{Table, get, upsert, update, delete}
use holon.Authz.Client.{Principal}
use holon.Actions.Json.{
  Value, null, text, scalar, object, Fields, empty, deep_set, as_fields, find, put,
}
use holon.Actions.Db.{InstanceKey, EditKey, EditRow, same_edit}
use holon.Actions.State.{
  Dict, Source, parameter, literal, Edit, modify_property, link, create_object, delete_target,
  delete_other,
}

abbrev dot : ℕ
dot = 46

-- `key.split(".")`
unfoldable pub split : Text → Text × List Text
split [] = ([], [])
split (c ∷ s) = let (w, ws) = split s in if c == dot then ([], w ∷ ws) else (c ∷ w, ws)

-- Who writes, and when
pub record Stamp : Type 0 where
  pub action_urn : Text
  pub actor_urn : Text
  pub at : ℕ

abbrev pub Edits : Type 0
Edits = Table EditKey EditRow

abbrev pub edit_key : InstanceKey → Text → EditKey
edit_key i name = record { instance_key = i; property_name = name }

-- The value that an edit row holds, if there is one.
abbrev pub value_of : Option EditRow → Option Value
value_of none = none
value_of (some row) = some row.property_value

abbrev pub view : EditKey → Edits → Option Value
view k edits = value_of (get same_edit k edits)

abbrev pub stamped : Stamp → Value → EditRow
stamped by v = record {
  property_value = v;
  set_by_action_urn = by.action_urn;
  set_by_urn = by.actor_urn;
  set_at = by.at;
}

-- The struct that a dotted key is merged into: what this call has set so far, else the stored edit,
-- else the base instance; a value that is no dict counts as an empty one.
stored_fields : Option Value → Option Value → Fields
stored_fields (some v) base = as_fields (some v)
stored_fields none base = as_fields base

base_fields : Option Value → Option Value → Option Value → Fields
unfolding stored_fields
base_fields none stored base = stored_fields stored base
base_fields (some null) stored base = stored_fields stored base
base_fields (some (text t)) stored base = empty
base_fields (some (scalar t)) stored base = empty
base_fields (some (object fields)) stored base = fields

module _ (i : InstanceKey) (base_instance : Option Fields) where
  -- One round of the loop over `resolved`: a key without a dot stands for itself.
  merge_key : Edits → Text × List Text → Value → Dict Value → Dict Value
  unfolding base_fields
  merge_key edits (top, []) value top_level = upsert text_eq top value top_level
  merge_key edits (top, next ∷ rest) value top_level =
      let base : Option Value = elim base_instance [
        | none ↦ none
        | some fields ↦ find top fields
      ] in
      let struct = base_fields (get text_eq top top_level) (view (edit_key i top) edits) base in
      upsert text_eq top (object (deep_set next rest value struct)) top_level

  unfoldable pub top_level_of : Edits → Dict Value → Dict Value → Dict Value
  unfolding merge_key
  top_level_of edits [] top_level = top_level
  top_level_of edits ((key, value) ∷ resolved) top_level =
      top_level_of edits resolved (merge_key edits (split key) value top_level)

-- What stood under each key before it is written, and the table afterwards.
unfoldable pub write_each : InstanceKey → Stamp → Dict Value → Edits → Dict (Option Value) × Edits
write_each i by [] edits = ([], edits)
write_each i by ((name, value) ∷ items) edits =
    let k = edit_key i name in
    let (prior, after) = write_each i by items (upsert same_edit k (stamped by value) edits) in
    ((name, view k edits) ∷ prior, after)

-- `_write_instance_edits`: the result, the prior values, and the table afterwards
unfoldable pub write_instance_edits :
    InstanceKey
    → Dict Value
    → Stamp
    → Option Fields
    → Edits
    → Dict Value × Dict (Option Value) × Edits
unfolding write_each top_level_of
write_instance_edits i resolved by base_instance edits =
    let top_level = top_level_of i base_instance edits resolved [] in
    let (priors, after) = write_each i by top_level edits in (top_level, priors, after)

abbrev pub get_or_null : Text → Dict Value → Value
get_or_null name parameters = elim (get text_eq name parameters) [ none ↦ null | some v ↦ v ]

-- The value of a property edit: the parameter `reason` is the invocation's own.
unfoldable pub resolve_source : Text → Dict Value → Source → Value
resolve_source reason parameters (literal v) = v
resolve_source reason parameters (parameter name) =
    if text_eq name (codes "reason") then text reason else get_or_null name parameters

-- `resolved`, the dict comprehension of `_apply_declarative_edits`
resolve_into : Text → Dict Value → List Edit → Dict Value → Dict Value
resolve_into reason parameters [] resolved = resolved
resolve_into reason parameters (modify_property name source ∷ edits) resolved =
    resolve_into reason parameters edits
      (upsert text_eq name (resolve_source reason parameters source) resolved)
resolve_into reason parameters (link unlink relation source target ∷ edits) resolved =
    resolve_into reason parameters edits resolved
resolve_into reason parameters (create_object t key properties ∷ edits) resolved =
    resolve_into reason parameters edits resolved
resolve_into reason parameters (delete_target ∷ edits) resolved =
    resolve_into reason parameters edits resolved
resolve_into reason parameters (delete_other t name ∷ edits) resolved =
    resolve_into reason parameters edits resolved

unfoldable pub resolve_edits : Text → Dict Value → List Edit → Dict Value
unfolding resolve_into
resolve_edits reason parameters edits = resolve_into reason parameters edits []

-- The loop of `revert_declarative_action` over the prior values
restore_one : EditKey → Stamp → Option Value → Edits → Edits
restore_one k by none edits = delete same_edit k edits
restore_one k by (some v) edits = update same_edit k (stamped by v) edits

unfoldable pub restore_each : InstanceKey → Stamp → Dict (Option Value) → Edits → Edits
unfolding restore_one
restore_each i by [] edits = edits
restore_each i by ((name, prior) ∷ priors) edits =
    restore_each i by priors (restore_one (edit_key i name) by prior edits)

-- `_apply_instance_edit_rows`
unfoldable pub apply_instance_edit_rows : Fields → List (Text × Value) → Fields
apply_instance_edit_rows row [] = row
apply_instance_edit_rows row ((name, value) ∷ edit_rows) =
    apply_instance_edit_rows (put name value row) edit_rows
