-- ===== src/Actions/Undo.antt =====
-- services/knowledge/app/actions: `_compensate_declarative_action` and `revert_declarative_action`
-- of declarative_edits.py, and `compensate_from_workflow_engine` of __init__.py.
pub mod Reverts
pub mod RoundTrip
use holon.Prelude.{
  ℕ, Bool, true, false, not, ◌&&◌, Option, none, some, String, List, [], ◌∷◌, ◌++◌, ◌==◌, ltb, any,
  if◌then◌else◌,
}
use holon.Prelude.Text.{Text, text_eq, codes}
use holon.Prelude.Table.{Table, get, update, delete_where}
use holon.Prelude.Exec.{
  Outcome, returned, raised, Exec, pure, raise, raise_if, gets, modify, require, ◌>>=◌, ◌>>◌,
}
use holon.Urn.{build}
use holon.Actions.Db.{
  Error, lookup_error, value_error, InstanceKey, EditKey, EditRow, same_instance, same_edit,
}
use holon.Actions.State.{
  Dict, Structural, Applied, Invocation, Status, failed, Approval, ActionType, Payload, compensated,
  reverted, Event, Db, transaction, enqueue, get_action_definition,
}
use holon.Actions.Edits.{Stamp, Edits, restore_each}
use holon.Actions.Structural.Revert.{revert_structural}
use holon.Actions.Apply.{object_type_and_instance_id}
use holon.Actions.Approval.{get_approval, is_approved, set_approval, is_set}

abbrev names_in : {V : Type 0} → Dict V → Text → Bool
names_in items name = any (λ e. text_eq e.0 name) items

-- DELETE … AND property_name = ANY($4)
unfoldable pub delete_properties : {V : Type 0} → InstanceKey → Dict V → Edits → Edits
delete_properties i items =
    delete_where same_edit (λ k. same_instance k.instance_key i && names_in items k.property_name)

-- ORDER BY id DESC LIMIT 1 over the rows in order of their ids
unfoldable pub latest_invocation : Text → Text → Text → Table ℕ Invocation → Option Invocation
latest_invocation tenant_id name urn [] = none
latest_invocation tenant_id name urn ((id, v) ∷ rows) =
    elim (latest_invocation tenant_id name urn rows) [
      | none ↦
          if text_eq v.tenant_id tenant_id
            && (text_eq v.action_name name && text_eq v.instance_urn urn)
          then some v
          else none
      | some later ↦ some later
    ]

abbrev no_edits : Applied
no_edits = record { properties = []; prior = []; structural = none }

-- `json.loads(invocation["edits"]) if invocation and invocation["edits"] else {}`
abbrev pub edits_of : Option Invocation → Applied
edits_of none = no_edits
edits_of (some v) = elim v.edits [ none ↦ no_edits | some applied ↦ applied ]

abbrev pub revert_kept : Text → Option Structural → Stamp → Db → Db
revert_kept tenant_id none by db = db
revert_kept tenant_id (some s) by db = revert_structural tenant_id s by db

abbrev pub workflow_engine : Text → Text
workflow_engine tenant_id =
    build tenant_id (codes "global") (codes "service-account") (codes "automation-workflow-engine")
      none

-- The transaction of `_compensate_declarative_action`, for the instance and the invocation's edits.
unfoldable pub compensate_writes : ℕ → Text → Text → Approval → InstanceKey → Applied → Db → Db
compensate_writes id workspace_id error a i applied db =
    let engine = workflow_engine a.tenant_id in
    let by : Stamp = record { action_urn = codes "compensate"; actor_urn = engine; at = db.now } in
    let deleted = record db {
      object_instance_edit = delete_properties i applied.properties db.object_instance_edit;
    } in
    let undone = revert_kept a.tenant_id applied.structural by deleted in
    let note = some (codes "compensated: " ++ error) in
    enqueue
      (record {
        tenant_id = a.tenant_id;
        workspace_id = workspace_id;
        aggregate_id = a.instance_urn;
        actor_urn = engine;
        payload = compensated a.action_name a.instance_urn id error;
      })
      (set_approval id (record a { status = failed; decision_note = note }) undone)

-- `compensate_from_workflow_engine`, with `_compensate_declarative_action`
unfoldable pub compensate_from_workflow_engine : ℕ → Text → Text → Exec Error Db (Unit {0})
unfolding compensate_writes
compensate_from_workflow_engine id workspace_id error db =
    (do
      a ← require (get_approval id db) (lookup_error "approval not found")
      _ ←
          raise_if (not (is_approved a.status))
            (value_error "approval is not approved — nothing to compensate")
      target ←
          require (object_type_and_instance_id a.instance_urn)
            (value_error "not enough values to unpack")
      let i : InstanceKey = record {
        tenant_id = a.tenant_id;
        object_type = target.0;
        instance_id = target.1;
      }
      let applied =
          edits_of (latest_invocation a.tenant_id a.action_name a.instance_urn db.action_invocation)
      modify (compensate_writes id workspace_id error a i applied))
      db

-- A later invocation of the same instance that wrote edits and stands
unfoldable pub has_later : Text → Text → ℕ → Table ℕ Invocation → Bool
has_later tenant_id urn id rows =
    any
      (λ r.
        text_eq r.1.tenant_id tenant_id
        && (text_eq r.1.instance_urn urn
            && ((elim r.1.edits [ none ↦ false | some e ↦ true ])
                && ((elim r.1.reverted_at [ none ↦ true | some at ↦ false ]) && ltb id r.0))))
      rows

abbrev pub writes_back : Option ActionType → Bool
writes_back none = false
writes_back (some definition) = is_set definition.writeback_dataset

-- SELECT * FROM action_invocation WHERE id = $1 AND tenant_id = $2
abbrev pub invocation_of : ℕ → Text → Db → Option Invocation
invocation_of id tenant_id db = elim (get ◌==◌ id db.action_invocation) [
  | none ↦ none
  | some v ↦ if text_eq v.tenant_id tenant_id then some v else none
]

-- The transaction of `revert_declarative_action`
unfoldable pub revert_writes : ℕ → Text → Text → Text → Invocation → InstanceKey → Applied → Db → Db
revert_writes id tenant_id workspace_id actor_urn v i applied db =
    let by : Stamp = record { action_urn = codes "revert"; actor_urn = actor_urn; at = db.now } in
    let restored = record db {
      object_instance_edit = restore_each i by applied.prior db.object_instance_edit;
    } in
    let undone = revert_kept tenant_id applied.structural by restored in
    let marked = record undone {
      action_invocation =
          update ◌==◌ id (record v { reverted_at = some db.now }) undone.action_invocation;
    } in
    enqueue
      (record {
        tenant_id = tenant_id;
        workspace_id = workspace_id;
        aggregate_id = v.instance_urn;
        actor_urn = actor_urn;
        payload = reverted v.action_name v.instance_urn id;
      })
      marked

unfoldable pub revert_declarative_action : ℕ → Text → Text → Text → Exec Error Db Applied
unfolding revert_writes
revert_declarative_action id tenant_id workspace_id actor_urn db =
    (do
      v ← require (invocation_of id tenant_id db) (lookup_error "action invocation not found")
      applied ← require v.edits (value_error "this invocation made no declarative edits")
      _ ←
          raise_if (elim v.reverted_at [ none ↦ false | some at ↦ true ])
            (value_error "invocation was already reverted")
      _ ←
          raise_if (not (text_eq v.actor_urn actor_urn))
            (value_error "only the user who applied this action can revert it")
      _ ←
          raise_if (writes_back (get_action_definition tenant_id v.action_name db.action_type))
            (value_error "this Action writes back to an external dataset")
      _ ←
          raise_if (has_later tenant_id v.instance_urn id db.action_invocation)
            (value_error "a later action has been applied")
      target ←
          require (object_type_and_instance_id v.instance_urn)
            (value_error "not enough values to unpack")
      let i : InstanceKey = record {
        tenant_id = tenant_id;
        object_type = target.0;
        instance_id = target.1;
      }
      _ ← modify (revert_writes id tenant_id workspace_id actor_urn v i applied)
      pure applied)
      db
