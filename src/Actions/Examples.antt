-- ===== src/Actions/Examples.antt =====
-- A tenant with two Action Types, an approval and a relation, and what the Actions do with them.
use holon.Prelude.{ℕ, ◌≡◌, refl, true, false, none, some, List, [], ◌∷◌}
use holon.Prelude.Text.{Text, codes}
use holon.Prelude.Table.{Table, get}
use holon.Prelude.Exec.{Outcome, returned, raised}
use holon.Actions.Json.{Value, null, text, empty, find}
use holon.Actions.Criteria.{
  Python, Criteria, end, also, any, principal, property, operate, evaluate_criteria,
}
use holon.Actions.Criteria.Formula.{
  Decides, satisfies, satisfies_all, AllKnown, evaluate_criteria_lem,
}
use holon.Actions.Db.{
  same_edit, same_instance, Error, value_error, InstanceKey, EditKey, EditRow, Relation,
}
use holon.Actions.State.{
  approved, literal, target_instance, end_literal, Edit, modify_property, link, pending, rejected,
  Approval, ActionType, Applied, Structural, Db, transaction, enqueue, get_action_definition,
}
use holon.Actions.Edits.{Stamp, view, restore_each, write_instance_edits, resolve_edits}
use holon.Actions.Edits.Restore.{restore_each-write_instance_edits}
use holon.Actions.Structural.{
  Runtime, Request, load_relation, write_link, resolve_end, last_segment,
}
use holon.Actions.Structural.Rules.{apply_structural_edits, no_changes, apply_link}
use holon.Actions.Structural.Revert.{revert_structural}
use holon.Actions.Structural.Views.{Same}
use holon.Actions.Structural.RoundTrip.{revert_structural-apply_structural_edits}
use holon.Actions.Apply.{
  Invoke, request, apply_in_transaction, write_action, apply_declarative_edits, write_properties,
  record_invocation, insert_invocation, object_type_and_instance_id,
}
use holon.Actions.Approval.{get_approval, approve_action, reject_action}
use holon.Actions.Undo.{has_later, compensate_from_workflow_engine, revert_declarative_action}
use holon.Actions.Undo.Reverts.{Reverted, revert_declarative_action-Reverted}
use holon.Actions.Undo.RoundTrip.{revert_declarative_action-apply}
use holon.Actions.Decisions.{OutcomeOf, approve_action-Outcome}
use holon.Actions.Decisions.Rejections.{
  Rejected, reject_action-Rejected, Compensated, compensate_from_workflow_engine-Compensated,
}
use holon.Actions.Decisions.Lifecycle.{
  Operation, approve_op, sweep_op, wait_op, Moves, status_at, run_one, run_each, run_one-Moves,
  run_each-final,
}

abbrev run : Runtime
run = record { repr = λ v. codes "1"; uuid4 = λ n. codes "u" }

abbrev acme : Text
acme = codes "acme"

abbrev alice : Text
alice = codes "alice"

abbrev order : InstanceKey
order = record { tenant_id = acme; object_type = codes "Order"; instance_id = codes "7" }

abbrev order_urn : Text
order_urn = codes "hl:acme:w1:object:Order/7"

abbrev status_key : EditKey
status_key = record { instance_key = order; property_name = codes "status" }

abbrev owner : Relation
owner = record {
  tenant_id = acme;
  name = codes "owner";
  urn = codes "hl:acme:w1:relation:owner";
  storage_kind = none;
  source_object_type_urn = codes "hl:acme:w1:object-type:Order";
  target_object_type_urn = codes "hl:acme:w1:object-type:Customer";
  source_property = codes "owner_id";
}

abbrev cancel_edits : List Edit
cancel_edits = modify_property (codes "status") (literal (text (codes "cancelled"))) ∷ []

abbrev link_edits : List Edit
link_edits = link false (codes "owner") target_instance (end_literal (text (codes "c1"))) ∷ []

abbrev cancel : ActionType
cancel = record {
  tenant_id = acme;
  name = codes "cancel";
  edits = cancel_edits;
  edit_function = none;
  writeback_dataset = none;
}

abbrev waiting : Approval
waiting = record {
  tenant_id = acme;
  action_name = codes "cancel";
  instance_urn = order_urn;
  reason = codes "late";
  parameters = [];
  status = pending;
  expires_at = 100;
  decided_by_urn = none;
  decided_at = none;
  decision_note = none;
}

abbrev turned_down : Approval
turned_down = record waiting { status = rejected }

abbrev overdue_one : Approval
overdue_one = record waiting { expires_at = 5 }

abbrev opened : EditRow
opened = record {
  property_value = text (codes "open");
  set_by_action_urn = codes "a";
  set_by_urn = alice;
  set_at = 1;
}

abbrev db : Db
db = record {
  object_instance_edit = (status_key, opened) ∷ [];
  relation_link_overlay = [];
  relation_type = owner ∷ [];
  object_instance = [];
  object_instance_tombstone = [];
  object_type_materialization = [];
  action_type = cancel ∷ [];
  action_approval = (1, waiting) ∷ (2, turned_down) ∷ (3, overdue_one) ∷ [];
  action_invocation = [];
  next_invocation_id = 1;
  event_outbox = [];
  uuids = 0;
  now = 10;
}

abbrev invoke : Invoke
invoke = record {
  tenant_id = acme;
  workspace_id = codes "w1";
  action_name = codes "cancel";
  instance_urn = order_urn;
  object_type = codes "Order";
  instance_id = codes "7";
  actor_urn = alice;
  reason = codes "late";
  parameters = [];
  at = 10;
}

abbrev no_output : Outcome Error (Table Text Value)
no_output = raised (value_error "no function")

abbrev the_end : List Operation
the_end = approve_op no_output 2 (codes "w1") alice none ∷ wait_op 500 ∷ sweep_op (codes "w1") ∷ []

run_one-Moves_example :
    Moves
      (status_at 1 db)
      (status_at 1 (run_one run (approve_op no_output 1 (codes "w1") alice none) db))
run_one-Moves_example = run_one-Moves run (approve_op no_output 1 (codes "w1") alice none) 1 db

run_each-final_example : get_approval 2 (run_each run the_end db) ≡ get_approval 2 db
unfolding get_approval get
run_each-final_example = run_each-final run the_end 2 db _ tt refl

approve_action-Outcome_example :
    OutcomeOf run 1
      (codes "w1")
      alice
      none
      no_output
      db
      (approve_action run no_output 1 (codes "w1") alice none db)
approve_action-Outcome_example = approve_action-Outcome run 1 (codes "w1") alice none no_output db

reject_action-Rejected_example :
    Rejected 1 (codes "w1") alice none db (reject_action 1 (codes "w1") alice none db)
reject_action-Rejected_example = reject_action-Rejected 1 (codes "w1") alice none db

abbrev did : Outcome Error (ℕ × Applied) × Db
did = apply_in_transaction run invoke cancel none db

-- The approval of an Action that was applied
abbrev granted : Db
granted = record did.1 { action_approval = (1, record waiting { status = approved }) ∷ [] }

compensates :
    (compensate_from_workflow_engine 1 (codes "w1") (codes "down") granted).0 ≡ returned tt
unfolding compensate_from_workflow_engine get_approval get object_type_and_instance_id last_segment
compensates = refl

compensate_from_workflow_engine-Compensated_example :
    Compensated 1
      (codes "w1")
      (codes "down")
      granted
      (compensate_from_workflow_engine 1 (codes "w1") (codes "down") granted)
compensate_from_workflow_engine-Compensated_example =
    compensate_from_workflow_engine-Compensated 1 (codes "w1") (codes "down") granted

restore_each-write_instance_edits_example :
    let by : Stamp = record { action_urn = codes "x"; actor_urn = alice; at = 11 } in
    let (result, priors, after) =
      write_instance_edits order
        ((codes "status", null) ∷ (codes "a.b", null) ∷ [])
        by
        none
        db.object_instance_edit in
    view status_key (restore_each order by priors after) ≡ view status_key db.object_instance_edit
restore_each-write_instance_edits_example =
    let by : Stamp = record { action_urn = codes "x"; actor_urn = alice; at = 11 } in
    restore_each-write_instance_edits order ((codes "status", null) ∷ (codes "a.b", null) ∷ []) by
      by none db.object_instance_edit status_key

abbrev req : Request
req = request invoke

-- The state after the link rule, and after the Action.
abbrev linked : Outcome Error Structural × Db
linked = apply_structural_edits run req link_edits db

abbrev structural_of : Outcome Error Structural → Structural
structural_of (returned s) = s
structural_of (raised e) = no_changes

revert_structural-apply_structural_edits_example :
    Same (revert_structural acme (structural_of linked.0) req.stamp linked.1) db
unfolding apply_structural_edits apply_link load_relation write_link resolve_end
revert_structural-apply_structural_edits_example =
    revert_structural-apply_structural_edits run req req.stamp link_edits db linked.1
      (structural_of linked.0) tt refl

abbrev applied_of : Outcome Error (ℕ × Applied) → Applied
applied_of (returned (n, applied)) = applied
applied_of (raised e) = record { properties = []; prior = []; structural = none }

abbrev undid : Outcome Error Applied × Db
undid = revert_declarative_action 1 acme (codes "w1") alice did.1

revert_declarative_action-apply_example :
    view status_key undid.1.object_instance_edit ≡ some (text (codes "open"))
unfolding get apply_in_transaction transaction write_action apply_declarative_edits write_properties
    write_instance_edits resolve_edits apply_structural_edits record_invocation insert_invocation
    revert_declarative_action object_type_and_instance_id last_segment has_later
    get_action_definition enqueue same_edit same_instance
revert_declarative_action-apply_example =
    revert_declarative_action-apply run invoke cancel none (codes "w1") alice db did.1 undid.1 1
      (applied_of did.0) (applied_of did.0) tt refl refl refl refl status_key

-- The run that succeeds
reverts : undid.0 ≡ returned (applied_of did.0)
unfolding get apply_in_transaction transaction write_action apply_declarative_edits write_properties
    write_instance_edits resolve_edits apply_structural_edits record_invocation insert_invocation
    revert_declarative_action object_type_and_instance_id last_segment has_later
    get_action_definition enqueue same_edit same_instance
reverts = refl

revert_declarative_action-Reverted_example : Reverted 1 acme (codes "w1") alice did.1 undid
revert_declarative_action-Reverted_example =
    revert_declarative_action-Reverted 1 acme (codes "w1") alice did.1

abbrev python : Python
python = record {
  truthy = λ v. true;
  equal = λ a b. true;
  ordered = λ order a b. none;
  contained = λ a b. none;
}

abbrev criteria : Criteria
criteria =
    also
      (any none (
        also (property none (codes "n") "gt" null)
          (also (principal none (codes "urn") "eq" null) end)))
      (also (property none (codes "n") "eq" null) end)

evaluate_criteria_lem_example :
    Decides
      (satisfies_all python none empty criteria)
      (evaluate_criteria python none empty criteria)
unfolding operate find satisfies AllKnown
evaluate_criteria_lem_example =
    evaluate_criteria_lem python none empty criteria ((refl, (tt, tt)), (refl, tt))
