-- ===== src/Actions/Approval.antt =====
-- services/knowledge/app/actions: `reject_action`, `sweep_expired_approvals` and `get_approval` of
-- approval.py, and `approve_action` of __init__.py.
use holon.Prelude.{
  ℕ, Bool, true, false, ◌&&◌, Option, none, some, List, [], ◌∷◌, ◌++◌, ◌==◌, ltb, length,
  if◌then◌else◌,
}
use holon.Prelude.Text.{Text, codes}
use holon.Prelude.Table.{Table, get, update}
use holon.Prelude.Exec.{Outcome, returned, Exec, pure, raise_if, modify, require, ◌>>=◌}
use holon.Urn.{build}
use holon.Actions.Json.{Value}
use holon.Actions.Db.{Error, lookup_error, value_error}
use holon.Actions.State.{
  Dict, Applied, Status, pending, approved, rejected, expired, failed, Approval, ActionType,
  Payload, invoked, action_rejected, approval_expired, Event, Db, transaction, enqueue,
  get_action_definition,
}
use holon.Actions.Structural.{Runtime}
use holon.Actions.Apply.{
  Invoke, object_type_and_instance_id, write_action, insert_invocation, function_edits, event,
}

-- `get_approval`
unfoldable pub get_approval : ℕ → Db → Option Approval
get_approval id db = get ◌==◌ id db.action_approval

abbrev pub is_pending : Status → Bool
is_pending pending = true
is_pending approved = false
is_pending rejected = false
is_pending expired = false
is_pending failed = false

abbrev pub is_approved : Status → Bool
is_approved pending = false
is_approved approved = true
is_approved rejected = false
is_approved expired = false
is_approved failed = false

-- UPDATE action_approval SET … WHERE id = $4
unfoldable pub set_approval : ℕ → Approval → Db → Db
set_approval id a db = record db { action_approval = update ◌==◌ id a db.action_approval }

abbrev pub decided : Status → Text → ℕ → Option Text → Approval → Approval
decided status urn at note a = record a {
  status = status;
  decided_by_urn = some urn;
  decided_at = some at;
  decision_note = note;
}

-- The row that may be decided now: SELECT … FOR UPDATE and the three checks.
unfoldable pub lock_pending : ℕ → Exec Error Db Approval
unfolding get_approval
lock_pending id db =
    (do
      a ← require (get_approval id db) (lookup_error "approval not found")
      _ ←
          raise_if (if is_pending a.status then false else true)
            (value_error "approval is already decided")
      _ ← raise_if (ltb a.expires_at db.now) (value_error "approval has expired")
      pure a)
      db

abbrev pub approval_event : Approval → Text → Text → Payload → Event
approval_event a workspace_id actor_urn payload = record {
  tenant_id = a.tenant_id;
  workspace_id = workspace_id;
  aggregate_id = a.instance_urn;
  actor_urn = actor_urn;
  payload = payload;
}

unfoldable pub reject_row : ℕ → Text → Text → Option Text → Approval → Exec Error Db (Unit {0})
unfolding set_approval
reject_row id workspace_id decider note a db =
    let event =
      approval_event a workspace_id decider (action_rejected a.action_name a.instance_urn note) in
    (returned tt, enqueue event (set_approval id (decided rejected decider db.now note a) db))

unfoldable pub reject_action : ℕ → Text → Text → Option Text → Exec Error Db (Unit {0})
unfolding reject_row
reject_action id workspace_id decider note =
    transaction (lock_pending id >>= reject_row id workspace_id decider note)

abbrev pub overdue : ℕ → Approval → Bool
overdue now a = is_pending a.status && ltb a.expires_at now

abbrev sweeper : Text → Text
sweeper tenant_id =
    build tenant_id (codes "global") (codes "service-account") (codes "knowledge-expiry-sweep") none

pub sweep_event : Text → ℕ → Approval → Event
sweep_event workspace_id id a =
    approval_event a workspace_id (sweeper a.tenant_id)
      (approval_expired a.action_name a.instance_urn id)

-- UPDATE … SET status = 'expired' WHERE … RETURNING …: the table, and the events of its rows
unfoldable pub sweep_rows : Text → ℕ → Table ℕ Approval → Table ℕ Approval × List Event
unfolding sweep_event
sweep_rows workspace_id now [] = ([], [])
sweep_rows workspace_id now ((id, a) ∷ rows) =
    let (swept, events) = sweep_rows workspace_id now rows in
    if overdue now a
    then ((id, record a { status = expired }) ∷ swept, sweep_event workspace_id id a ∷ events)
    else ((id, a) ∷ swept, events)

unfoldable pub sweep_expired_approvals : Text → Db → ℕ × Db
unfolding sweep_rows
sweep_expired_approvals workspace_id db =
    let (swept, events) = sweep_rows workspace_id db.now db.action_approval in
    (length events, record db { action_approval = swept; event_outbox = db.event_outbox ++ events })

abbrev pub is_set : Option Text → Bool
is_set none = false
is_set (some []) = false
is_set (some (c ∷ s)) = true

-- `writeback_edits`: the properties written, for an Action Type with a dataset to write back to
abbrev pub writeback_edits : ActionType → Applied → Option (Dict Value)
writeback_edits definition applied =
    if is_set definition.writeback_dataset then some applied.properties else none

abbrev pub invoke_of : Approval → Text → Text → ℕ → Text → Text → Invoke
invoke_of a workspace_id decider at object_type instance_id = record {
  tenant_id = a.tenant_id;
  workspace_id = workspace_id;
  action_name = a.action_name;
  instance_urn = a.instance_urn;
  object_type = object_type;
  instance_id = instance_id;
  actor_urn = decider;
  reason = a.reason;
  parameters = a.parameters;
  at = at;
}

-- The end of the transaction of `approve_action`: the decision, the invocation and the event.
unfoldable pub record_approval :
    ℕ → Option Text → ActionType → Approval → Invoke → Applied → Exec Error Db (ℕ × Applied)
unfolding set_approval
record_approval id note definition a v applied = do
  _ ← modify (set_approval id (decided approved v.actor_urn v.at note a))
  invocation_id ← insert_invocation v applied
  _ ← modify (
      enqueue (
        event v (
          invoked v.action_name v.instance_urn v.reason (some id)
            (writeback_edits definition applied))))
  pure (invocation_id, applied)

-- The transaction of `approve_action` from the locked row on.
unfoldable pub approve_row :
    Runtime
    → ℕ
    → Text
    → Text
    → Option Text
    → ActionType
    → Option (Dict Value)
    → Approval
    → Exec Error Db (ℕ × Applied)
approve_row run id workspace_id decider note definition output a db =
    (do
      target ←
          require (object_type_and_instance_id a.instance_urn)
            (value_error "not enough values to unpack")
      let v = invoke_of a workspace_id decider db.now target.0 target.1
      write_action run v definition output >>= record_approval id note definition a v)
      db

-- `approve_action`: the invocation's id and what it wrote
unfoldable pub approve_action :
    Runtime
    → Outcome Error (Dict Value)
    → ℕ
    → Text
    → Text
    → Option Text
    → Exec Error Db (ℕ × Applied)
unfolding get_approval approve_row
approve_action run output id workspace_id decider note db =
    (do
      preview ← require (get_approval id db) (lookup_error "approval not found")
      definition ←
          require (get_action_definition preview.tenant_id preview.action_name db.action_type)
            (lookup_error "unknown Action")
      edits ← (λ s. (function_edits definition output, s))
      transaction
          (lock_pending id >>= approve_row run id workspace_id decider note definition edits))
      db
