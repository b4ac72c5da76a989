-- ===== src/Actions/Apply.antt =====
-- services/knowledge/app/actions: `_object_type_and_instance_id_from_instance_urn` of
-- declarative_criteria.py, `_apply_declarative_edits` of declarative_edits.py, and `_apply_now` of
-- __init__.py up to the end of its transaction.
use holon.Prelude.{
  ℕ, ◌+◌, Bool, true, false, ◌&&◌, Option, none, some, List, [], ◌∷◌, ◌++◌, ◌==◌, if◌then◌else◌,
}
use holon.Prelude.Text.{Text, codes}
use holon.Prelude.Exec.{Outcome, returned, raised, Exec, pure, modify, require, ◌>>=◌}
use holon.Urn.{build}
use holon.Actions.Json.{Value}
use holon.Actions.Db.{Error, lookup_error, InstanceKey}
use holon.Actions.State.{
  Dict, Edit, Structural, Applied, Invocation, ActionType, Payload, invoked, Event, Db, transaction,
  enqueue, get_action_definition,
}
use holon.Actions.Edits.{Stamp, write_instance_edits, resolve_edits}
use holon.Actions.Structural.{Runtime, Request, last_segment}
use holon.Actions.Structural.Rules.{apply_structural_edits}

abbrev slash : ℕ
slash = 47

-- `local.split("/", 1)`, where `none` has no slash
split_slash : Text → Option (Text × Text)
split_slash [] = none
split_slash (c ∷ s) =
    let rest = split_slash s in
    if c == slash then some ([], s) else elim rest [ none ↦ none | some (a, b) ↦ some (c ∷ a, b) ]

-- Without a slash, unpacking one part into two names is a ValueError.
unfoldable pub object_type_and_instance_id : Text → Option (Text × Text)
unfolding split_slash
object_type_and_instance_id instance_urn = split_slash (last_segment instance_urn)

abbrev is_empty {ℓ} : {A : Type ℓ} → List A → Bool
is_empty [] = true
is_empty (x ∷ xs) = false

-- The payload is kept if it has a link or an object.
abbrev pub kept : Structural → Option Structural
kept s = if is_empty s.links && is_empty s.objects then none else some s

-- An Action as it is applied: what `_apply_now` and `approve_action` pass on.
pub record Invoke : Type 0 where
  pub tenant_id : Text
  pub workspace_id : Text
  pub action_name : Text
  pub instance_urn : Text
  pub object_type : Text
  pub instance_id : Text
  pub actor_urn : Text
  pub reason : Text
  pub parameters : Dict Value
  pub at : ℕ

abbrev pub instance_of : Invoke → InstanceKey
instance_of v = record {
  tenant_id = v.tenant_id;
  object_type = v.object_type;
  instance_id = v.instance_id;
}

abbrev pub action_stamp : Invoke → Stamp
action_stamp v = record {
  action_urn = build v.tenant_id (codes "global") (codes "action-type") v.action_name none;
  actor_urn = v.actor_urn;
  at = v.at;
}

abbrev pub request : Invoke → Request
request v = record {
  tenant_id = v.tenant_id;
  target_object_type = v.object_type;
  target_instance_id = v.instance_id;
  parameters = v.parameters;
  stamp = action_stamp v;
}

-- The writes of resolved property edits
unfoldable pub write_properties : Invoke → Dict Value → Exec Error Db Applied
write_properties v resolved db =
    let (properties, prior, edits) =
      write_instance_edits (instance_of v) resolved (action_stamp v) none db.object_instance_edit in
    (
      returned (record { properties = properties; prior = prior; structural = none }),
      record db { object_instance_edit = edits },
    )

unfoldable pub apply_declarative_edits : Runtime → Invoke → List Edit → Exec Error Db Applied
apply_declarative_edits run v edits = do
  applied ← write_properties v (resolve_edits v.reason v.parameters edits)
  structural ← apply_structural_edits run (request v) edits
  pure (record applied { structural = kept structural })

-- The edits of a function-backed Action Type are the function's output, those of another its own.
unfoldable pub write_action :
    Runtime → Invoke → ActionType → Option (Dict Value) → Exec Error Db Applied
write_action run v definition (some output) = write_properties v output
write_action run v definition none = apply_declarative_edits run v definition.edits

abbrev pub invocation : Invoke → Applied → Invocation
invocation v applied = record {
  tenant_id = v.tenant_id;
  action_name = v.action_name;
  instance_urn = v.instance_urn;
  actor_urn = v.actor_urn;
  reason = v.reason;
  edits = some applied;
  reverted_at = none;
}

-- INSERT INTO action_invocation … RETURNING id
unfoldable pub insert_invocation : Invoke → Applied → Exec Error Db ℕ
insert_invocation v applied db = (
  returned db.next_invocation_id,
  record db {
    action_invocation = db.action_invocation ++ (db.next_invocation_id, invocation v applied) ∷ [];
    next_invocation_id = db.next_invocation_id + 1;
  },
)

abbrev pub event : Invoke → Payload → Event
event v payload = record {
  tenant_id = v.tenant_id;
  workspace_id = v.workspace_id;
  aggregate_id = v.instance_urn;
  actor_urn = v.actor_urn;
  payload = payload;
}

-- `if definition["_declarative"].get("edit_function")`, and its output, which is an argument: the
-- plugin's result for this invocation, checked, or what it raised.
pub function_edits : ActionType → Outcome Error (Dict Value) → Outcome Error (Option (Dict Value))
function_edits definition output = elim definition.edit_function [
  | none ↦ returned none
  | some name ↦ elim name [
    | [] ↦ returned none
    | c ∷ s ↦ elim output [ returned o ↦ returned (some o) | raised e ↦ raised e ]
  ]
]

abbrev pub now_invoked : Invoke → Event
now_invoked v = event v (invoked v.action_name v.instance_urn v.reason none none)

-- The end of the transaction of `_apply_now`: the invocation and the event.
unfoldable pub record_invocation : Invoke → Applied → Exec Error Db (ℕ × Applied)
record_invocation v applied = do
  id ← insert_invocation v applied
  _ ← modify (enqueue (now_invoked v))
  pure (id, applied)

-- The transaction of `_apply_now`
unfoldable pub apply_in_transaction :
    Runtime → Invoke → ActionType → Option (Dict Value) → Exec Error Db (ℕ × Applied)
apply_in_transaction run v definition output =
    transaction (write_action run v definition output >>= record_invocation v)

-- `_apply_now`: the invocation's id and what it wrote
unfoldable pub apply_now :
    Runtime → Outcome Error (Dict Value) → Invoke → Exec Error Db (ℕ × Applied)
apply_now run output v db =
    (do
      definition ←
          require (get_action_definition v.tenant_id v.action_name db.action_type)
            (lookup_error "unknown Action")
      edits ← (λ s. (function_edits definition output, s))
      apply_in_transaction run (record v { at = db.now }) definition edits)
      db
