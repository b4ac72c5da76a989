-- ===== src/Actions/State.antt =====
-- The declarations and records of the Actions (action_structural.py, declarative_edits.py,
-- approval.py, __init__.py), the database as a whole, and its transactions.
use holon.Prelude.{ℕ, Bool, ◌&&◌, Option, none, some, List, [], ◌∷◌, ◌++◌, if◌then◌else◌}
use holon.Prelude.Text.{Text, text_eq}
use holon.Prelude.Table.{Table}
unfoldable pub use holon.Prelude.Exec.{close, transaction}
use holon.Actions.Json.{Value, Fields}
use holon.Actions.Db.{
  InstanceKey, EditKey, EditRow, LinkKey, LinkRow, Op, Relation, ObjectRow, Tombstone,
}

pub data Source : Type 0 where
  parameter : Text → Source
  literal : Value → Source

pub data End : Type 0 where
  target_instance : End
  end_parameter : Text → End
  end_literal : Value → End

pub data PrimaryKey : Type 0 where
  key_parameter : Text → PrimaryKey
  generate_uuid : PrimaryKey
  key_literal : Value → PrimaryKey

-- An edit of an Action Type that `validate_edit_declaration` accepts, its defaults filled in. Of
-- `link`, the flag is `kind == "delete_link"`, then the relation type, the source and the target.
-- Of `delete_other`, the object type is the declared one, if there is one.
pub data Edit : Type 0 where
  modify_property : Text → Source → Edit
  link : Bool → Text → End → End → Edit
  create_object : Text → PrimaryKey → List (Text × Source) → Edit
  delete_target : Edit
  delete_other : Option Text → Text → Edit

-- The `prior` of a link: what stood there, if anything did.
pub data Prior : Type 0 where
  foreign_key_prior : EditKey → Option Value → Prior
  overlay_prior : LinkKey → Option (Op × Option Text) → Prior

pub record Link : Type 0 where
  pub unlink : Bool
  pub relation_type : Text
  pub source_id : Text
  pub target_id : Text
  pub source_object_type : Text
  pub target_object_type : Text
  pub prior : Prior

pub data ObjectChange : Type 0 where
  created : Text → Text → Fields → ObjectChange
  deleted : Text → Text → Option Fields → ObjectChange

-- The `__structural__` payload
pub record Structural : Type 0 where
  pub links : List Link
  pub objects : List ObjectChange

-- A dict from property names
abbrev pub Dict : Type 0 → Type 0
Dict V = Table Text V

-- What an invocation wrote, and the values before it, where `none` did not exist. The reserved key
-- `__structural__` of either dict is a field of its own.
pub record Applied : Type 0 where
  pub properties : Dict Value
  pub prior : Dict (Option Value)
  pub structural : Option Structural

pub record Invocation : Type 0 where
  pub tenant_id : Text
  pub action_name : Text
  pub instance_urn : Text
  pub actor_urn : Text
  pub reason : Text
  pub edits : Option Applied
  pub reverted_at : Option ℕ

pub data Status : Type 0 where
  pending approved rejected expired failed : Status

pub record Approval : Type 0 where
  pub tenant_id : Text
  pub action_name : Text
  pub instance_urn : Text
  pub reason : Text
  pub parameters : Dict Value
  pub status : Status
  pub expires_at : ℕ
  pub decided_by_urn : Option Text
  pub decided_at : Option ℕ
  pub decision_note : Option Text

-- What the apply paths read of `action_type`, under its tenant and name.
pub record ActionType : Type 0 where
  pub tenant_id : Text
  pub name : Text
  pub edits : List Edit
  pub edit_function : Option Text
  pub writeback_dataset : Option Text

pub data Payload : Type 0 where
  invoked : Text → Text → Text → Option ℕ → Option (Dict Value) → Payload
  action_rejected : Text → Text → Option Text → Payload
  approval_expired : Text → Text → ℕ → Payload
  compensated : Text → Text → ℕ → Text → Payload
  reverted : Text → Text → ℕ → Payload

-- What `_event` puts into the envelope that is not the same for all, without its uuid.
pub record Event : Type 0 where
  pub tenant_id : Text
  pub workspace_id : Text
  pub aggregate_id : Text
  pub actor_urn : Text
  pub payload : Payload

-- The tables, the outbox and the clock. `uuids` counts the calls of `uuid4`.
pub record Db : Type 0 where
  pub object_instance_edit : Table EditKey EditRow
  pub relation_link_overlay : Table LinkKey LinkRow
  pub relation_type : List Relation
  pub object_instance : Table InstanceKey ObjectRow
  pub object_instance_tombstone : Table InstanceKey Tombstone
  pub object_type_materialization : Table (Text × Text) (Option ℕ)
  pub action_type : List ActionType
  pub action_approval : Table ℕ Approval
  pub action_invocation : Table ℕ Invocation
  pub next_invocation_id : ℕ
  pub event_outbox : List Event
  pub uuids : ℕ
  pub now : ℕ

-- `outbox.enqueue`
unfoldable pub enqueue : Event → Db → Db
enqueue e db = record db { event_outbox = db.event_outbox ++ e ∷ [] }

-- `_get_action_definition`
unfoldable pub get_action_definition : Text → Text → List ActionType → Option ActionType
get_action_definition tenant_id name [] = none
get_action_definition tenant_id name (a ∷ types) =
    if text_eq a.tenant_id tenant_id && text_eq a.name name
    then some a
    else get_action_definition tenant_id name types
