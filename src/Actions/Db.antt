-- ===== src/Actions/Db.antt =====
-- The tables of services/knowledge that the Actions read and write, and the rows in them. Statuses
-- and kinds are constructors; a time is a natural number; `json.dumps` and `json.loads` between a
-- JSONB column and its value are left out.
use holon.Prelude.{ℕ, ◌≡◌, ◌↔◌, Bool, true, ◌&&◌, Option, String, arith}
use holon.Prelude.Text.{Text, text_eq, text_eq_iff}
use holon.Actions.Json.{Value, Fields}

-- What the code raises, by class and by the constant part of the text.
pub data Error : Type 0 where
  lookup_error value_error : String → Error

pub record InstanceKey : Type 0 where
  pub tenant_id : Text
  pub object_type : Text
  pub instance_id : Text

unfoldable pub same_instance : InstanceKey → InstanceKey → Bool
same_instance j k =
    text_eq j.tenant_id k.tenant_id
    && (text_eq j.object_type k.object_type && text_eq j.instance_id k.instance_id)

pub same_instance_iff : (j k : InstanceKey) → (same_instance j k ≡ true) ↔ (j ≡ k)
unfolding same_instance
same_instance_iff j k = ground (
  arith,
  text_eq_iff j.tenant_id k.tenant_id,
  text_eq_iff j.object_type k.object_type,
  text_eq_iff j.instance_id k.instance_id,
)

-- The primary key of `object_instance_edit`
pub record EditKey : Type 0 where
  pub instance_key : InstanceKey
  pub property_name : Text

unfoldable pub same_edit : EditKey → EditKey → Bool
same_edit j k =
    same_instance j.instance_key k.instance_key && text_eq j.property_name k.property_name

pub same_edit_iff : (j k : EditKey) → (same_edit j k ≡ true) ↔ (j ≡ k)
unfolding same_edit
same_edit_iff j k = ground (
  arith,
  same_instance_iff j.instance_key k.instance_key,
  text_eq_iff j.property_name k.property_name,
)

pub record EditRow : Type 0 where
  pub property_value : Value
  pub set_by_action_urn : Text
  pub set_by_urn : Text
  pub set_at : ℕ

-- The primary key of `relation_link_overlay`
pub record LinkKey : Type 0 where
  pub tenant_id : Text
  pub relation_urn : Text
  pub source_id : Text
  pub target_id : Text

unfoldable pub same_link : LinkKey → LinkKey → Bool
same_link j k =
    text_eq j.tenant_id k.tenant_id
    && (text_eq j.relation_urn k.relation_urn
        && (text_eq j.source_id k.source_id && text_eq j.target_id k.target_id))

pub same_link_iff : (j k : LinkKey) → (same_link j k ≡ true) ↔ (j ≡ k)
unfolding same_link
same_link_iff j k = ground (
  arith,
  text_eq_iff j.tenant_id k.tenant_id,
  text_eq_iff j.relation_urn k.relation_urn,
  text_eq_iff j.source_id k.source_id,
  text_eq_iff j.target_id k.target_id,
)

pub data Op : Type 0 where
  op_add op_delete : Op

pub record LinkRow : Type 0 where
  pub op : Op
  pub mid_id : Option Text
  pub set_by_urn : Text
  pub set_at : ℕ

pub data Storage : Type 0 where
  foreign_key join_dataset object_backed : Storage
  unsupported : Text → Storage

-- A row of `relation_type`, under its tenant and name.
pub record Relation : Type 0 where
  pub tenant_id : Text
  pub name : Text
  pub urn : Text
  pub storage_kind : Option Storage
  pub source_object_type_urn : Text
  pub target_object_type_urn : Text
  pub source_property : Text

-- A row of `object_instance`; a `source_snapshot_id` of −1 is `none`.
pub record ObjectRow : Type 0 where
  pub data_ : Fields
  pub source_snapshot_id : Option ℕ

pub record Tombstone : Type 0 where
  pub prior_data : Option Fields
  pub set_by_action_urn : Text
  pub set_by_urn : Text
  pub set_at : ℕ
