-- ===== src/Actions/Structural/Rules.antt =====
-- action_structural.py: the four rules of `apply_structural_edits`.
use holon.Prelude.{ℕ, ◌+◌, Bool, ◌&&◌, Option, none, some, List, [], ◌∷◌, if◌then◌else◌}
use holon.Prelude.Text.{Text, text_eq, codes}
use holon.Prelude.Table.{Table, get, upsert, delete}
use holon.Prelude.Exec.{Outcome, returned, raised, Exec, pure, ◌>>=◌}
use holon.Actions.Json.{Value, text, Fields, empty, item, put}
use holon.Actions.Db.{
  Error, value_error, InstanceKey, same_instance, Storage, foreign_key, Relation, ObjectRow,
  Tombstone,
}
use holon.Actions.State.{
  Source, parameter, literal, End, PrimaryKey, key_parameter, generate_uuid, key_literal, Edit,
  modify_property, link, create_object, delete_target, delete_other, Prior, Link, ObjectChange,
  created, deleted, Structural, Db,
}
use holon.Actions.Edits.{get_or_null}
use holon.Actions.Structural.{
  Runtime, Request, str, required_text, resolve_end, load_relation, last_segment, write_link,
}

-- `relation.get("storage_kind") or "foreign_key"`
abbrev pub storage_of : Relation → Storage
storage_of r = elim r.storage_kind [ none ↦ foreign_key | some s ↦ s ]

abbrev pub described : Bool → Text → Text → Text → Relation → Prior → Link
described unlink relation_type source_id neighbor_id r prior = record {
  unlink = unlink;
  relation_type = relation_type;
  source_id = source_id;
  target_id = neighbor_id;
  source_object_type = last_segment r.source_object_type_urn;
  target_object_type = last_segment r.target_object_type_urn;
  prior = prior;
}

abbrev pub lift : {A : Type 0} → Outcome Error A → Exec Error Db A
lift r db = (r, db)

abbrev pub found : Option Relation → Outcome Error Relation
found none = raised (value_error "unknown RelationType")
found (some r) = returned r

abbrev instance_key : Request → Text → Text → InstanceKey
instance_key req object_type id = record {
  tenant_id = req.tenant_id;
  object_type = object_type;
  instance_id = id;
}

abbrev pub no_changes : Structural
no_changes = record { links = []; objects = [] }

abbrev pub with_link : Link → Structural → Structural
with_link l s = record s { links = l ∷ s.links }

abbrev pub with_object : ObjectChange → Structural → Structural
with_object o s = record s { objects = o ∷ s.objects }

module _ (run : Runtime) (req : Request) where
  -- A link rule, from both ends, from the source and from the relation on.
  abbrev pub with_ends : Bool → Text → Relation → Text → Text → Exec Error Db Link
  with_ends unlink relation_type relation source_id neighbor_id =
      write_link req relation unlink source_id neighbor_id (storage_of relation) >>= λ prior.
      pure (described unlink relation_type source_id neighbor_id relation prior)

  abbrev pub with_source : Bool → Text → End → Relation → Text → Exec Error Db Link
  with_source unlink relation_type target relation source_id =
      lift (resolve_end run req target) >>= with_ends unlink relation_type relation source_id

  abbrev pub with_relation : Bool → Text → End → End → Relation → Exec Error Db Link
  with_relation unlink relation_type source target relation =
      lift (resolve_end run req source) >>= with_source unlink relation_type target relation

  unfoldable pub apply_link : Bool → Text → End → End → Exec Error Db Link
  apply_link unlink relation_type source target db =
      (lift (found (load_relation req.tenant_id relation_type db.relation_type))
          >>= with_relation unlink relation_type source target)
        db

  -- The id of the object that `create_object` makes
  unfoldable pub new_id : PrimaryKey → Exec Error Db Text
  new_id generate_uuid db = (returned (run.uuid4 db.uuids), record db { uuids = db.uuids + 1 })
  new_id (key_literal v) db = (returned (str run v), db)
  new_id (key_parameter name) db = (
    required_text run (get_or_null name req.parameters)
        (value_error "create_object missing primary_key parameter"),
    db,
  )

  property_value : Source → Value
  property_value (parameter name) = get_or_null name req.parameters
  property_value (literal v) = v

  fill : List (Text × Source) → Fields → Fields
  unfolding property_value
  fill [] fields = fields
  fill ((name, source) ∷ properties) fields =
      fill properties (put name (property_value source) fields)

  -- INSERT … ON CONFLICT (object_type, tenant_id) DO NOTHING
  materialize : Text → Table (Text × Text) (Option ℕ) → Table (Text × Text) (Option ℕ)
  materialize object_type [] = ((object_type, req.tenant_id), none) ∷ []
  materialize object_type (((t, tenant), snapshot) ∷ rows) =
      if text_eq t object_type && text_eq tenant req.tenant_id
      then ((t, tenant), snapshot) ∷ rows
      else ((t, tenant), snapshot) ∷ materialize object_type rows

  unfoldable pub insert_object : Text → List (Text × Source) → Text → Exec Error Db ObjectChange
  unfolding fill materialize
  insert_object object_type properties id db =
      let k = instance_key req object_type id in
      let fields = fill properties (item (codes "id") (text id) empty) in
      let row : ObjectRow = record { data_ = fields; source_snapshot_id = none } in
      (
        returned (created object_type id fields),
        record db {
          object_instance_tombstone = delete same_instance k db.object_instance_tombstone;
          object_instance = upsert same_instance k row db.object_instance;
          object_type_materialization = materialize object_type db.object_type_materialization;
        },
      )

  unfoldable pub apply_create :
      Text → PrimaryKey → List (Text × Source) → Exec Error Db ObjectChange
  unfolding new_id insert_object
  apply_create object_type key properties =
      new_id key >>= λ id. insert_object object_type properties id

  -- `COALESCE(EXCLUDED.prior_data, object_instance_tombstone.prior_data)`
  coalesce : Option Fields → Option Tombstone → Option Fields
  coalesce (some fields) t = some fields
  coalesce none none = none
  coalesce none (some t) = t.prior_data

  unfoldable pub bury : Text → Text → Exec Error Db ObjectChange
  unfolding coalesce
  bury object_type id db =
      let k = instance_key req object_type id in
      let prior : Option Fields = elim (get same_instance k db.object_instance) [
        | none ↦ none
        | some row ↦ some row.data_
      ] in
      let row : Tombstone = record {
        prior_data = coalesce prior (get same_instance k db.object_instance_tombstone);
        set_by_action_urn = req.stamp.action_urn;
        set_by_urn = req.stamp.actor_urn;
        set_at = req.stamp.at;
      } in
      (
        returned (deleted object_type id prior),
        record db {
          object_instance_tombstone = upsert same_instance k row db.object_instance_tombstone;
        },
      )

  -- `edit.get("object_type") or target_object_type`
  abbrev type_of : Option Text → Text
  type_of none = req.target_object_type
  type_of (some []) = req.target_object_type
  type_of (some (c ∷ s)) = c ∷ s

  unfoldable pub apply_delete_other : Option Text → Text → Exec Error Db ObjectChange
  unfolding bury
  apply_delete_other object_type name =
      lift (
        required_text run (get_or_null name req.parameters)
          (value_error "delete_object missing parameter"))
      >>= λ id. bury (type_of object_type) id

  -- `apply_structural_edits`: the rules in order; the property edits are passed over.
  unfoldable pub apply_structural_edits : List Edit → Exec Error Db Structural
  unfolding bury
  apply_structural_edits [] = pure no_changes
  apply_structural_edits (modify_property name source ∷ edits) = apply_structural_edits edits
  apply_structural_edits (link unlink relation_type source target ∷ edits) = do
    l ← apply_link unlink relation_type source target
    rest ← apply_structural_edits edits
    pure (with_link l rest)
  apply_structural_edits (create_object object_type key properties ∷ edits) = do
    o ← apply_create object_type key properties
    rest ← apply_structural_edits edits
    pure (with_object o rest)
  apply_structural_edits (delete_target ∷ edits) = do
    o ← bury req.target_object_type req.target_instance_id
    rest ← apply_structural_edits edits
    pure (with_object o rest)
  apply_structural_edits (delete_other object_type name ∷ edits) = do
    o ← apply_delete_other object_type name
    rest ← apply_structural_edits edits
    pure (with_object o rest)
