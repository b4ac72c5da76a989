-- ===== src/Actions/Structural.antt =====
-- services/knowledge/app/action_structural.py: `_resolve_end`, `_load_relation`,
-- `apply_structural_edits` and `revert_structural`; link_overlays.py: `upsert_link`.
pub mod Rules
pub mod Revert
pub mod Views
pub mod RoundTrip
use holon.Prelude.{
  ℕ, ◌+◌, Bool, true, false, ◌&&◌, Option, none, some, String, List, [], ◌∷◌, ◌++◌, any, ◌==◌,
  if◌then◌else◌,
}
use holon.Prelude.Text.{Text, text_eq, codes}
use holon.Prelude.Table.{Table, get, upsert, delete, delete_where}
use holon.Prelude.Exec.{Outcome, returned, raised, Exec, pure, raise, ◌>>=◌, ◌>>◌}
use holon.Actions.Json.{Value, null, text, scalar, object, Fields, empty, item, put}
use holon.Actions.Db.{
  Error, value_error, InstanceKey, same_instance, EditKey, same_edit, EditRow, LinkKey, same_link,
  LinkRow, Op, op_add, op_delete, Storage, foreign_key, join_dataset, object_backed, unsupported,
  Relation, ObjectRow, Tombstone,
}
use holon.Actions.Db
use holon.Actions.State.{
  Dict, Source, parameter, literal, End, target_instance, end_parameter, end_literal, PrimaryKey,
  key_parameter, generate_uuid, key_literal, Edit, modify_property, link, create_object,
  delete_target, delete_other, Prior, foreign_key_prior, overlay_prior, Link, ObjectChange, created,
  deleted, Structural, Db,
}
use holon.Actions.Edits.{Stamp, edit_key, view, stamped, get_or_null}

abbrev colon : ℕ
colon = 58

-- `urn.rsplit(":", 1)[-1]`
unfoldable pub last_segment : Text → Text
last_segment [] = []
last_segment (c ∷ s) =
    let rest = last_segment s in
    if any (λ d. d == colon) s then rest else if c == colon then s else c ∷ s

-- The arguments that every rule has: the target instance, the parameters, and who writes and when.
pub record Request : Type 0 where
  pub tenant_id : Text
  pub target_object_type : Text
  pub target_instance_id : Text
  pub parameters : Dict Value
  pub stamp : Stamp

-- The runtime: `str` of a value that is no text, and the results of `uuid4`.
pub record Runtime : Type 0 where
  pub repr : Value → Text
  pub uuid4 : ℕ → Text

abbrev pub str : Runtime → Value → Text
str run null = run.repr null
str run (text t) = t
str run (scalar t) = run.repr (scalar t)
str run (object fields) = run.repr (object fields)

-- A parameter that must not be None, as a text
pub required_text : Runtime → Value → Error → Outcome Error Text
required_text run null e = raised e
required_text run (text t) e = returned t
required_text run (scalar t) e = returned (str run (scalar t))
required_text run (object fields) e = returned (str run (object fields))

unfoldable pub resolve_end : Runtime → Request → End → Outcome Error Text
unfolding required_text
resolve_end run req target_instance = returned req.target_instance_id
resolve_end run req (end_parameter name) =
    required_text run (get_or_null name req.parameters) (value_error "missing parameter")
resolve_end run req (end_literal v) = returned (str run v)

unfoldable pub load_relation : Text → Text → List Relation → Option Relation
load_relation tenant_id name [] = none
load_relation tenant_id name (r ∷ relations) =
    if text_eq r.tenant_id tenant_id && text_eq r.name name
    then some r
    else load_relation tenant_id name relations

-- What an overlay row says, if there is one.
abbrev pub overlay_of : Option LinkRow → Option (Op × Option Text)
overlay_of none = none
overlay_of (some row) = some (row.op, row.mid_id)

abbrev pub link_view : LinkKey → Db → Option (Op × Option Text)
link_view k db = overlay_of (get same_link k db.relation_link_overlay)

-- `link_overlays.upsert_link`
unfoldable pub upsert_link : LinkKey → Op → Option Text → Stamp → Db → Db
upsert_link k op mid by db =
    let row : LinkRow = record {
      op = op;
      mid_id = mid;
      set_by_urn = by.actor_urn;
      set_at = by.at;
    } in
    record db { relation_link_overlay = upsert same_link k row db.relation_link_overlay }

abbrev pub source_edit_key : Request → Relation → Text → EditKey
source_edit_key req relation source_id =
    edit_key
      (record {
        tenant_id = req.tenant_id;
        object_type = last_segment relation.source_object_type_urn;
        instance_id = source_id;
      })
      relation.source_property

abbrev pub link_key : Request → Relation → Text → Text → LinkKey
link_key req relation source_id neighbor_id = record {
  tenant_id = req.tenant_id;
  relation_urn = relation.urn;
  source_id = source_id;
  target_id = neighbor_id;
}

abbrev pub mid_of : Storage → Text → Text → Option Text
mid_of object_backed source_id neighbor_id =
    some (codes "overlay:" ++ (source_id ++ colon ∷ neighbor_id))
mid_of foreign_key source_id neighbor_id = none
mid_of join_dataset source_id neighbor_id = none
mid_of (unsupported s) source_id neighbor_id = none

pub overlay_link : Request → Relation → Bool → Text → Text → Option Text → Db → Prior × Db
unfolding upsert_link
overlay_link req relation unlink source_id neighbor_id mid db =
    let k = link_key req relation source_id neighbor_id in
    (
      overlay_prior k (link_view k db),
      upsert_link k (if unlink then op_delete else op_add) mid req.stamp db,
    )

-- The branches on the storage of a relation: what stood there, and the write.
unfoldable pub write_link : Request → Relation → Bool → Text → Text → Storage → Exec Error Db Prior
unfolding overlay_link
write_link req relation unlink source_id neighbor_id foreign_key db =
    let k = source_edit_key req relation source_id in
    let v : Value = if unlink then null else text neighbor_id in
    (
      returned (foreign_key_prior k (view k db.object_instance_edit)),
      record db {
        object_instance_edit = upsert same_edit k (stamped req.stamp v) db.object_instance_edit;
      },
    )
write_link req relation unlink source_id neighbor_id join_dataset db =
    let (prior, after) = overlay_link req relation unlink source_id neighbor_id none db in
    (returned prior, after)
write_link req relation unlink source_id neighbor_id object_backed db =
    let mid = mid_of object_backed source_id neighbor_id in
    let (prior, after) = overlay_link req relation unlink source_id neighbor_id mid db in
    (returned prior, after)
write_link req relation unlink source_id neighbor_id (unsupported s) db =
    (raised (value_error "link rules do not support storage"), db)
