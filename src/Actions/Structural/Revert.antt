-- ===== src/Actions/Structural/Revert.antt =====
-- action_structural.py: `revert_structural`.
use holon.Prelude.{none, some, List, [], ◌∷◌, ◌++◌, if◌then◌else◌}
use holon.Prelude.Text.{Text}
use holon.Prelude.Table.{Table, upsert, delete, delete_where}
use holon.Actions.Db.{InstanceKey, same_instance, same_edit, same_link, ObjectRow}
use holon.Actions.State.{
  Prior, foreign_key_prior, overlay_prior, Link, ObjectChange, created, deleted, Structural, Db,
}
use holon.Actions.Edits.{Stamp, stamped}
use holon.Actions.Structural.{upsert_link}

-- `reversed`
unfoldable pub reversed {ℓ} : {A : Type ℓ} → List A → List A
reversed [] = []
reversed (x ∷ xs) = reversed xs ++ x ∷ []

unfoldable pub revert_prior : Stamp → Prior → Db → Db
revert_prior by (foreign_key_prior k none) db = record db {
  object_instance_edit = delete same_edit k db.object_instance_edit;
}
revert_prior by (foreign_key_prior k (some v)) db = record db {
  object_instance_edit = upsert same_edit k (stamped by v) db.object_instance_edit;
}
revert_prior by (overlay_prior k none) db = record db {
  relation_link_overlay = delete same_link k db.relation_link_overlay;
}
revert_prior by (overlay_prior k (some (op, mid))) db = upsert_link k op mid by db

unfoldable pub revert_links : Stamp → List Link → Db → Db
unfolding revert_prior
revert_links by [] db = db
revert_links by (l ∷ links) db = revert_links by links (revert_prior by l.prior db)

-- DELETE FROM object_instance … AND source_snapshot_id = -1
delete_overlay : InstanceKey → Table InstanceKey ObjectRow → Table InstanceKey ObjectRow
delete_overlay k [] = []
delete_overlay k ((j, row) ∷ rows) =
    let rest = delete_overlay k rows in
    elim row.source_snapshot_id [
      | none ↦ if same_instance j k then rest else (j, row) ∷ rest
      | some snapshot ↦ (j, row) ∷ rest
    ]

abbrev object_key : Text → Text → Text → InstanceKey
object_key tenant_id object_type id = record {
  tenant_id = tenant_id;
  object_type = object_type;
  instance_id = id;
}

unfoldable pub revert_object : Text → ObjectChange → Db → Db
unfolding delete_overlay
revert_object tenant_id (created object_type id fields) db =
    let k = object_key tenant_id object_type id in
    record db {
      object_instance = delete_overlay k db.object_instance;
      object_instance_edit =
          delete_where same_edit (λ e. same_instance e.instance_key k) db.object_instance_edit;
    }
revert_object tenant_id (deleted object_type id prior) db =
    let k = object_key tenant_id object_type id in
    record db { object_instance_tombstone = delete same_instance k db.object_instance_tombstone }

unfoldable pub revert_objects : Text → List ObjectChange → Db → Db
unfolding revert_object
revert_objects tenant_id [] db = db
revert_objects tenant_id (o ∷ objects) db =
    revert_objects tenant_id objects (revert_object tenant_id o db)

unfoldable pub revert_structural : Text → Structural → Stamp → Db → Db
revert_structural tenant_id s by db =
    revert_objects tenant_id (reversed s.objects) (revert_links by (reversed s.links) db)
