-- ===== src/Actions/Structural/Views.antt =====
-- action_structural.py: the overlays by value, and what the revert of one link makes of them.
use holon.Prelude.{
  ◌≡◌, refl, sym, ◌∙◌, Option, none, some, List, [], ◌∷◌, ◌++◌, arith, if◌then◌else◌,
}
use holon.Prelude.Text.{Text}
use holon.Prelude.Table.{get, upsert, delete, get-upsert, get-delete}
use holon.Actions.Json.{Value}
use holon.Actions.Db.{
  EditKey, LinkKey, same_edit, same_edit_iff, same_link, same_link_iff, Op, LinkRow,
}
use holon.Actions.State.{Prior, foreign_key_prior, overlay_prior, Link, Db}
use holon.Actions.Edits.{Stamp, Edits, view, stamped}
use holon.Actions.Edits.Writes.{view-upsert}
use holon.Actions.Structural.{link_view, overlay_of, upsert_link}
use holon.Actions.Structural.Revert.{revert_prior, revert_links}

-- The two databases have the same property overlays and the same link overlays, by value.
pub record Same (a b : Db) : Type 0 where
  pub edits : (k : EditKey) → view k a.object_instance_edit ≡ view k b.object_instance_edit
  pub links : (k : LinkKey) → link_view k a ≡ link_view k b

pub Same-sym : (a b : Db) → Same a b → Same b a
Same-sym a b h = record { edits = λ k. sym (h.edits k); links = λ k. sym (h.links k) }

pub Same-trans : (a b c : Db) → Same a b → Same b c → Same a c
Same-trans a b c h g = record {
  edits = λ k. h.edits k ∙ g.edits k;
  links = λ k. h.links k ∙ g.links k;
}

pub view-delete :
    (k j : EditKey) (edits : Edits)
    → view j (delete same_edit k edits) ≡ (if same_edit k j then none else view j edits)
view-delete k j edits =
    ground
      (arith, get-delete same_edit same_edit_iff k j edits, same_edit_iff k j, same_edit_iff j k)

link_view-upsert :
    (k j : LinkKey) (row : LinkRow) (db : Db)
    → overlay_of (get same_link j (upsert same_link k row db.relation_link_overlay))
      ≡ (if same_link k j then some (row.op, row.mid_id) else link_view j db)
link_view-upsert k j row db =
    ground (arith, get-upsert same_link same_link_iff k j row db.relation_link_overlay)

link_view-delete :
    (k j : LinkKey) (db : Db)
    → overlay_of (get same_link j (delete same_link k db.relation_link_overlay))
      ≡ (if same_link k j then none else link_view j db)
link_view-delete k j db = ground (
  arith,
  get-delete same_link same_link_iff k j db.relation_link_overlay,
  same_link_iff k j,
  same_link_iff j k,
)

-- What the revert of one link makes of the two views.
pub revert_prior-Same :
    (by : Stamp) (p : Prior) (a b : Db)
    → Same a b
    → Same (revert_prior by p a) (revert_prior by p b)
unfolding revert_prior upsert_link
revert_prior-Same by (foreign_key_prior k none) a b h = record {
  edits = λ j. ground (
    arith,
    view-delete k j a.object_instance_edit,
    view-delete k j b.object_instance_edit,
    h.edits j,
  );
  links = h.links;
}
revert_prior-Same by (foreign_key_prior k (some v)) a b h = record {
  edits = λ j. ground (
    arith,
    view-upsert k j by v a.object_instance_edit,
    view-upsert k j by v b.object_instance_edit,
    h.edits j,
  );
  links = h.links;
}
revert_prior-Same by (overlay_prior k none) a b h = record {
  edits = h.edits;
  links = λ j. ground (arith, link_view-delete k j a, link_view-delete k j b, h.links j);
}
revert_prior-Same by (overlay_prior k (some (op, mid))) a b h =
    let row : LinkRow = record {
      op = op;
      mid_id = mid;
      set_by_urn = by.actor_urn;
      set_at = by.at;
    } in
    record {
      edits = h.edits;
      links =
          λ j. ground (arith, link_view-upsert k j row a, link_view-upsert k j row b, h.links j);
    }

pub revert_links-Same :
    (by : Stamp) (links : List Link) (a b : Db)
    → Same a b
    → Same (revert_links by links a) (revert_links by links b)
unfolding revert_links
revert_links-Same by [] a b h = h
revert_links-Same by (l ∷ links) a b h =
    revert_links-Same by links _ _ (revert_prior-Same by l.prior a b h)

pub revert_links-append :
    (by : Stamp) (links more : List Link) (a : Db)
    → revert_links by (links ++ more) a ≡ revert_links by more (revert_links by links a)
unfolding revert_links
revert_links-append by [] more a = refl
revert_links-append by (l ∷ links) more a =
    revert_links-append by links more (revert_prior by l.prior a)

pub revert-foreign_key :
    (again by : Stamp) (k : EditKey) (v : Value) (db : Db) (was : Option Value)
    → view k db.object_instance_edit ≡ was
    → let after = record db {
      object_instance_edit = upsert same_edit k (stamped by v) db.object_instance_edit;
    } in
      Same (revert_prior again (foreign_key_prior k was) after) db
unfolding revert_prior
revert-foreign_key again by k v db none e =
    let edits = upsert same_edit k (stamped by v) db.object_instance_edit in
    record {
      edits = λ j. ground (
        arith,
        e,
        view-delete k j edits,
        view-upsert k j by v db.object_instance_edit,
        same_edit_iff k j,
      );
      links = λ j. refl;
    }
revert-foreign_key again by k v db (some w) e =
    let edits = upsert same_edit k (stamped by v) db.object_instance_edit in
    record {
      edits = λ j. ground (
        arith,
        e,
        view-upsert k j again w edits,
        view-upsert k j by v db.object_instance_edit,
        same_edit_iff k j,
      );
      links = λ j. refl;
    }

pub revert-overlay :
    (again by : Stamp) (k : LinkKey) (op : Op) (mid : Option Text) (db : Db)
    (was : Option (Op × Option Text))
    → link_view k db ≡ was
    → Same (revert_prior again (overlay_prior k was) (upsert_link k op mid by db)) db
unfolding revert_prior upsert_link
revert-overlay again by k op mid db none e =
    let row : LinkRow = record {
      op = op;
      mid_id = mid;
      set_by_urn = by.actor_urn;
      set_at = by.at;
    } in
    let after : Db = record db {
      relation_link_overlay = upsert same_link k row db.relation_link_overlay;
    } in
    record {
      edits = λ j. refl;
      links = λ j.
          ground
            (arith, e, link_view-delete k j after, link_view-upsert k j row db, same_link_iff k j);
    }
revert-overlay again by k op mid db (some (old, old_mid)) e =
    let row : LinkRow = record {
      op = op;
      mid_id = mid;
      set_by_urn = by.actor_urn;
      set_at = by.at;
    } in
    let back : LinkRow = record {
      op = old;
      mid_id = old_mid;
      set_by_urn = again.actor_urn;
      set_at = again.at;
    } in
    let after : Db = record db {
      relation_link_overlay = upsert same_link k row db.relation_link_overlay;
    } in
    record {
      edits = λ j. refl;
      links = λ j. ground (
        arith,
        e,
        link_view-upsert k j back after,
        link_view-upsert k j row db,
        same_link_iff k j,
      );
    }
