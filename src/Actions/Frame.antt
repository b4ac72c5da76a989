-- ===== src/Actions/Frame.antt =====
-- What the rules of an Action leave alone: the approvals, the invocations, the outbox, the clock
-- and the registry of Action Types.
use holon.Prelude.{arith, ◌≡◌, refl, ◌∙◌, Bool, Option, none, some, List, [], ◌∷◌}
use holon.Prelude.Text.{Text}
use holon.Prelude.Exec.{Outcome, returned, raised, Exec, pure, ◌>>=◌}
use holon.Actions.Json.{Value}
use holon.Actions.Db.{
  Error, Storage, foreign_key, join_dataset, object_backed, unsupported, Relation,
}
use holon.Actions.State.{
  Dict, Source, End, PrimaryKey, key_parameter, generate_uuid, key_literal, Edit, modify_property,
  link, create_object, delete_target, delete_other, Prior, foreign_key_prior, overlay_prior, Link,
  ObjectChange, created, deleted, Structural, Applied, ActionType, Db,
}
use holon.Actions.Edits.{Stamp, resolve_edits}
use holon.Actions.Structural.{Runtime, Request, resolve_end, load_relation, write_link, upsert_link}
use holon.Actions.Structural.Rules.{
  lift, found, described, with_relation, with_source, with_ends, with_link, with_object, storage_of,
  apply_link, new_id, insert_object, apply_create, bury, apply_delete_other, apply_structural_edits,
}
use holon.Actions.Structural.Revert.{
  revert_prior, revert_links, revert_object, revert_objects, revert_structural,
}
use holon.Actions.Apply.{
  Invoke, write_properties, apply_declarative_edits, write_action, request, kept,
}

pub record Frame (a b : Db) : Type 0 where
  pub approvals : b.action_approval ≡ a.action_approval
  pub invocations : b.action_invocation ≡ a.action_invocation
  pub next_id : b.next_invocation_id ≡ a.next_invocation_id
  pub outbox : b.event_outbox ≡ a.event_outbox
  pub clock : b.now ≡ a.now
  pub types : b.action_type ≡ a.action_type

pub Frame-refl : (a : Db) → Frame a a
Frame-refl a = record {
  approvals = refl;
  invocations = refl;
  next_id = refl;
  outbox = refl;
  clock = refl;
  types = refl;
}

pub Frame-trans : (a b c : Db) → Frame a b → Frame b c → Frame a c
Frame-trans a b c h g = record {
  approvals = g.approvals ∙ h.approvals;
  invocations = g.invocations ∙ h.invocations;
  next_id = g.next_id ∙ h.next_id;
  outbox = g.outbox ∙ h.outbox;
  clock = g.clock ∙ h.clock;
  types = g.types ∙ h.types;
}

abbrev pub Keeps : {A : Type 0} → Exec Error Db A → Type 0
Keeps m = (db : Db) → Frame db (m db).1

then-Frame :
    {A B : Type 0} (before : Db) (x : Outcome Error A × Db) (f : A → Exec Error Db B)
    → Frame before x.1
    → ((a : A) → Keeps (f a))
    → Frame before (((λ s. x) >>= f) before).1
then-Frame before (returned a, db) f h g = Frame-trans _ _ _ h (g a db)
then-Frame before (raised e, db) f h g = h

pub bind-Keeps :
    {A B : Type 0} (m : Exec Error Db A) (f : A → Exec Error Db B)
    → Keeps m
    → ((a : A) → Keeps (f a))
    → Keeps (m >>= f)
bind-Keeps m f h g db = then-Frame db (m db) f (h db) g

write_link-Keeps :
    (req : Request) (r : Relation) (unlink : Bool) (s t : Text) (kind : Storage)
    → Keeps (write_link req r unlink s t kind)
unfolding write_link upsert_link
write_link-Keeps req r unlink s t foreign_key db = ground arith
write_link-Keeps req r unlink s t join_dataset db = ground arith
write_link-Keeps req r unlink s t object_backed db = ground arith
write_link-Keeps req r unlink s t (unsupported u) db = Frame-refl db

module _ (run : Runtime) (req : Request) where
  apply_link-Keeps :
      (unlink : Bool) (relation_type : Text) (source target : End)
      → Keeps (apply_link run req unlink relation_type source target)
  unfolding apply_link
  apply_link-Keeps unlink relation_type source target db =
      bind-Keeps (lift (found (load_relation req.tenant_id relation_type db.relation_type)))
        (with_relation run req unlink relation_type source target) Frame-refl
        (λ r.
          bind-Keeps (lift (resolve_end run req source))
            (with_source run req unlink relation_type target r) Frame-refl
            (λ s.
              bind-Keeps (lift (resolve_end run req target))
                (with_ends run req unlink relation_type r s) Frame-refl
                (λ t.
                  bind-Keeps (write_link req r unlink s t (storage_of r))
                    (λ p. pure (described unlink relation_type s t r p))
                    (write_link-Keeps req r unlink s t (storage_of r)) (λ p. Frame-refl))))
        db

  insert_object-Keeps :
      (object_type : Text) (properties : List (Text × Source)) (id : Text)
      → Keeps (insert_object run req object_type properties id)
  unfolding insert_object
  insert_object-Keeps object_type properties id db = ground arith

  bury-Keeps : (object_type id : Text) → Keeps (bury run req object_type id)
  unfolding bury
  bury-Keeps object_type id db = ground arith

  new_id-Keeps : (key : PrimaryKey) → Keeps (new_id run req key)
  unfolding new_id
  new_id-Keeps (key_parameter name) db = Frame-refl db
  new_id-Keeps generate_uuid db = ground arith
  new_id-Keeps (key_literal v) db = Frame-refl db

  apply_create-Keeps :
      (t : Text) (key : PrimaryKey) (properties : List (Text × Source))
      → Keeps (apply_create run req t key properties)
  unfolding apply_create
  apply_create-Keeps t key properties =
      bind-Keeps (new_id run req key) (insert_object run req t properties) (new_id-Keeps key)
        (insert_object-Keeps t properties)

  apply_delete_other-Keeps :
      (t : Option Text) (name : Text) → Keeps (apply_delete_other run req t name)
  unfolding apply_delete_other
  apply_delete_other-Keeps t name = bind-Keeps (lift _) (bury run req _) Frame-refl (bury-Keeps _)

  -- One rule, then the others, whose payload is put behind its own.
  rule-Keeps :
      {A : Type 0} (m : Exec Error Db A) (rest : Exec Error Db Structural)
      (add : A → Structural → Structural)
      → Keeps m
      → Keeps rest
      → Keeps (m >>= λ a. (rest >>= λ s. pure (add a s)))
  rule-Keeps m rest add h g =
      bind-Keeps m (λ a. (rest >>= λ s. pure (add a s))) h
        (λ a. bind-Keeps rest (λ s. pure (add a s)) g (λ s. Frame-refl))

  pub apply_structural_edits-Keeps :
      (edits : List Edit) → Keeps (apply_structural_edits run req edits)
  unfolding apply_structural_edits
  apply_structural_edits-Keeps [] = Frame-refl
  apply_structural_edits-Keeps (modify_property name source ∷ edits) =
      apply_structural_edits-Keeps edits
  apply_structural_edits-Keeps (link unlink relation_type source target ∷ edits) =
      rule-Keeps (apply_link run req unlink relation_type source target)
        (apply_structural_edits run req edits) with_link
        (apply_link-Keeps unlink relation_type source target) (apply_structural_edits-Keeps edits)
  apply_structural_edits-Keeps (create_object t key properties ∷ edits) =
      rule-Keeps (apply_create run req t key properties) (apply_structural_edits run req edits)
        with_object (apply_create-Keeps t key properties) (apply_structural_edits-Keeps edits)
  apply_structural_edits-Keeps (delete_target ∷ edits) =
      rule-Keeps (bury run req req.target_object_type req.target_instance_id)
        (apply_structural_edits run req edits) with_object (bury-Keeps _ _)
        (apply_structural_edits-Keeps edits)
  apply_structural_edits-Keeps (delete_other t name ∷ edits) =
      rule-Keeps (apply_delete_other run req t name) (apply_structural_edits run req edits)
        with_object (apply_delete_other-Keeps t name) (apply_structural_edits-Keeps edits)

write_properties-Keeps : (v : Invoke) (resolved : Dict Value) → Keeps (write_properties v resolved)
unfolding write_properties
write_properties-Keeps v resolved db = ground arith

pub write_action-Keeps :
    (run : Runtime) (v : Invoke) (definition : ActionType) (output : Option (Dict Value))
    → Keeps (write_action run v definition output)
unfolding write_action apply_declarative_edits
write_action-Keeps run v definition (some output) = write_properties-Keeps v output
write_action-Keeps run v definition none =
    let add_structural : Applied → Exec Error Db Applied = λ applied.
      apply_structural_edits run (request v) definition.edits >>= λ s.
      pure (record applied { structural = kept s }) in
    bind-Keeps (write_properties v (resolve_edits v.reason v.parameters definition.edits))
      add_structural (write_properties-Keeps v _)
      (λ applied.
        bind-Keeps (apply_structural_edits run (request v) definition.edits)
          (λ s. pure (record applied { structural = kept s }))
          (apply_structural_edits-Keeps run (request v) definition.edits) (λ s. Frame-refl))

revert_prior-Frame : (by : Stamp) (p : Prior) (db : Db) → Frame db (revert_prior by p db)
unfolding revert_prior upsert_link
revert_prior-Frame by (foreign_key_prior k none) db = ground arith
revert_prior-Frame by (foreign_key_prior k (some v)) db = ground arith
revert_prior-Frame by (overlay_prior k none) db = ground arith
revert_prior-Frame by (overlay_prior k (some (op, mid))) db = ground arith

revert_links-Frame :
    (by : Stamp) (links : List Link) (db : Db) → Frame db (revert_links by links db)
unfolding revert_links
revert_links-Frame by [] db = Frame-refl db
revert_links-Frame by (l ∷ links) db =
    Frame-trans _ _ _ (revert_prior-Frame by l.prior db) (revert_links-Frame by links _)

revert_object-Frame :
    (tenant_id : Text) (o : ObjectChange) (db : Db) → Frame db (revert_object tenant_id o db)
unfolding revert_object
revert_object-Frame tenant_id (created t id fields) db = ground arith
revert_object-Frame tenant_id (deleted t id prior) db = ground arith

revert_objects-Frame :
    (tenant_id : Text) (objects : List ObjectChange) (db : Db)
    → Frame db (revert_objects tenant_id objects db)
unfolding revert_objects
revert_objects-Frame tenant_id [] db = Frame-refl db
revert_objects-Frame tenant_id (o ∷ objects) db =
    Frame-trans _ _ _ (revert_object-Frame tenant_id o db)
      (revert_objects-Frame tenant_id objects _)

pub revert_structural-Frame :
    (tenant_id : Text) (s : Structural) (by : Stamp) (db : Db)
    → Frame db (revert_structural tenant_id s by db)
unfolding revert_structural
revert_structural-Frame tenant_id s by db =
    Frame-trans _ _ _ (revert_links-Frame by _ db) (revert_objects-Frame tenant_id _ _)
