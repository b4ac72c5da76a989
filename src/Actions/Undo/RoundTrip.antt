-- ===== src/Actions/Undo/RoundTrip.antt =====
-- services/knowledge/app/actions: applying an Action and reverting it at once.
use mathlib.Core.Path.{subst}
use holon.Prelude.{
  ap, arith, ℕ, ◌≡◌, refl, ◌∙◌, sym, Option, none, some, List, [], ◌∷◌, ◌++◌, ◌==◌, ==_iff,
}
use holon.Prelude.Text.{Text, text_eq_iff}
use holon.Prelude.Table.{Table, get}
use holon.Prelude.Exec.{Outcome, returned, raised, Exec, pure, ◌>>=◌}
use holon.Actions.Json.{Value}
use holon.Actions.Db.{Error, InstanceKey, EditKey}
use holon.Actions.State.{
  Dict, Edit, modify_property, link, create_object, delete_target, delete_other, Applied,
  Invocation, ActionType, Structural, Db, transaction, close, enqueue,
}
use holon.Actions.Edits.{Stamp, Edits, view, restore_each, resolve_edits}
use holon.Actions.Edits.Restore.{restore_each-write_instance_edits}
use holon.Actions.Structural.{Runtime, Request}
use holon.Actions.Structural.Rules.{apply_structural_edits, no_changes}
use holon.Actions.Apply.{
  Invoke, instance_of, action_stamp, request, kept, write_properties, apply_declarative_edits,
  write_action, record_invocation, insert_invocation, apply_in_transaction, invocation,
  object_type_and_instance_id,
}
use holon.Actions.Frame.{Frame, write_action-Keeps}
use holon.Actions.Undo.{invocation_of, revert_writes, revert_kept, revert_declarative_action}
use holon.Actions.Undo.Reverts.{by_revert, Reverted, target_key, revert_declarative_action-Reverted}

-- No rule is structural.
abbrev pub AllProperties : List Edit → Type 0
AllProperties [] = Unit
AllProperties (modify_property name source ∷ edits) = AllProperties edits
AllProperties (link unlink relation source target ∷ edits) = ⊥
AllProperties (create_object t key properties ∷ edits) = ⊥
AllProperties (delete_target ∷ edits) = ⊥
AllProperties (delete_other t name ∷ edits) = ⊥

no_structural :
    (run : Runtime) (req : Request) (edits : List Edit) (db : Db)
    → AllProperties edits
    → apply_structural_edits run req edits db ≡ (returned no_changes, db)
unfolding apply_structural_edits
no_structural run req [] db h = refl
no_structural run req (modify_property name source ∷ edits) db h = no_structural run req edits db h
no_structural run req (link unlink relation source target ∷ edits) db h = absurd h
no_structural run req (create_object t key properties ∷ edits) db h = absurd h
no_structural run req (delete_target ∷ edits) db h = absurd h
no_structural run req (delete_other t name ∷ edits) db h = absurd h

-- What was written can be put back from the prior values alone.
abbrev Restorable : Invoke → Db → Applied → Edits → Type 0
Restorable v db applied edits =
    (applied.structural ≡ none)
    × ((by : Stamp) (k : EditKey)
        → view k (restore_each (instance_of v) by applied.prior edits)
          ≡ view k db.object_instance_edit)

abbrev Written : Invoke → Db → Outcome Error Applied × Db → Type 0
Written v db (returned applied, after) = Restorable v db applied after.object_instance_edit
Written v db (raised e, after) = Unit

-- The edits come from the function, or none of the declared ones is structural.
abbrev pub OnlyProperties : ActionType → Option (Dict Value) → Type 0
OnlyProperties definition (some output) = Unit
OnlyProperties definition none = AllProperties definition.edits

write_properties-Written :
    (v : Invoke) (resolved : Dict Value) (db : Db) → Written v db (write_properties v resolved db)
unfolding write_properties
write_properties-Written v resolved db = (
  refl,
  λ by k.
      restore_each-write_instance_edits (instance_of v) resolved (action_stamp v) by none
        db.object_instance_edit k,
)

no_changes-Written :
    (v : Invoke) (db : Db) (x : Outcome Error Applied × Db) (structural : Exec Error Db Structural)
    → ((after : Db) → structural after ≡ (returned no_changes, after))
    → Written v db x
    → Written v db (
        ((λ s. x) >>= λ applied. structural >>= λ s. pure (record applied { structural = kept s }))
          db)
no_changes-Written v db (raised e, after) structural none_of h = tt
no_changes-Written v db (returned applied, after) structural none_of h =
    let P : Outcome Error Structural × Db → Type 0 =
      λ y. Written v db (((λ s. y) >>= λ s. pure (record applied { structural = kept s })) after) in
    subst P (sym (none_of after)) (refl, h.1)

write_action-Written :
    (run : Runtime) (v : Invoke) (definition : ActionType) (output : Option (Dict Value)) (db : Db)
    → OnlyProperties definition output
    → Written v db (write_action run v definition output db)
unfolding write_action apply_declarative_edits
write_action-Written run v definition (some output) db h = write_properties-Written v output db
write_action-Written run v definition none db h =
    let resolved = resolve_edits v.reason v.parameters definition.edits in
    no_changes-Written v db (write_properties v resolved db)
      (apply_structural_edits run (request v) definition.edits)
      (λ after. no_structural run (request v) definition.edits after h)
      (write_properties-Written v resolved db)

-- What `_apply_now` leaves behind.
abbrev Left : Invoke → Db → Outcome Error (ℕ × Applied) × Db → Type 0
Left v db (returned (n, applied), after) =
    Restorable v db applied after.object_instance_edit
    × (n ≡ db.next_invocation_id)
    × (after.action_invocation ≡ db.action_invocation ++ (n, invocation v applied) ∷ [])
Left v db (raised e, after) = Unit

recorded-Left :
    (v : Invoke) (db : Db) (x : Outcome Error Applied × Db)
    → Frame db x.1
    → Written v db x
    → Left v db (close db (((λ s. x) >>= record_invocation v) db))
unfolding close record_invocation insert_invocation enqueue
recorded-Left v db (raised e, after) f h = tt
recorded-Left v db (returned applied, after) f h = (
  h,
  f.next_id,
  ap (λ rows. rows ++ (after.next_invocation_id, invocation v applied) ∷ []) f.invocations,
)

get-last :
    (n : ℕ) (v : Invocation) (rows : Table ℕ Invocation)
    → get ◌==◌ n rows ≡ none
    → get ◌==◌ n (rows ++ (n, v) ∷ []) ≡ some v
unfolding get
get-last n v [] h = ground (arith, ==_iff n n)
get-last n v ((m, w) ∷ rows) h = ground (arith, h, get-last n v rows)

without_structural :
    (tenant_id : Text) (s : Option Structural) (by : Stamp) (db : Db)
    → s ≡ none
    → (revert_kept tenant_id s by db).object_instance_edit ≡ db.object_instance_edit
without_structural tenant_id none by db e = refl
without_structural tenant_id (some s) by db e = absurd (cc)

revert_writes-edits :
    (id : ℕ) (tenant_id w actor : Text) (v : Invocation) (i : InstanceKey) (applied : Applied)
    (db : Db)
    → applied.structural ≡ none
    → (revert_writes id tenant_id w actor v i applied db).object_instance_edit
      ≡ restore_each i
          (by_revert id tenant_id w actor v i applied db)
          applied.prior
          db.object_instance_edit
unfolding revert_writes enqueue
revert_writes-edits id tenant_id w actor v i applied db e =
    without_structural tenant_id applied.structural _ _ e

found-last :
    (tenant_id : Text) (n : ℕ) (v : Invocation) (db after : Db)
    → v.tenant_id ≡ tenant_id
    → get ◌==◌ n db.action_invocation ≡ none
    → after.action_invocation ≡ db.action_invocation ++ (n, v) ∷ []
    → invocation_of n tenant_id after ≡ some v
found-last tenant_id n v db after same fresh e =
    let g = ap (get ◌==◌ n) e ∙ get-last n v db.action_invocation fresh in
    ground (arith, g, same, text_eq_iff v.tenant_id tenant_id)

restored-view :
    (v : Invoke) (db after last : Db) (applied again : Applied) (n : ℕ) (w actor : Text)
    (found : Invocation) (t : Text × Text) (k : EditKey)
    → Restorable v db applied after.object_instance_edit
    → invocation_of n v.tenant_id after ≡ some (invocation v applied)
    → invocation_of n v.tenant_id after ≡ some found
    → found.edits ≡ some again
    → object_type_and_instance_id v.instance_urn ≡ some (v.object_type, v.instance_id)
    → object_type_and_instance_id found.instance_urn ≡ some t
    → last
      ≡ revert_writes n v.tenant_id w actor found (target_key n v.tenant_id w actor t) again after
    → view k last.object_instance_edit ≡ view k db.object_instance_edit
restored-view v db after last applied again n w actor found t k back here stands wrote parsed where_
      e =
    let same : found ≡ invocation v applied = ground (arith, here, stands) in
    let q : t ≡ (v.object_type, v.instance_id) = ground (arith, where_, parsed, same) in
    let i = target_key n v.tenant_id w actor t in
    let by : Stamp = by_revert n v.tenant_id w actor found i again after in
    let p : again ≡ applied = ground (arith, same, wrote) in
    let plain : again.structural ≡ none = ground (arith, p, back.0) in
    let edits = after.object_instance_edit in
    ap (λ d. view k d.object_instance_edit) e
    ∙ (ap (view k) (revert_writes-edits n v.tenant_id w actor found i again after plain)
        ∙ ((λ j.
              view k (restore_each (target_key n v.tenant_id w actor (q j)) by (p j).prior edits))
            ∙ back.1 by k))

-- A caller who applies an Action that edits properties only, and then reverts the invocation, finds
-- every property overlay of every instance with the value it had before. The instance's URN names
-- the instance, and the new id is not taken.
pub revert_declarative_action-apply :
    (run : Runtime) (v : Invoke) (definition : ActionType) (output : Option (Dict Value))
    (workspace_id actor_urn : Text) (db after last : Db) (n : ℕ) (applied again : Applied)
    → OnlyProperties definition output
    → object_type_and_instance_id v.instance_urn ≡ some (v.object_type, v.instance_id)
    → get ◌==◌ db.next_invocation_id db.action_invocation ≡ none
    → apply_in_transaction run v definition output db ≡ (returned (n, applied), after)
    → revert_declarative_action n v.tenant_id workspace_id actor_urn after ≡ (returned again, last)
    → (k : EditKey) → view k last.object_instance_edit ≡ view k db.object_instance_edit
unfolding apply_in_transaction transaction
revert_declarative_action-apply run v definition output w actor db after last n applied again only
      parsed fresh e e' k =
    let (back, numbered, rows) : Left v db (returned (n, applied), after) = rw e at (
      recorded-Left v db (write_action run v definition output db)
        (write_action-Keeps run v definition output db)
        (write_action-Written run v definition output db only)) in
    let (found, t, ok, where_, written, writes) : Reverted n v.tenant_id w actor after
        (returned again, last) =
      rw e' at (revert_declarative_action-Reverted n v.tenant_id w actor after) in
    let here =
      found-last v.tenant_id n (invocation v applied) db after refl (rw numbered fresh) rows in
    restored-view v db after last applied again n w actor found t k back here ok.stands ok.wrote
      parsed where_ written
