-- ===== src/Actions/Decisions/Rejections.antt =====
-- services/knowledge/app/actions: what `reject_action`, `sweep_expired_approvals` and
-- `compensate_from_workflow_engine` do to the approvals and to the outbox.
use holon.Prelude.{
  ap, arith, ℕ, ◌+◌, ◌≡◌, refl, true, Option, none, some, List, [], ◌∷◌, ◌++◌, ◌==◌, length,
  if◌then◌else◌, Bool-cases, Option-cases, inl, inr,
}
use holon.Prelude.Text.{Text, codes}
use holon.Prelude.Table.{Table, get, update}
use holon.Prelude.Exec.{Outcome, returned, raised, ◌>>=◌}
use holon.Actions.Db.{Error, InstanceKey}
use holon.Actions.State.{
  Status, pending, approved, rejected, expired, failed, Approval, Applied, Structural,
  action_rejected, compensated, Event, Db, transaction, close, enqueue,
}
use holon.Actions.Edits.{Stamp}
use holon.Actions.Apply.{object_type_and_instance_id}
use holon.Actions.Approval.{
  get_approval, is_approved, set_approval, decided, lock_pending, approval_event, reject_row,
  reject_action, sweep_rows, sweep_expired_approvals, overdue,
}
use holon.Actions.Undo.{
  compensate_writes, compensate_from_workflow_engine, delete_properties, latest_invocation,
  edits_of, revert_kept, workflow_engine,
}
use holon.Actions.Frame.{Frame, Frame-refl, revert_structural-Frame}
use holon.Actions.Decisions.{Decidable, Locked, lock_pending-Locked}

module _ (id : ℕ) (workspace_id decider : Text) (note : Option Text) where
  -- A rejection decides the row and enqueues one event, and writes nothing else.
  abbrev pub Rejected : Db → Outcome Error (Unit {0}) × Db → Type 0
  Rejected db (returned u, after) =
      (a : Approval) × Decidable id a db
      × (after
          ≡ enqueue
              (approval_event a workspace_id decider
                (action_rejected a.action_name a.instance_urn note))
              (set_approval id (decided rejected decider db.now note a) db))
  Rejected db (raised e, after) = after ≡ db

  reject_row-Rejected :
      (db : Db) (x : Outcome Error Approval × Db)
      → Locked id db x
      → Rejected db (close db (((λ s. x) >>= reject_row id workspace_id decider note) db))
  unfolding close reject_row
  reject_row-Rejected db (raised e, after) h = refl
  reject_row-Rejected db (returned a, after) h = rw h.1 (a, h.0, refl)

  -- `reject_action` either raises and changes nothing at all, or decides an approval that stood
  -- pending and had not expired: it is rejected and one event is enqueued, and nothing else is
  -- written, so no edit of the Action is.
  pub reject_action-Rejected :
      (db : Db) → Rejected db (reject_action id workspace_id decider note db)
  unfolding reject_action transaction
  reject_action-Rejected db =
      reject_row-Rejected db (lock_pending id db) (lock_pending-Locked id db)

-- The approval as the sweep at `now` leaves it.
abbrev pub expire : ℕ → Option Approval → Option Approval
expire now none = none
expire now (some a) = if overdue now a then some (record a { status = expired }) else some a

sweep_rows-get :
    (workspace_id : Text) (now id : ℕ) (rows : Table ℕ Approval)
    → get ◌==◌ id (sweep_rows workspace_id now rows).0 ≡ expire now (get ◌==◌ id rows)
unfolding sweep_rows get
sweep_rows-get workspace_id now id [] = refl
sweep_rows-get workspace_id now id ((j, a) ∷ rows) =
    ground (arith, sweep_rows-get workspace_id now id rows)

abbrev count_overdue : ℕ → Table ℕ Approval → ℕ
count_overdue now [] = 0
count_overdue now ((id, a) ∷ rows) = (if overdue now a then 1 else 0) + count_overdue now rows

sweep_rows-count :
    (workspace_id : Text) (now : ℕ) (rows : Table ℕ Approval)
    → length (sweep_rows workspace_id now rows).1 ≡ count_overdue now rows
unfolding sweep_rows
sweep_rows-count workspace_id now [] = refl
sweep_rows-count workspace_id now ((j, a) ∷ rows) =
    ground (arith, sweep_rows-count workspace_id now rows)

-- `sweep_expired_approvals` expires exactly the approvals that are pending and past their time,
-- leaves every other as it was, and returns their number, which is the number of events that it
-- adds to the outbox.
pub sweep_expired_approvals_lem :
    (workspace_id : Text) (db : Db)
    → let (n, after) = sweep_expired_approvals workspace_id db in
      ((id : ℕ) → get_approval id after ≡ expire db.now (get_approval id db))
      × (n ≡ count_overdue db.now db.action_approval)
      × ((events : List Event) × (after.event_outbox ≡ db.event_outbox ++ events)
          × (length events ≡ n))
unfolding sweep_expired_approvals get_approval
sweep_expired_approvals_lem workspace_id db = (
  λ id. sweep_rows-get workspace_id db.now id db.action_approval,
  sweep_rows-count workspace_id db.now db.action_approval,
  ((sweep_rows workspace_id db.now db.action_approval).1, refl, refl),
)

revert_kept-Frame :
    (tenant_id : Text) (s : Option Structural) (by : Stamp) (db : Db)
    → Frame db (revert_kept tenant_id s by db)
revert_kept-Frame tenant_id none by db = Frame-refl db
revert_kept-Frame tenant_id (some s) by db = revert_structural-Frame tenant_id s by db

approved_of : (s : Status) → is_approved s ≡ true → s ≡ approved
approved_of pending h = absurd (cc)
approved_of approved h = refl
approved_of rejected h = absurd (cc)
approved_of expired h = absurd (cc)
approved_of failed h = absurd (cc)

-- A compensation fails the approval, which was approved, and enqueues one event.
abbrev pub Compensated : ℕ → Text → Text → Db → Outcome Error (Unit {0}) × Db → Type 0
Compensated id workspace_id error db (returned u, after) =
    (a : Approval) × (get_approval id db ≡ some a)
    × (a.status ≡ approved)
    × (after.action_approval
        ≡ update ◌==◌ id
            (record a { status = failed; decision_note = some (codes "compensated: " ++ error) })
            db.action_approval)
    × (after.event_outbox
        ≡ db.event_outbox
          ++ approval_event a workspace_id (workflow_engine a.tenant_id)
              (compensated a.action_name a.instance_urn id error)
            ∷ [])
Compensated id workspace_id error db (raised e, after) = after ≡ db

compensate_writes-Compensated :
    (id : ℕ) (workspace_id error : Text) (a : Approval) (i : InstanceKey) (applied : Applied)
    (db : Db)
    → get_approval id db ≡ some a
    → a.status ≡ approved
    → Compensated id workspace_id error db
        (returned tt, compensate_writes id workspace_id error a i applied db)
unfolding compensate_writes enqueue set_approval
compensate_writes-Compensated id workspace_id error a i applied db e h =
    let by : Stamp = record {
      action_urn = codes "compensate";
      actor_urn = workflow_engine a.tenant_id;
      at = db.now;
    } in
    let deleted : Db = record db {
      object_instance_edit = delete_properties i applied.properties db.object_instance_edit;
    } in
    let f = revert_kept-Frame a.tenant_id applied.structural by deleted in
    let published =
      approval_event a workspace_id (workflow_engine a.tenant_id)
        (compensated a.action_name a.instance_urn id error) in
    let note = some (codes "compensated: " ++ error) in
    (
      a,
      e,
      h,
      ap (update ◌==◌ id (record a { status = failed; decision_note = note })) f.approvals,
      ap (λ events. events ++ published ∷ []) f.outbox,
    )

-- It either raises and changes nothing at all, or fails an approval that was approved, with the
-- error as its note, and enqueues one event.
pub compensate_from_workflow_engine-Compensated :
    (id : ℕ) (workspace_id error : Text) (db : Db)
    → Compensated id workspace_id error db
        (compensate_from_workflow_engine id workspace_id error db)
unfolding compensate_from_workflow_engine
compensate_from_workflow_engine-Compensated id workspace_id error db =
    elim (Option-cases (get_approval id db)) [
      | inl e ↦ rw e refl
      | inr (a, e) ↦ elim (Bool-cases (is_approved a.status)) [
        | inr no_more ↦ rw (e, no_more) refl
        | inl h ↦ elim (Option-cases (object_type_and_instance_id a.instance_urn)) [
          | inl e2 ↦ rw (e, h, e2) refl
          | inr (t, e2) ↦
              rw (e, h, e2)
                (compensate_writes-Compensated id workspace_id error a
                  (record { tenant_id = a.tenant_id; object_type = t.0; instance_id = t.1 })
                  (edits_of (
                    latest_invocation a.tenant_id a.action_name a.instance_urn
                      db.action_invocation))
                  db e (approved_of a.status h))
        ]
      ]
    ]
