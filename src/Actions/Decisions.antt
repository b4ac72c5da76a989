-- ===== src/Actions/Decisions.antt =====
-- services/knowledge/app/actions: what a decision on an approval requires, writes and publishes.
pub mod Rejections
pub mod Lifecycle
use mathlib.Core.Path.{subst}
use holon.Prelude.{
  ap, arith, ℕ, ◌≤◌, ◌≡◌, refl, ◌∙◌, sym, Bool, true, false, not, Option, none, some, String, List,
  [], ◌∷◌, ◌++◌, ◌==◌, ltb, if◌then◌else◌, Bool-cases, Option-cases, inl, inr,
}
use holon.Prelude.Text.{Text, codes}
use holon.Prelude.Table.{Table, get, update}
use holon.Prelude.Exec.{require, Outcome, returned, raised, Exec, pure, Outcome-cases, ◌>>=◌}
use holon.Actions.Json.{Value}
use holon.Actions.Db.{Error, lookup_error, value_error}
use holon.Actions.State.{
  Dict, Applied, Status, pending, approved, rejected, expired, failed, Approval, ActionType,
  Payload, invoked, action_rejected, Event, Db, transaction, close, enqueue, get_action_definition,
  Invocation,
}
use holon.Actions.Structural.{Runtime}
use holon.Actions.Apply.{
  Invoke, object_type_and_instance_id, write_action, insert_invocation, function_edits, event,
  invocation,
}
use holon.Actions.Approval.{
  get_approval, is_pending, set_approval, decided, lock_pending, approval_event, reject_row,
  reject_action, record_approval, approve_row, approve_action, writeback_edits, invoke_of,
}
use holon.Actions.Frame.{Frame, Keeps, write_action-Keeps}

-- The approval stands in the table and may be decided now.
pub record Decidable (id : ℕ) (a : Approval) (db : Db) : Type 0 where
  pub stands : get_approval id db ≡ some a
  pub waits : a.status ≡ pending
  pub in_time : db.now ≤ a.expires_at

pub pending_of : (s : Status) → is_pending s ≡ true → s ≡ pending
pending_of pending h = refl
pending_of approved h = absurd (cc)
pending_of rejected h = absurd (cc)
pending_of expired h = absurd (cc)
pending_of failed h = absurd (cc)

-- The lock returns a row that may be decided, or raises, and writes nothing.
abbrev pub Locked : ℕ → Db → Outcome Error Approval × Db → Type 0
Locked id db (returned a, after) = Decidable id a db × (after ≡ db)
Locked id db (raised e, after) = after ≡ db

pub lock_pending-Locked : (id : ℕ) (db : Db) → Locked id db (lock_pending id db)
unfolding lock_pending
lock_pending-Locked id db = elim (Option-cases (get_approval id db)) [
  | inl e ↦ rw e refl
  | inr (a, e) ↦ elim (Bool-cases (is_pending a.status)) [
    | inr done ↦ rw (e, done) refl
    | inl waits ↦ elim (Bool-cases (ltb a.expires_at db.now)) [
      | inl late ↦ rw (e, waits, late) refl
      | inr in_time ↦
          rw (e, waits, in_time)
            (
              record {
                stands = e;
                waits = pending_of a.status waits;
                in_time = ground (arith, in_time);
              },
              refl,
            )
    ]
  ]
]

-- The event and the invocation of an approved Action.
abbrev pub approval_invocation : Approval → Text → Applied → Invocation
approval_invocation a decider applied = record {
  tenant_id = a.tenant_id;
  action_name = a.action_name;
  instance_urn = a.instance_urn;
  actor_urn = decider;
  reason = a.reason;
  edits = some applied;
  reverted_at = none;
}

abbrev pub approved_event : ℕ → Text → Text → Approval → ActionType → Applied → Event
approved_event id workspace_id decider a definition applied =
    approval_event a workspace_id decider
      (invoked a.action_name a.instance_urn a.reason (some id) (writeback_edits definition applied))

-- The writes of an approval: the row is approved, one invocation is added under the next id and one
-- event is enqueued.
pub record Writes (id : ℕ) (workspace_id decider : Text) (note : Option Text)
    (definition : ActionType) (a : Approval) (db after : Db) (invocation_id : ℕ) (applied : Applied)
    : Type 0 where
  pub approval :
      after.action_approval
      ≡ update ◌==◌ id (decided approved decider db.now note a) db.action_approval
  pub numbered : invocation_id ≡ db.next_invocation_id
  pub invocation :
      after.action_invocation
      ≡ db.action_invocation ++ (invocation_id, approval_invocation a decider applied) ∷ []
  pub event :
      after.event_outbox
      ≡ db.event_outbox ++ approved_event id workspace_id decider a definition applied ∷ []

module _ (run : Runtime) (id : ℕ) (workspace_id decider : Text) (note : Option Text) where
  -- What the invocation says that it wrote is what the writes of the Action, on this instance and with
  -- these edits, return, and the tables of instances are as those writes leave them.
  pub record WroteAs (definition : ActionType) (edits : Option (Dict Value)) (a : Approval)
      (db after : Db) (applied : Applied) : Type 0 where
    pub target : Text × Text
    pub target_is : object_type_and_instance_id a.instance_urn ≡ some target
    pub written : Db
    pub written_is :
        write_action run
          (invoke_of a workspace_id decider db.now target.0 target.1)
          definition
          edits
          db
        ≡ (returned applied, written)
    pub rest_kept : after ≡ record written {
      action_approval = after.action_approval;
      action_invocation = after.action_invocation;
      next_invocation_id = after.next_invocation_id;
      event_outbox = after.event_outbox;
    }

  abbrev pub Approved :
      ActionType → Option (Dict Value) → Approval → Db → Outcome Error (ℕ × Applied) × Db → Type 0
  Approved definition edits a db (returned (n, applied), after) =
      Writes id workspace_id decider note definition a db after n applied
      × WroteAs definition edits a db after applied
  Approved definition edits a db (raised e, after) = Unit

  recorded :
      (definition : ActionType) (edits : Option (Dict Value)) (a : Approval) (t : Text × Text)
      (db : Db) (x : Outcome Error Applied × Db)
      → object_type_and_instance_id a.instance_urn ≡ some t
      → write_action run (invoke_of a workspace_id decider db.now t.0 t.1) definition edits db ≡ x
      → Frame db x.1
      → Approved definition edits a db (
          ((λ s. x)
              >>= record_approval id note definition a
                  (invoke_of a workspace_id decider db.now t.0 t.1))
            db)
  unfolding record_approval insert_invocation enqueue set_approval
  recorded definition edits a t db (raised e, after) parsed ran f = tt
  recorded definition edits a t db (returned applied, after) parsed ran f = (
    record {
      approval = ap (update ◌==◌ id (decided approved decider db.now note a)) f.approvals;
      numbered = f.next_id;
      invocation =
          ap
            (λ rows. rows ++ (after.next_invocation_id, approval_invocation a decider applied) ∷ [])
            f.invocations;
      event =
          ap (λ events. events ++ approved_event id workspace_id decider a definition applied ∷ [])
            f.outbox;
    },
    record { target = t; target_is = parsed; written = after; written_is = ran; rest_kept = refl },
  )

  approve_row-Approved :
      (definition : ActionType) (output : Option (Dict Value)) (a : Approval) (db : Db)
      → Approved definition output a db
          (approve_row run id workspace_id decider note definition output a db)
  unfolding approve_row
  approve_row-Approved definition output a db =
      elim (Option-cases (object_type_and_instance_id a.instance_urn)) [
        | inl e ↦ rw e tt
        | inr (t, e) ↦
            let v = invoke_of a workspace_id decider db.now t.0 t.1 in
            let family = λ (o : Option (Text × Text)). Approved definition output a db (
              (require o (value_error "not enough values to unpack") >>= (λ target.
                  let w = invoke_of a workspace_id decider db.now target.0 target.1 in
                  write_action run w definition output >>= record_approval id note definition a w))
                db) in
            subst family (sym e) (
              recorded definition output a t db (write_action run v definition output db) e refl
                (write_action-Keeps run v definition output db))
      ]

  -- The transaction either decides the approval, which could be decided, or leaves no trace.
  abbrev pub OutcomeOf : Outcome Error (Dict Value) → Db → Outcome Error (ℕ × Applied) × Db → Type 0
  OutcomeOf output db (returned (n, applied), after) =
      (a : Approval) × (definition : ActionType) × Decidable id a db
      × (get_action_definition a.tenant_id a.action_name db.action_type ≡ some definition)
      × Writes id workspace_id decider note definition a db after n applied
      × ((edits : Option (Dict Value)) × (function_edits definition output ≡ returned edits)
          × WroteAs definition edits a db after applied)
  OutcomeOf output db (raised e, after) = after ≡ db

  close-Outcome :
      (output : Outcome Error (Dict Value)) (definition : ActionType) (edits : Option (Dict Value))
      (a : Approval) (db : Db) (x : Outcome Error (ℕ × Applied) × Db)
      → function_edits definition output ≡ returned edits
      → Decidable id a db
      → get_action_definition a.tenant_id a.action_name db.action_type ≡ some definition
      → Approved definition edits a db x
      → OutcomeOf output db (close db x)
  unfolding close
  close-Outcome output definition edits a db (returned (n, applied), after) fe d e w =
      (a, definition, d, e, w.0, (edits, fe, w.1))
  close-Outcome output definition edits a db (raised f, after) fe d e w = refl

  in_transaction :
      (output : Outcome Error (Dict Value)) (definition : ActionType) (edits : Option (Dict Value))
      (db : Db) (x : Outcome Error Approval × Db) (body : Approval → Exec Error Db (ℕ × Applied))
      → function_edits definition output ≡ returned edits
      → Locked id db x
      → ((a : Approval)
          → Decidable id a db
          → get_action_definition a.tenant_id a.action_name db.action_type ≡ some definition)
      → ((a : Approval) → Approved definition edits a db (body a db))
      → OutcomeOf output db (close db (((λ s. x) >>= body) db))
  unfolding close
  in_transaction output definition edits db (raised f, after) body fe h known w = refl
  in_transaction output definition edits db (returned a, after) body fe h known w =
      rw h.1 (close-Outcome output definition edits a db (body a db) fe h.0 (known a h.0) (w a))

  -- `approve_action` either raises and changes nothing at all, or decides an approval that stood
  -- pending and had not expired: it is approved with the decider and the time, one invocation with
  -- what was written is added under the next id, and one event, with the edits if the Action writes
  -- back to a dataset, is enqueued in the same transaction. What was written is what the writes of the
  -- Action on the instance return, and nothing else differs from what those writes leave.
  pub approve_action-Outcome :
      (output : Outcome Error (Dict Value)) (db : Db)
      → OutcomeOf output db (approve_action run output id workspace_id decider note db)
  unfolding approve_action transaction
  approve_action-Outcome output db = elim (Option-cases (get_approval id db)) [
    | inl e ↦ rw e refl
    | inr (p, e) ↦
        elim (Option-cases (get_action_definition p.tenant_id p.action_name db.action_type)) [
          | inl e2 ↦ rw (e, e2) refl
          | inr (definition, e2) ↦ elim (Outcome-cases (function_edits definition output)) [
            | inr (f, e3) ↦ rw (e, e2, e3) refl
            | inl (edits, e3) ↦
                rw (e, e2, e3)
                  (in_transaction output definition edits db (lock_pending id db)
                    (approve_row run id workspace_id decider note definition edits) e3
                    (lock_pending-Locked id db) (λ a d. ground (arith, e, e2, d.stands))
                    (λ a. approve_row-Approved definition edits a db))
          ]
        ]
  ]
