-- ===== src/Actions/Decisions/Lifecycle.antt =====
-- services/knowledge/app/actions: the lifecycle of an approval under all the operations that a
-- service process runs.
use mathlib.Core.Path.{subst}
use holon.Prelude.{
  ap, arith, ℕ, ◌+◌, ◌≡◌, refl, sym, ◌⊎◌, ◌∙◌, Option, none, some, List, [], ◌∷◌, ◌==◌, ==_iff,
  Bool-cases, Option-cases, inl, inr,
}
use holon.Prelude.Text.{Text}
use holon.Prelude.Table.{get, update, get-update}
use holon.Prelude.Exec.{Outcome, returned, raised, Outcome-cases, ◌>>=◌}
use holon.Actions.Json.{Value}
use holon.Actions.Db.{Error}
use holon.Actions.State.{
  Dict, Status, pending, approved, rejected, expired, failed, Approval, Applied, Db, transaction,
  close, enqueue, get_action_definition,
}
use holon.Actions.Structural.{Runtime}
use holon.Actions.Apply.{
  Invoke, write_action, apply_now, apply_in_transaction, insert_invocation, record_invocation,
  function_edits,
}
use holon.Actions.Approval.{
  get_approval, set_approval, decided, reject_action, sweep_expired_approvals, approve_action,
  overdue,
}
use holon.Actions.Undo.{compensate_from_workflow_engine, revert_declarative_action}
use holon.Actions.Undo.Reverts.{
  Reverted, revert_declarative_action-Reverted, revert_writes-Frame, target_key,
}
use holon.Actions.Frame.{Frame, write_action-Keeps}
use holon.Actions.Decisions.{OutcomeOf, approve_action-Outcome, pending_of}
use holon.Actions.Decisions.Rejections.{
  Rejected, reject_action-Rejected, expire, sweep_expired_approvals_lem, Compensated,
  compensate_from_workflow_engine-Compensated,
}

-- The steps that the lifecycle allows.
pub data Step : Status → Status → Type 0 where
  approve : Step pending approved
  reject : Step pending rejected
  expire_overdue : Step pending expired
  compensate : Step approved failed

-- The status stays, or makes one step.
abbrev pub Moves : Option Status → Option Status → Type 0
Moves x y = (y ≡ x) ⊎ ((s t : Status) × (x ≡ some s) × (y ≡ some t) × Step s t)

-- The operations of approval.py, declarative_edits.py and __init__.py on the approvals, with the
-- output of the edit function where an Action has one, and the time that passes.
pub data Operation : Type 0 where
  apply_op : Outcome Error (Dict Value) → Invoke → Operation
  approve_op : Outcome Error (Dict Value) → ℕ → Text → Text → Option Text → Operation
  reject_op : ℕ → Text → Text → Option Text → Operation
  sweep_op : Text → Operation
  compensate_op : ℕ → Text → Text → Operation
  revert_op : ℕ → Text → Text → Text → Operation
  wait_op : ℕ → Operation

abbrev status_of : Option Approval → Option Status
status_of none = none
status_of (some a) = some a.status

abbrev pub status_at : ℕ → Db → Option Status
status_at id db = status_of (get_approval id db)

unfoldable pub run_one : Runtime → Operation → Db → Db
run_one run (apply_op output v) db = (apply_now run output v db).1
run_one run (approve_op output id w decider remark) db =
    (approve_action run output id w decider remark db).1
run_one run (reject_op id w decider remark) db = (reject_action id w decider remark db).1
run_one run (sweep_op w) db = (sweep_expired_approvals w db).1
run_one run (compensate_op id w error) db = (compensate_from_workflow_engine id w error db).1
run_one run (revert_op id tenant_id w actor) db =
    (revert_declarative_action id tenant_id w actor db).1
run_one run (wait_op seconds) db = record db { now = db.now + seconds }

unfoldable pub run_each : Runtime → List Operation → Db → Db
run_each run [] db = db
run_each run (op ∷ ops) db = run_each run ops (run_one run op db)

-- The row stays as it is, or changes with a step of the lifecycle.
abbrev Changes : Option Approval → Option Approval → Type 0
Changes x y = (y ≡ x) ⊎ ((a b : Approval) × (x ≡ some a) × (y ≡ some b) × Step a.status b.status)

same-Changes :
    (id : ℕ) (a b : Db)
    → b.action_approval ≡ a.action_approval
    → Changes (get_approval id a) (get_approval id b)
unfolding get_approval
same-Changes id a b e = inl (ap (get ◌==◌ id) e)

-- One row changes its status by a step of the lifecycle.
update-Changes :
    (id other : ℕ) (a b : Approval) (db after : Db)
    → get_approval id db ≡ some a
    → Step a.status b.status
    → after.action_approval ≡ update ◌==◌ id b db.action_approval
    → Changes (get_approval other db) (get_approval other after)
unfolding get_approval
update-Changes id other a b db after e step w =
    let g = ap (get ◌==◌ other) w ∙ get-update ◌==◌ ==_iff id other b db.action_approval in
    elim (Bool-cases (id == other)) [
      | inl same ↦ inr (a, b, ground (arith, e, same), ground (arith, e, g, same), step)
      | inr differ ↦ inl (ground (arith, g, differ))
    ]

approve-Changes :
    (run : Runtime) (id other : ℕ) (w decider : Text) (remark : Option Text)
    (output : Outcome Error (Dict Value)) (db : Db) (x : Outcome Error (ℕ × Applied) × Db)
    → OutcomeOf run id w decider remark output db x
    → Changes (get_approval other db) (get_approval other x.1)
approve-Changes run id other w decider remark output db (raised e, after) h =
    same-Changes other db after (ap (λ d. d.action_approval) h)
approve-Changes run id other w decider remark output db (returned (n, applied), after)
      (a, definition, d, e, writes, as_written) =
    update-Changes id other a (decided approved decider db.now remark a) db after d.stands
      (rw d.waits approve) writes.approval

reject-Changes :
    (id other : ℕ) (w decider : Text) (remark : Option Text) (db : Db)
    (x : Outcome Error (Unit {0}) × Db)
    → Rejected id w decider remark db x
    → Changes (get_approval other db) (get_approval other x.1)
unfolding set_approval enqueue
reject-Changes id other w decider remark db (raised e, after) h =
    same-Changes other db after (ap (λ d. d.action_approval) h)
reject-Changes id other w decider remark db (returned u, after) (a, d, e) =
    update-Changes id other a (decided rejected decider db.now remark a) db after d.stands
      (rw d.waits reject) (ap (λ d. d.action_approval) e)

compensate-Changes :
    (id other : ℕ) (w error : Text) (db : Db) (x : Outcome Error (Unit {0}) × Db)
    → Compensated id w error db x
    → Changes (get_approval other db) (get_approval other x.1)
compensate-Changes id other w error db (raised e, after) h =
    same-Changes other db after (ap (λ d. d.action_approval) h)
compensate-Changes id other w error db (returned u, after) (a, e, waits, rows, events) =
    update-Changes id other a _ db after e (rw waits compensate) rows

expire-Changes : (now : ℕ) (a : Option Approval) → Changes a (expire now a)
expire-Changes now none = inl refl
expire-Changes now (some a) = elim (Bool-cases (overdue now a)) [
  | inr e ↦ inl (ground (arith, e))
  | inl e ↦ inr (
    a,
    record a { status = expired },
    refl,
    ground (arith, e),
    subst (λ s. Step s expired) (sym (pending_of a.status (ground (arith, e)))) expire_overdue,
  )
]

applied-Changes :
    (id : ℕ) (db : Db) (x : Outcome Error (ℕ × Applied) × Db)
    → x.1.action_approval ≡ db.action_approval
    → (close db x).1.action_approval ≡ db.action_approval
unfolding close
applied-Changes id db (returned a, after) h = h
applied-Changes id db (raised e, after) h = refl

recorded-approvals :
    (v : Invoke) (db : Db) (x : Outcome Error Applied × Db)
    → Frame db x.1
    → (((λ s. x) >>= record_invocation v) db).1.action_approval ≡ db.action_approval
unfolding record_invocation insert_invocation enqueue
recorded-approvals v db (returned a, after) f = f.approvals
recorded-approvals v db (raised e, after) f = f.approvals

apply_now-approvals :
    (run : Runtime) (output : Outcome Error (Dict Value)) (v : Invoke) (db : Db)
    → (apply_now run output v db).1.action_approval ≡ db.action_approval
unfolding apply_now apply_in_transaction transaction
apply_now-approvals run output v db =
    elim (Option-cases (get_action_definition v.tenant_id v.action_name db.action_type)) [
      | inl e ↦ rw e refl
      | inr (definition, e) ↦ elim (Outcome-cases (function_edits definition output)) [
        | inr (f, e2) ↦ rw (e, e2) refl
        | inl (edits, e2) ↦
            rw (e, e2)
              (let now : Invoke = record v { at = db.now } in
                applied-Changes 0 db _ (
                  recorded-approvals now db (write_action run now definition edits db)
                    (write_action-Keeps run now definition edits db)))
      ]
    ]

revert-approvals :
    (id : ℕ) (tenant_id w actor : Text) (db : Db) (x : Outcome Error Applied × Db)
    → Reverted id tenant_id w actor db x
    → x.1.action_approval ≡ db.action_approval
revert-approvals id tenant_id w actor db (raised e, after) h = ap (λ d. d.action_approval) h
revert-approvals id tenant_id w actor db (returned applied, after) (v, t, ok, parsed, e, writes) =
    ap (λ d. d.action_approval) e
    ∙ (revert_writes-Frame id tenant_id w actor v (target_key id tenant_id w actor t) applied db).0

run_one-Changes :
    (run : Runtime) (op : Operation) (id : ℕ) (db : Db)
    → Changes (get_approval id db) (get_approval id (run_one run op db))
unfolding run_one get_approval
run_one-Changes run (apply_op output v) id db =
    same-Changes id db (apply_now run output v db).1 (apply_now-approvals run output v db)
run_one-Changes run (approve_op output other w decider remark) id db =
    approve-Changes run other id w decider remark output db _
      (approve_action-Outcome run other w decider remark output db)
run_one-Changes run (reject_op other w decider remark) id db =
    reject-Changes other id w decider remark db _ (reject_action-Rejected other w decider remark db)
run_one-Changes run (sweep_op w) id db =
    let swept = (sweep_expired_approvals_lem w db).0 id in
    rw swept (expire-Changes db.now (get_approval id db))
run_one-Changes run (compensate_op other w error) id db =
    compensate-Changes other id w error db _
      (compensate_from_workflow_engine-Compensated other w error db)
run_one-Changes run (revert_op other tenant_id w actor) id db =
    same-Changes id db (revert_declarative_action other tenant_id w actor db).1 (
      revert-approvals other tenant_id w actor db _
        (revert_declarative_action-Reverted other tenant_id w actor db))
run_one-Changes run (wait_op seconds) id db = inl refl

Changes-Moves : (x y : Option Approval) → Changes x y → Moves (status_of x) (status_of y)
Changes-Moves x y (inl same) = inl (ap status_of same)
Changes-Moves x y (inr (a, b, was, is, step)) =
    inr (a.status, b.status, ap status_of was, ap status_of is, step)

-- Every operation, whatever it is asked and whether it succeeds or raises, moves every approval by
-- at most one step of the lifecycle: pending to approved, rejected or expired, and approved to
-- failed.
pub run_one-Moves :
    (run : Runtime) (op : Operation) (id : ℕ) (db : Db)
    → Moves (status_at id db) (status_at id (run_one run op db))
run_one-Moves run op id db =
    Changes-Moves (get_approval id db) (get_approval id (run_one run op db))
      (run_one-Changes run op id db)

-- A status that no step leaves.
abbrev pub IsFinal : Status → Type 0
IsFinal pending = ⊥
IsFinal approved = ⊥
IsFinal rejected = Unit
IsFinal expired = Unit
IsFinal failed = Unit

final-Step : (s t : Status) → IsFinal s → Step s t → ⊥
final-Step pending t h st = h
final-Step approved t h st = h
final-Step rejected t h st = elim st [ ]
final-Step expired t h st = elim st [ ]
final-Step failed t h st = elim st [ ]

final-Changes :
    (a : Approval) (y : Option Approval) → IsFinal a.status → Changes (some a) y → y ≡ some a
final-Changes a y h (inl e) = e
final-Changes a y h (inr (b, c, e, e2, step)) =
    let same : a ≡ b = ground (arith, e) in
    absurd (
      final-Step a.status c.status h
        (subst (λ (k : Approval). Step k.status c.status) (sym same) step))

-- Let an approval be rejected, expired or compensated. No sequence of operations, by whomever and
-- whenever, changes its row: its status, its decider, the time and the note of its decision stay.
pub run_each-final :
    (run : Runtime) (ops : List Operation) (id : ℕ) (db : Db) (a : Approval)
    → IsFinal a.status
    → get_approval id db ≡ some a
    → get_approval id (run_each run ops db) ≡ some a
unfolding run_each
run_each-final run [] id db a h e = e
run_each-final run (op ∷ ops) id db a h e = run_each-final run ops id (run_one run op db) a h (
    final-Changes a _ h (
      subst (λ x. Changes x (get_approval id (run_one run op db))) e
        (run_one-Changes run op id db)))
