-- ===== src/Actions/Undo/Reverts.antt =====
-- services/knowledge/app/actions/declarative_edits.py: when `revert_declarative_action` reverts, and
-- what it writes.
use mathlib.Core.Path.{subst}
use holon.Prelude.{
  sym, [], ◌∷◌, ◌++◌, All, true, ◌≤◌, ap, arith, ℕ, ◌≡◌, ◌≢◌, refl, ◌∙◌, false, Option, none, some,
  ◌==◌, ==_iff, Bool-cases, Option-cases, inl, inr,
}
use holon.Prelude.Text.{Text, text_eq, text_eq_iff, codes}
use holon.Prelude.Table.{Table, get, update, get-update}
use holon.Prelude.Exec.{Outcome, returned, raised}
use holon.Actions.Db.{Error, InstanceKey}
use holon.Actions.State.{
  Event, reverted, Applied, Invocation, Structural, Db, enqueue, get_action_definition,
}
use holon.Actions.Edits.{Stamp, restore_each}
use holon.Actions.Apply.{object_type_and_instance_id}
use holon.Actions.Undo.{
  invocation_of, revert_kept, writes_back, has_later, revert_writes, revert_kept,
  revert_declarative_action,
}
use holon.Actions.Frame.{Frame, Frame-refl, revert_structural-Frame}

-- No invocation of the tenant on the instance that wrote edits and still stands has a higher id.
abbrev pub IsLatest : Text → Text → ℕ → Table ℕ Invocation → Type 0
IsLatest tenant_id urn id = All (λ r.
    r.1.tenant_id ≡ tenant_id
    → r.1.instance_urn ≡ urn
    → r.1.edits ≢ none
    → r.1.reverted_at ≡ none
    → r.0 ≤ id)

wrote_edits : (e : Option Applied) → e ≢ none → (elim e [ none ↦ false | some a ↦ true ]) ≡ true
wrote_edits none h = absurd (h refl)
wrote_edits (some a) h = refl

still_stands : (at : Option ℕ) → at ≡ none → (elim at [ none ↦ true | some t ↦ false ]) ≡ true
still_stands none h = refl
still_stands (some t) h = absurd (cc)

has_later-IsLatest :
    (tenant_id urn : Text) (id : ℕ) (rows : Table ℕ Invocation)
    → has_later tenant_id urn id rows ≡ false
    → IsLatest tenant_id urn id rows
unfolding has_later
has_later-IsLatest tenant_id urn id [] h = tt
has_later-IsLatest tenant_id urn id (r ∷ rows) h = (
  (λ same_tenant same_urn wrote stands. ground (
    arith,
    h,
    (text_eq_iff r.1.tenant_id tenant_id).1 same_tenant,
    (text_eq_iff r.1.instance_urn urn).1 same_urn,
    wrote_edits r.1.edits wrote,
    still_stands r.1.reverted_at stands,
  )),
  has_later-IsLatest tenant_id urn id rows (ground (arith, h)),
)

-- All the conditions of a revert.
pub record Revertible (id : ℕ) (tenant_id actor_urn : Text) (v : Invocation) (applied : Applied)
    (db : Db) : Type 0 where
  pub stands : invocation_of id tenant_id db ≡ some v
  pub wrote : v.edits ≡ some applied
  pub not_yet : v.reverted_at ≡ none
  pub own : v.actor_urn ≡ actor_urn
  pub internal : writes_back (get_action_definition tenant_id v.action_name db.action_type) ≡ false
  pub latest : IsLatest tenant_id v.instance_urn id db.action_invocation

revert_kept-Frame :
    (tenant_id : Text) (s : Option Structural) (by : Stamp) (db : Db)
    → Frame db (revert_kept tenant_id s by db)
revert_kept-Frame tenant_id none by db = Frame-refl db
revert_kept-Frame tenant_id (some s) by db = revert_structural-Frame tenant_id s by db

module _ (id : ℕ) (tenant_id workspace_id actor_urn : Text) (v : Invocation) (i : InstanceKey)
    (applied : Applied) (db : Db) where
  abbrev pub by_revert : Stamp
  by_revert = record { action_urn = codes "revert"; actor_urn = actor_urn; at = db.now }

  abbrev restored : Db
  restored = record db {
    object_instance_edit = restore_each i by_revert applied.prior db.object_instance_edit;
  }

  -- The mark on the invocation, and the event
  abbrev marked : Table ℕ Invocation
  marked = update ◌==◌ id (record v { reverted_at = some db.now }) db.action_invocation

  abbrev reverted_event : Event
  reverted_event = record {
    tenant_id = tenant_id;
    workspace_id = workspace_id;
    aggregate_id = v.instance_urn;
    actor_urn = actor_urn;
    payload = reverted v.action_name v.instance_urn id;
  }

  -- What the transaction of a revert writes: the prior values come back, first of the properties and then
  -- of links and objects, the invocation is marked with the time, and one event is enqueued. Approvals,
  -- other invocations and the Action Types stay.
  pub record Writes (after : Db) : Type 0 where
    pub values :
        after.object_instance_edit
        ≡ (revert_kept tenant_id applied.structural by_revert restored).object_instance_edit
    pub approvals_kept : after.action_approval ≡ db.action_approval
    pub is_marked : after.action_invocation ≡ marked
    pub is_told : after.event_outbox ≡ db.event_outbox ++ reverted_event ∷ []
    pub types_kept : after.action_type ≡ db.action_type

  pub revert_writes-Writes :
      Writes (revert_writes id tenant_id workspace_id actor_urn v i applied db)
  unfolding revert_writes enqueue
  revert_writes-Writes =
      let f = revert_kept-Frame tenant_id applied.structural by_revert restored in
      record {
        values = refl;
        approvals_kept = f.approvals;
        is_marked = ap (update ◌==◌ id (record v { reverted_at = some db.now })) f.invocations;
        is_told = ap (λ events. events ++ reverted_event ∷ []) f.outbox;
        types_kept = f.types;
      }

  -- What a revert leaves of the approvals, and the mark on its invocation.
  pub revert_writes-Frame :
      let after = revert_writes id tenant_id workspace_id actor_urn v i applied db in
      (after.action_approval ≡ db.action_approval)
      × (after.action_invocation
          ≡ update ◌==◌ id (record v { reverted_at = some db.now }) db.action_invocation)
  unfolding revert_writes enqueue
  revert_writes-Frame =
      let f = revert_kept-Frame tenant_id applied.structural by_revert restored in
      (f.approvals, ap (update ◌==◌ id (record v { reverted_at = some db.now })) f.invocations)

module _ (id : ℕ) (tenant_id workspace_id actor_urn : Text) where
  abbrev pub target_key : Text × Text → InstanceKey
  target_key t = record { tenant_id = tenant_id; object_type = t.0; instance_id = t.1 }

  -- By the code of the transaction
  abbrev Done : Db → Outcome Error Applied × Db → Type 0
  Done db (returned applied, after) =
      (v : Invocation) × (t : Text × Text) × Revertible id tenant_id actor_urn v applied db
      × (object_type_and_instance_id v.instance_urn ≡ some t)
      × (after ≡ revert_writes id tenant_id workspace_id actor_urn v (target_key t) applied db)
  Done db (raised e, after) = after ≡ db

  revert_declarative_action-Done :
      (db : Db) → Done db (revert_declarative_action id tenant_id workspace_id actor_urn db)
  unfolding revert_declarative_action
  revert_declarative_action-Done db = elim (Option-cases (invocation_of id tenant_id db)) [
    | inl e ↦ rw e refl
    | inr (v, e) ↦ elim (Option-cases v.edits) [
      | inl e1 ↦ rw (e, e1) refl
      | inr (applied, e1) ↦ elim (Option-cases v.reverted_at) [
        | inr (at, e2) ↦ rw (e, e1, e2) refl
        | inl e2 ↦ elim (Bool-cases (text_eq v.actor_urn actor_urn)) [
          | inr e3 ↦ rw (e, e1, e2, e3) refl
          | inl e3 ↦
              elim (Bool-cases
                (writes_back (get_action_definition tenant_id v.action_name db.action_type))) [
                  | inl e4 ↦ rw (e, e1, e2, e3, e4) refl
                  | inr e4 ↦
                      elim (Bool-cases
                        (has_later tenant_id v.instance_urn id db.action_invocation)) [
                          | inl e5 ↦ rw (e, e1, e2, e3, e4, e5) refl
                          | inr e5 ↦
                              elim (Option-cases (object_type_and_instance_id v.instance_urn)) [
                                | inl e6 ↦ rw (e, e1, e2, e3, e4, e5, e6) refl
                                | inr (t, e6) ↦
                                    rw (e, e1, e2, e3, e4, e5, e6)
                                      (
                                        v,
                                        t,
                                        record {
                                          stands = e;
                                          wrote = e1;
                                          not_yet = e2;
                                          own = (text_eq_iff v.actor_urn actor_urn).0 e3;
                                          internal = e4;
                                          latest =
                                              has_later-IsLatest tenant_id v.instance_urn id
                                                db.action_invocation e5;
                                        },
                                        e6,
                                        ground (arith, e1, e2),
                                      )
                              ]
                        ]
                ]
        ]
      ]
    ]
  ]

  -- A revert met all its conditions and wrote what its transaction writes, or wrote nothing.
  abbrev pub Reverted : Db → Outcome Error Applied × Db → Type 0
  Reverted db (returned applied, after) =
      (v : Invocation) × (t : Text × Text) × Revertible id tenant_id actor_urn v applied db
      × (object_type_and_instance_id v.instance_urn ≡ some t)
      × (after ≡ revert_writes id tenant_id workspace_id actor_urn v (target_key t) applied db)
      × Writes id tenant_id workspace_id actor_urn v (target_key t) applied db after
  Reverted db (raised e, after) = after ≡ db

  Done-Reverted : (db : Db) (x : Outcome Error Applied × Db) → Done db x → Reverted db x
  Done-Reverted db (returned applied, after) (v, t, ok, parsed, e) = (
    v,
    t,
    ok,
    parsed,
    e,
    subst (Writes id tenant_id workspace_id actor_urn v (target_key t) applied db) (sym e)
        (revert_writes-Writes id tenant_id workspace_id actor_urn v (target_key t) applied db),
  )
  Done-Reverted db (raised e, after) h = h

  -- `revert_declarative_action` either raises and changes nothing at all, or reverts an invocation of the
  -- tenant that wrote edits, was not reverted, is the caller's own, does not write back to an external
  -- dataset, and than which no invocation on its instance that wrote edits and stands has a higher id.
  -- Then its invocation is marked with the time, one event is enqueued, its prior values are written back,
  -- and the approvals, the other invocations and the Action Types are as before.
  pub revert_declarative_action-Reverted :
      (db : Db) → Reverted db (revert_declarative_action id tenant_id workspace_id actor_urn db)
  revert_declarative_action-Reverted db = Done-Reverted db _ (revert_declarative_action-Done db)

revert-marks :
    (id : ℕ) (tenant_id : Text) (v : Invocation) (now : ℕ) (db after : Db)
    → invocation_of id tenant_id db ≡ some v
    → after.action_invocation
      ≡ update ◌==◌ id (record v { reverted_at = some now }) db.action_invocation
    → invocation_of id tenant_id after ≡ some (record v { reverted_at = some now })
revert-marks id tenant_id v now db after e w =
    let g =
      ap (get ◌==◌ id) w
      ∙ get-update ◌==◌ ==_iff id id (record v { reverted_at = some now }) db.action_invocation in
    ground (arith, e, g, ==_iff id id)

not_twice :
    (found : Option Invocation) (v w : Invocation) (at : ℕ)
    → found ≡ some (record v { reverted_at = some at })
    → found ≡ some w
    → w.reverted_at ≢ none
not_twice found v w at e e' h = ground (arith, e, e', h)

-- An invocation is reverted at most once: after a revert that succeeded, no caller's revert of the
-- same invocation succeeds.
pub revert-revert_declarative_action :
    (id : ℕ) (tenant_id workspace_id actor_urn : Text) (db after : Db) (applied : Applied)
    (workspace_id' actor_urn' : Text) (last : Db) (again : Applied)
    → revert_declarative_action id tenant_id workspace_id actor_urn db ≡ (returned applied, after)
    → revert_declarative_action id tenant_id workspace_id' actor_urn' after ≢ (returned again, last)
revert-revert_declarative_action id tenant_id w actor db after applied w' actor' last again e e' =
    let (v, t, ok, parsed, written, writes) : Reverted id tenant_id w actor db
        (returned applied, after) =
      rw e at (revert_declarative_action-Reverted id tenant_id w actor db) in
    let (v', t', ok', parsed', written', writes') : Reverted id tenant_id w' actor' after
        (returned again, last) =
      rw e' at (revert_declarative_action-Reverted id tenant_id w' actor' after) in
    let mark =
      (revert_writes-Frame id tenant_id w actor v (target_key id tenant_id w actor t) applied
        db).1 in
    let marked =
      revert-marks id tenant_id v db.now db after ok.stands
        (ap (λ d. d.action_invocation) written ∙ mark) in
    not_twice (invocation_of id tenant_id after) v v' db.now marked ok'.stands ok'.not_yet
