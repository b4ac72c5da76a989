-- ===== src/Agent/Lifecycle.antt =====
-- services/intelligence/app/agent_runtime.py: a session from its creation on, through turns, sweeps and
-- the passing of time.
use mathlib.Core.Path.{subst}
use holon.Prelude.{
  ℕ, ◌+◌, ◌≤◌, min, max, ◌≡◌, refl, sym, ap, ◌∙◌, false, ◌&&◌, Option, none, some, List, [], ◌∷◌,
  length, ltb, if◌then◌else◌, Bool-cases, inl, inr, arith,
}
use holon.Prelude.Text.{Text}
use holon.Prelude.Exec.{Outcome, raised}
use holon.Agent.{ℤ, pos, negsuc, room, aborted, Budget, Consumed, Session, Rows}
use holon.Agent.Sessions.{
  Given, absent, integer, unreadable, BudgetRequest, update_session, is_running, started,
  budget_from, SessionRequest, capped, full_budget, create_session, sweep_expired_sessions,
}
use holon.Agent.RunTurn.{TurnError, not_running, Outside, turn_by, run_turn}
use holon.Agent.Ended.{IsCapped, IsSound, Ended, turn-Ended}

capped-le :
    (default ceiling : ℕ) (n : ℤ) (g : Given)
    → default ≤ ceiling
    → capped default ceiling g ≡ some n
    → room n ≤ ceiling
unfolding capped room
capped-le default ceiling (pos n) absent k h = ground (arith, k, h)
capped-le default ceiling (pos n) (integer (pos m)) k h = ground (arith, h)
capped-le default ceiling (pos n) (integer (negsuc m)) k h = absurd (cc)
capped-le default ceiling (pos n) unreadable k h = absurd (cc)
capped-le default ceiling (negsuc n) g k h = omega arith

budget_from-some :
    (x y z : Option ℤ) (b : Budget)
    → budget_from x y z ≡ some b
    → (x ≡ some b.max_iterations) × (y ≡ some b.max_tool_calls) × (z ≡ some b.max_tokens)
unfolding budget_from
budget_from-some (some i) (some c) (some t) b h = ground (arith, h)
budget_from-some (some i) (some c) none b h = absurd (cc)
budget_from-some (some i) none z b h = absurd (cc)
budget_from-some none y z b h = absurd (cc)

full_budget-IsCapped : (w : BudgetRequest) (b : Budget) → full_budget w ≡ some b → IsCapped b
unfolding full_budget
full_budget-IsCapped w b h =
    let parts =
      budget_from-some (capped 10 20 w.iterations_wanted) (capped 25 50 w.tool_calls_wanted)
        (capped 50_000 100_000 w.tokens_wanted) b h in
    record {
      iterations_capped =
          capped-le 10 20 b.max_iterations w.iterations_wanted (omega arith) parts.0;
      calls_capped = capped-le 25 50 b.max_tool_calls w.tool_calls_wanted (omega arith) parts.1;
      tokens_capped = capped-le 50_000 100_000 b.max_tokens w.tokens_wanted (omega arith) parts.2;
    }

module _ (J : Type 0) where
  -- What may happen to a session: a turn, with whatever the world then is, a sweep, or time.
  pub data Op : Type 0 where
    take : Outside J → Text → Op
    sweep : Op
    wait : ℕ → Op

module _ {J : Type 0} where
  -- Soundness reads the session and the events.
  abbrev sound_at :
      (rows : Rows J) (h : IsSound rows) (after : Rows J)
      → after.session ≡ some h.row
      → after.events ≡ rows.events
      → IsSound after
  sound_at rows h after same told = record {
    row = h.row;
    row_is = same;
    capped = h.capped;
    calls_within = h.calls_within;
    iterations_within = h.iterations_within;
    tokens_within = h.tokens_within;
    not_told = λ live. told ∙ h.not_told live;
    told_once = omega (arith, ap length told, h.told_once);
  }

  -- Let a session be sound. A turn, whatever the model and the tools do, leaves it sound; it comes to an
  -- end, so that the fuel of its loop never runs out; and it calls no more tools than the session's
  -- budget had left.
  pub run_turn-Ended :
      (o : Outside J) (text : Text) (rows : Rows J) (sound : IsSound rows)
      → let out = run_turn o text rows in Ended sound.row (length rows.invoked) out.0 out.1
  run_turn-Ended o text rows sound =
      let s = sound.row in
      subst
        (λ q.
          let out = run_turn o text (record rows { session = q }) in
          Ended s (length rows.invoked) out.0 out.1)
        (sym sound.row_is)
        (turn-Ended o s sound.capped text rows
          (sound_at rows sound (record rows { session = some s }) refl refl) refl)

  unfoldable pub run_op : Op J → Rows J → Rows J
  run_op (take o text) rows = (run_turn o text rows).1
  run_op sweep rows = sweep_expired_sessions rows
  run_op (wait n) rows = record rows { now = rows.now + n }

  unfoldable pub run_each : List (Op J) → Rows J → Rows J
  run_each [] rows = rows
  run_each (op ∷ ops) rows = run_each ops (run_op op rows)

  sweep-IsSound : (rows : Rows J) → IsSound rows → IsSound (sweep_expired_sessions rows)
  unfolding sweep_expired_sessions
  sweep-IsSound rows h =
      let late = λ (q : Session). is_running q.status && ltb q.expires_at rows.now in
      let swept =
        ap (update_session (λ q. if late q then record q { status = aborted } else q)) h.row_is in
      elim (Bool-cases (late h.row)) [
        | inl due ↦ record {
          row = record h.row { status = aborted };
          row_is = swept ∙ rw due refl;
          capped = h.capped;
          calls_within = h.calls_within;
          iterations_within = h.iterations_within;
          tokens_within = λ e. absurd (cc);
          not_told = λ e. absurd (cc);
          told_once = h.told_once;
        }
        | inr kept ↦ sound_at rows h (sweep_expired_sessions rows) (swept ∙ rw kept refl) refl
      ]

  run_op-IsSound : (op : Op J) (rows : Rows J) → IsSound rows → IsSound (run_op op rows)
  unfolding run_op
  run_op-IsSound (take o text) rows h = (run_turn-Ended o text rows h).0
  run_op-IsSound sweep rows h = sweep-IsSound rows h
  run_op-IsSound (wait n) rows h =
      sound_at rows h (record rows { now = rows.now + n }) h.row_is refl

  each-IsSound : (ops : List (Op J)) (rows : Rows J) → IsSound rows → IsSound (run_each ops rows)
  unfolding run_each
  each-IsSound [] rows h = h
  each-IsSound (op ∷ ops) rows h = each-IsSound ops (run_op op rows) (run_op-IsSound op rows h)

  started-IsSound :
      (q : SessionRequest) (now : ℕ) (rows : Rows J) (b : Option Budget)
      → full_budget q.wanted ≡ b
      → started q now b ≡ some rows
      → IsSound rows
  started-IsSound q now rows none e h = absurd (cc)
  started-IsSound q now rows (some b) e h =
      subst (λ (o : Option (Rows J)). elim o as (λ _. Type 0) [ none ↦ Unit | some r ↦ IsSound r ])
        h
        (record {
          row = _;
          row_is = refl;
          capped = full_budget-IsCapped q.wanted b e;
          calls_within = omega arith;
          iterations_within = omega arith;
          tokens_within = λ _. omega arith;
          not_told = λ _. refl;
          told_once = omega arith;
        })

  create_session-IsSound :
      (q : SessionRequest) (now : ℕ) (rows : Rows J)
      → create_session q now ≡ some rows
      → IsSound rows
  unfolding create_session
  create_session-IsSound q now rows h =
      elim (Bool-cases (q.is_chained && ltb (min (max 1 q.depth_limit) 10) q.depth)) [
        | inl deep ↦ absurd (cc (sym (rw deep at h)))
        | inr shallow ↦ started-IsSound q now rows (full_budget q.wanted) refl (rw shallow at h)
      ]

  -- The rows of a created session stay sound through any turns, sweeps and waits: the budget is within
  -- the hard caps whatever was asked for, the stored consumption is within the budget, where a negative
  -- limit counts as 0, save the tokens of the answer that ended the session, and there is no event while
  -- the session runs and one at most after it.
  pub run_each-IsSound :
      (q : SessionRequest) (now : ℕ) (ops : List (Op J)) (rows : Rows J)
      → create_session q now ≡ some rows
      → IsSound (run_each ops rows)
  run_each-IsSound q now ops rows h = each-IsSound ops rows (create_session-IsSound q now rows h)

  -- A session that is not running
  abbrev pub IsFinal : Rows J → Type 0
  IsFinal rows = (s : Session) × (rows.session ≡ some s) × (is_running s.status ≡ false)

  run_turn-final :
      (o : Outside J) (text : Text) (rows : Rows J)
      → IsFinal rows
      → run_turn o text rows ≡ (raised not_running, rows)
  unfolding run_turn turn_by
  run_turn-final o text rows (s, found, ended) =
      subst
        (λ q.
          run_turn o text (record rows { session = q })
          ≡ (raised not_running, record rows { session = q }))
        (sym found) (rw ended refl)

  sweep-final : (rows : Rows J) → IsFinal rows → sweep_expired_sessions rows ≡ rows
  unfolding sweep_expired_sessions
  sweep-final rows (s, found, ended) =
      subst
        (λ q. sweep_expired_sessions (record rows { session = q }) ≡ record rows { session = q })
        (sym found) (rw ended refl)

  abbrev pub SameButTime : Rows J → Rows J → Type 0
  SameButTime rows after =
      (after.session ≡ rows.session)
      × (after.turns ≡ rows.turns)
      × (after.events ≡ rows.events)
      × (after.invoked ≡ rows.invoked)

  run_op-final : (op : Op J) (rows : Rows J) → IsFinal rows → SameButTime rows (run_op op rows)
  unfolding run_op
  run_op-final (take o text) rows h =
      rw
        (ap (λ (x : Outcome TurnError (Text × Consumed) × Rows J). x.1)
          (run_turn-final o text rows h))
        (refl, refl, refl, refl)
  run_op-final sweep rows h = rw (sweep-final rows h) (refl, refl, refl, refl)
  run_op-final (wait n) rows h = (refl, refl, refl, refl)

  -- A session that was completed or aborted stays as it is: no turn, sweep or wait after that changes
  -- its row, its transcript or its events, and no tool is called for it.
  pub run_each-SameButTime :
      (ops : List (Op J)) (rows : Rows J) → IsFinal rows → SameButTime rows (run_each ops rows)
  unfolding run_each
  run_each-SameButTime [] rows h = (refl, refl, refl, refl)
  run_each-SameButTime (op ∷ ops) rows h =
      let one = run_op-final op rows h in
      let rest = run_each-SameButTime ops (run_op op rows) (h.0, one.0 ∙ h.1, h.2) in
      (rest.0 ∙ one.0, rest.1 ∙ one.1, rest.2 ∙ one.2, rest.3 ∙ one.3)
