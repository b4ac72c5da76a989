-- ===== src/Agent/Ended.antt =====
-- services/intelligence/app/agent_runtime.py: the rows of a session after one turn.
use mathlib.Core.Path.{subst}
use holon.Prelude.{
  ℕ, suc, ◌+◌, ◌≤◌, ◌≡◌, ◌≢◌, refl, ap, Bool, true, false, some, List, [], ◌∷◌, ◌++◌, length, ltb,
  Bool-cases, Option-cases, inl, inr, arith,
}
use holon.Prelude.Text.{Text}
use holon.Prelude.Exec.{Outcome, returned, raised, ◌>>=◌}
use holon.Agent.{
  room, completed, aborted, Budget, Consumed, Session, SessionCompleted, Message, user_message,
  user, Rows,
}
use holon.Agent.Sessions.{update_session, finish_session, is_running}
use holon.Agent.Transcript.{messages_from_transcript}
use holon.Agent.Metered.{IsWithin, IsLive, IsOver, Turned, turn_loop-Turned}
use holon.Agent.RunTurn.{
  TurnError, no_session, not_running, ttl_expired, over_iterations, over_tokens, over_tool_calls,
  upstream, fuel_ran_out, Outside, list_tools, abort_with, turn_loop, close_turn, conclude,
  take_turn, turn_by, run_turn,
}

-- HARD_BUDGET_CAPS
pub record IsCapped (b : Budget) : Type 0 where
  pub iterations_capped : room b.max_iterations ≤ 20
  pub calls_capped : room b.max_tool_calls ≤ 50
  pub tokens_capped : room b.max_tokens ≤ 100_000

module _ {J : Type 0} where
  -- The session exists, with a budget below the hard caps that its consumption keeps to, where a negative
  -- limit counts as 0; only the last answer of an aborted session may have passed `max_tokens`. A
  -- running session has no event, any other one event at most.
  pub record IsSound (rows : Rows J) : Type 0 where
    pub row : Session
    pub row_is : rows.session ≡ some row
    pub capped : IsCapped row.budget
    pub calls_within : row.consumed.tool_calls ≤ room row.budget.max_tool_calls
    pub iterations_within : row.consumed.iterations ≤ room row.budget.max_iterations
    pub tokens_within :
        is_running row.status ≡ true → row.consumed.tokens ≤ room row.budget.max_tokens
    pub not_told : is_running row.status ≡ true → rows.events ≡ []
    pub told_once : length rows.events ≤ 1

  -- What a turn leaves: sound rows, no lack of fuel, and no more calls of tools than were left.
  abbrev pub Ended : Session → ℕ → Outcome TurnError (Text × Consumed) → Rows J → Type 0
  Ended s n r after =
      IsSound after
      × (r ≢ raised fuel_ran_out)
      × (length after.invoked + s.consumed.tool_calls ≤ n + room s.budget.max_tool_calls)

  IsLive-IsSound :
      (s : Session) (after : Rows J) → IsCapped s.budget → IsLive s [] after → IsSound after
  IsLive-IsSound s after k l = record {
    row = record s { consumed = l.saved };
    row_is = l.session_is;
    capped = k;
    calls_within = l.saved_within.calls_within;
    iterations_within = l.saved_within.iterations_within;
    tokens_within = λ _. l.saved_within.tokens_within;
    not_told = λ _. l.events_are;
    told_once = omega (arith, ap length l.events_are);
  }

  IsOver-IsSound :
      (s : Session) (d : Consumed) (after : Rows J)
      → IsCapped s.budget
      → IsOver s [] d after
      → IsSound after
  IsOver-IsSound s d after k l = record {
    row = record s { status = aborted; consumed = d };
    row_is = l.over_session;
    capped = k;
    calls_within = l.over_calls;
    iterations_within = l.over_rounds;
    tokens_within = λ h. absurd (cc);
    not_told = λ h. absurd (cc);
    told_once = omega (arith, ap length l.over_events);
  }

  module _ (o : Outside J) (s : Session) (k : IsCapped s.budget) where
    close_turn-IsSound :
        (chain : Bool) (text : Text) (d : Consumed) (messages : List (Message J)) (after : Rows J)
        → IsWithin s.budget d
        → IsLive s [] after
        → IsSound (conclude o chain (text, d, messages) after).1
    unfolding conclude close_turn finish_session
    close_turn-IsSound true text d messages after w l = record {
      row = record s { status = completed; consumed = d; expires_at = after.now + 900 };
      row_is =
          ap
            (λ q.
              update_session (λ x. record x { status = completed; consumed = d })
                (update_session (λ x. record x { consumed = d; expires_at = after.now + 900 }) q))
            l.session_is;
      capped = k;
      calls_within = w.calls_within;
      iterations_within = w.iterations_within;
      tokens_within = λ h. absurd (cc);
      not_told = λ h. absurd (cc);
      told_once = omega (
        arith,
        ap
            (λ (t : List SessionCompleted).
              length (t ++ (record { final_status = completed; calls = d.tool_calls } ∷ [])))
            l.events_are,
      );
    }
    close_turn-IsSound false text d messages after w l = record {
      row = record s { consumed = d; expires_at = after.now + 900 };
      row_is =
          ap (update_session (λ x. record x { consumed = d; expires_at = after.now + 900 }))
            l.session_is;
      capped = k;
      calls_within = w.calls_within;
      iterations_within = w.iterations_within;
      tokens_within = λ _. w.tokens_within;
      not_told = λ _. l.events_are;
      told_once = omega (arith, ap length l.events_are);
    }

    -- Closing a turn calls no tool and returns.
    close_turn_calls :
        (chain : Bool) (text : Text) (d : Consumed) (messages : List (Message J)) (after : Rows J)
        → let out = conclude o chain (text, d, messages) after in
          (out.0 ≡ returned (text, d)) × (out.1.invoked ≡ after.invoked)
    unfolding conclude close_turn finish_session
    close_turn_calls true text d messages after = (refl, refl)
    close_turn_calls false text d messages after = (refl, refl)

    Turned-Ended :
        (n : ℕ) (r : Outcome TurnError (Text × Consumed × List (Message J))) (after : Rows J)
        → Turned s [] s.consumed n r after
        → let out = ((λ (t : Rows J). (r, t)) >>= conclude o s.chain_trigger) after in
          Ended s n out.0 out.1
    Turned-Ended n (returned (text, d, messages)) after h =
        let done = close_turn_calls s.chain_trigger text d messages after in
        (
          close_turn-IsSound s.chain_trigger text d messages after h.1 h.0,
          (λ e. absurd (cc (done.0, e))),
          omega (arith, ap length done.1, h.2, h.1),
        )
    Turned-Ended n (raised upstream) after h =
        (IsLive-IsSound s after k h.0, (λ e. absurd (cc e)), h.1)
    Turned-Ended n (raised over_iterations) after h =
        (IsOver-IsSound s h.0 after k h.1, (λ e. absurd (cc e)), omega (arith, h.2, h.1.over_calls))
    Turned-Ended n (raised over_tokens) after h =
        (IsOver-IsSound s h.0 after k h.1, (λ e. absurd (cc e)), omega (arith, h.2, h.1.over_calls))
    Turned-Ended n (raised over_tool_calls) after h =
        (IsOver-IsSound s h.0 after k h.1, (λ e. absurd (cc e)), omega (arith, h.2, h.1.over_calls))
    Turned-Ended n (raised no_session) after h = absurd h
    Turned-Ended n (raised not_running) after h = absurd h
    Turned-Ended n (raised ttl_expired) after h = absurd h
    Turned-Ended n (raised fuel_ran_out) after h = absurd h

    -- A turn from the rows of a sound session
    module _ (text : Text) (rest : Rows J) (sound : IsSound (record rest { session = some s }))
        (same : sound.row ≡ s) where
      begun : Rows J
      begun = record rest { session = some s; turns = rest.turns ++ (user text ∷ []) }

      take_turn-Ended :
          is_running s.status ≡ true
          → let out =
              take_turn o
                (λ b tools. turn_loop o b tools (suc (room b.max_iterations)))
                text
                s
                (record rest { session = some s }) in
            Ended s (length rest.invoked) out.0 out.1
      unfolding take_turn begun
      take_turn-Ended live =
          let within : IsWithin s.budget s.consumed = record {
            iterations_within =
                subst (λ q. q.consumed.iterations ≤ room q.budget.max_iterations) same
                  sound.iterations_within;
            calls_within =
                subst (λ q. q.consumed.tool_calls ≤ room q.budget.max_tool_calls) same
                  sound.calls_within;
            tokens_within =
                subst
                  (λ q. is_running q.status ≡ true → q.consumed.tokens ≤ room q.budget.max_tokens)
                  same sound.tokens_within live;
          } in
          let start : IsLive s [] begun = record {
            saved = s.consumed;
            saved_within = within;
            session_is = refl;
            events_are =
                subst (λ q. is_running q.status ≡ true → rest.events ≡ []) same sound.not_told live;
          } in
          elim (Option-cases (list_tools o s.allowed_tools)) [
            | inl fails ↦
                rw fails
                  (IsLive-IsSound s begun k start, (λ e. absurd (cc e)), omega (arith, within))
            | inr (tools, found) ↦ rw found (
                let messages =
                  messages_from_transcript o.json rest.turns ++ (user_message text ∷ []) in
                let out =
                  turn_loop o s.budget tools (suc (room s.budget.max_iterations)) s.consumed
                    messages begun in
                Turned-Ended (length rest.invoked) out.0 out.1 (
                  turn_loop-Turned o s [] tools (suc (room s.budget.max_iterations)) s.consumed
                    messages begun (omega arith) within start))
          ]

      pub turn-Ended :
          let out = run_turn o text (record rest { session = some s }) in
          Ended s (length rest.invoked) out.0 out.1
      unfolding run_turn turn_by abort_with finish_session
      turn-Ended =
          let calls =
            subst (λ q. q.consumed.tool_calls ≤ room q.budget.max_tool_calls) same
              sound.calls_within in
          elim (Bool-cases (is_running s.status)) [
            | inr ended ↦ rw ended (sound, (λ e. absurd (cc e)), omega (arith, calls))
            | inl live ↦ rw live (elim (Bool-cases (ltb s.expires_at rest.now)) [
              | inl late ↦ rw late (
                IsOver-IsSound s s.consumed _ k (record {
                  over_calls = calls;
                  over_rounds =
                      subst (λ q. q.consumed.iterations ≤ room q.budget.max_iterations) same
                        sound.iterations_within;
                  over_session = refl;
                  over_events =
                      ap
                        (λ t.
                          t
                          ++ (record { final_status = aborted; calls = s.consumed.tool_calls }
                              ∷ []))
                        (subst (λ q. is_running q.status ≡ true → rest.events ≡ []) same
                          sound.not_told live);
                }),
                (λ e. absurd (cc e)),
                omega (arith, calls),
              )
              | inr timely ↦ rw timely (take_turn-Ended live)
            ])
          ]
