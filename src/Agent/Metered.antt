-- ===== src/Agent/Metered.antt =====
-- services/intelligence/app/agent_runtime.py: what a turn consumes, and that it ends.
use holon.Prelude.{
  ℕ, zero, suc, ◌+◌, ◌≤◌, ◌<◌, ◌≡◌, refl, ap, ◌∙◌, some, List, [], ◌∷◌, ◌++◌, length, Bool-cases,
  Option-cases, inl, inr, arith,
}
use holon.Prelude.Text.{Text}
use holon.Prelude.Table.{Table}
use holon.Prelude.Exec.{Outcome, returned, raised, Exec, ◌>>=◌}
use holon.Agent.{
  room, is_reached, is_over, is_reached-false, is_over-false, aborted, Budget, Consumed, Session,
  SessionCompleted, ToolUse, ToolResult, Message, tool_results, assistant_message, assistant, Rows,
}
use holon.Agent.Sessions.{update_session, finish_session}
use holon.Agent.Tools.{Ran, run_tools-Ran}
use holon.Agent.Transcript.{texts}
use holon.Agent.RunTurn.{
  TurnError, no_session, not_running, ttl_expired, over_iterations, over_tokens, over_tool_calls,
  upstream, fuel_ran_out, Entry, Outside, tool_uses, count, abort_with, run_tools, names_of, Answer,
  ask_again, act_on, answered, turn_loop,
}

pub record IsWithin (b : Budget) (c : Consumed) : Type 0 where
  pub iterations_within : c.iterations ≤ room b.max_iterations
  pub calls_within : c.tool_calls ≤ room b.max_tool_calls
  pub tokens_within : c.tokens ≤ room b.max_tokens

module _ {J : Type 0} where
  -- The session is as it was but for what it consumed, and no event was written.
  pub record IsLive (s : Session) (events : List SessionCompleted) (after : Rows J) : Type 0 where
    pub saved : Consumed
    pub saved_within : IsWithin s.budget saved
    pub session_is : after.session ≡ some (record s { consumed = saved })
    pub events_are : after.events ≡ events

  -- The session was aborted, and one event says so. The last answer may have taken more tokens than
  -- the budget has.
  pub record IsOver (s : Session) (events : List SessionCompleted) (d : Consumed) (after : Rows J)
      : Type 0 where
    pub over_calls : d.tool_calls ≤ room s.budget.max_tool_calls
    pub over_rounds : d.iterations ≤ room s.budget.max_iterations
    pub over_session : after.session ≡ some (record s { status = aborted; consumed = d })
    pub over_events :
        after.events ≡ events ++ (record { final_status = aborted; calls = d.tool_calls } ∷ [])

  -- A state in a turn: `c` is consumed, and the tools were called `n` times before, `m` now.
  abbrev pub Calls : Consumed → ℕ → Consumed → Rows J → Type 0
  Calls c n d after = length after.invoked + c.tool_calls ≤ n + d.tool_calls

  -- What holds after a part of a turn, by its outcome.
  abbrev pub Turned :
      Session
      → List SessionCompleted
      → Consumed
      → ℕ
      → Outcome TurnError (Text × Consumed × List (Message J))
      → Rows J
      → Type 0
  Turned s events c n (returned (text, d, messages)) after =
      IsLive s events after × IsWithin s.budget d × Calls c n d after
  Turned s events c n (raised upstream) after =
      IsLive s events after
      × (length after.invoked + c.tool_calls ≤ n + room s.budget.max_tool_calls)
  Turned s events c n (raised over_iterations) after =
      (d : Consumed) × IsOver s events d after × Calls c n d after
  Turned s events c n (raised over_tokens) after =
      (d : Consumed) × IsOver s events d after × Calls c n d after
  Turned s events c n (raised over_tool_calls) after =
      (d : Consumed) × IsOver s events d after × Calls c n d after
  Turned s events c n (raised no_session) after = ⊥
  Turned s events c n (raised not_running) after = ⊥
  Turned s events c n (raised ttl_expired) after = ⊥
  Turned s events c n (raised fuel_ran_out) after = ⊥

  -- An earlier count of calls
  Turned-earlier :
      (s : Session) (events : List SessionCompleted) (c c' : Consumed) (n n' : ℕ)
      (r : Outcome TurnError (Text × Consumed × List (Message J))) (after : Rows J)
      → n' + c.tool_calls ≤ n + c'.tool_calls
      → Turned s events c' n' r after
      → Turned s events c n r after
  Turned-earlier s events c c' n n' (returned (text, d, messages)) after k h =
      (h.0, h.1, omega (arith, h.2, k))
  Turned-earlier s events c c' n n' (raised upstream) after k h = (h.0, omega (arith, h.1, k))
  Turned-earlier s events c c' n n' (raised over_iterations) after k h =
      (h.0, h.1, omega (arith, h.2, k))
  Turned-earlier s events c c' n n' (raised over_tokens) after k h =
      (h.0, h.1, omega (arith, h.2, k))
  Turned-earlier s events c c' n n' (raised over_tool_calls) after k h =
      (h.0, h.1, omega (arith, h.2, k))
  Turned-earlier s events c c' n n' (raised no_session) after k h = h
  Turned-earlier s events c c' n n' (raised not_running) after k h = h
  Turned-earlier s events c c' n n' (raised ttl_expired) after k h = h
  Turned-earlier s events c c' n n' (raised fuel_ran_out) after k h = h

  module _ (o : Outside J) (s : Session) (events : List SessionCompleted)
      (tools : Table Text Entry) where
    abbrev pub Round :
        (Consumed → List (Message J) → Exec TurnError (Rows J) (Answer o s.budget tools))
        → Consumed
        → List (Message J)
        → Rows J
        → Type 0
    Round again c messages rows =
        let out = again c messages rows in Turned s events c (length rows.invoked) out.0 out.1

    module _
        (again : Consumed → List (Message J) → Exec TurnError (Rows J) (Answer o s.budget tools))
        (c : Consumed)
        (next : (d : Consumed) (messages : List (Message J)) (rows : Rows J)
          → IsWithin s.budget d
          → d.iterations ≡ c.iterations
          → IsLive s events rows
          → Round again d messages rows) where
      -- After the tools of an answer
      Ran-Turned :
          (messages : List (Message J)) (k : ℕ) (rows after : Rows J)
          (r : Outcome TurnError (Consumed × List (Text × ToolResult J)))
          → IsWithin s.budget c
          → IsLive s events rows
          → Ran s.budget c k rows r after
          → let out =
              ((λ (t : Rows J). (r, t)) >>= ask_again o s.budget tools again messages) after in
            Turned s events c (length rows.invoked) out.0 out.1
      unfolding ask_again
      Ran-Turned messages k rows after (returned (d, results)) w l h =
          let within : IsWithin s.budget d = ground (arith, w, h.1) in
          let saved = record after {
            session = update_session (λ q. record q { consumed = d }) after.session;
          } in
          let live : IsLive s events saved = record {
            saved = d;
            saved_within = within;
            session_is =
                ap (update_session (λ q. record q { consumed = d }))
                  (h.0.same_session ∙ l.session_is);
            events_are = h.0.same_events ∙ l.events_are;
          } in
          let m = messages ++ (tool_results (texts o.json.dumps results) ∷ []) in
          let out = again d m saved in
          Turned-earlier s events c d (length rows.invoked) (length after.invoked) out.0 out.1
            h.1.counted (next d m saved within h.1.same_iterations live)
      Ran-Turned messages k rows after (raised upstream) w l h = (
        record {
          saved = l.saved;
          saved_within = l.saved_within;
          session_is = h.0.same_session ∙ l.session_is;
          events_are = h.0.same_events ∙ l.events_are;
        },
        omega (arith, h.1, w),
      )
      Ran-Turned messages k rows after (raised over_tool_calls) w l h =
          let d = h.0 in
          (
            d,
            record {
              over_calls = omega (arith, h.2.bounded, w);
              over_rounds = omega (arith, h.2.same_iterations, w);
              over_session =
                  h.1.closed
                  ∙ ap (update_session (λ q. record q { status = aborted; consumed = d }))
                      l.session_is;
              over_events =
                  h.1.told
                  ∙ ap (λ e. e ++ (record { final_status = aborted; calls = d.tool_calls } ∷ []))
                      l.events_are;
            },
            h.2.counted,
          )
      Ran-Turned messages k rows after (raised no_session) w l h = absurd h
      Ran-Turned messages k rows after (raised not_running) w l h = absurd h
      Ran-Turned messages k rows after (raised ttl_expired) w l h = absurd h
      Ran-Turned messages k rows after (raised over_iterations) w l h = absurd h
      Ran-Turned messages k rows after (raised over_tokens) w l h = absurd h
      Ran-Turned messages k rows after (raised fuel_ran_out) w l h = absurd h

      act_on-Turned :
          (text : Text) (us : List (ToolUse J)) (messages : List (Message J)) (rows : Rows J)
          → IsWithin s.budget c
          → IsLive s events rows
          → Round (act_on o s.budget tools again text us) c messages rows
      unfolding act_on
      act_on-Turned text [] messages rows w l = (l, w, omega arith)
      act_on-Turned text (u ∷ us) messages rows w l =
          let out = run_tools o s.budget tools (u ∷ us) c rows in
          Ran-Turned messages (length (u ∷ us)) rows out.1 out.0 w l
            (run_tools-Ran o s.budget tools (u ∷ us) c rows)

    abort_with-Turned :
        (c : Consumed) (d : Consumed) (rows : Rows J)
        → d.tool_calls ≡ c.tool_calls
        → c.tool_calls ≤ room s.budget.max_tool_calls
        → d.iterations ≤ room s.budget.max_iterations
        → IsLive s events rows
        → (x : Consumed) × IsOver s events x (finish_session aborted d rows)
          × Calls c (length rows.invoked) x rows
    unfolding finish_session
    abort_with-Turned c d rows e k i l = (
      d,
      record {
        over_calls = omega (arith, e, k);
        over_rounds = i;
        over_session =
            ap (update_session (λ q. record q { status = aborted; consumed = d })) l.session_is;
        over_events =
            ap (λ t. t ++ (record { final_status = aborted; calls = d.tool_calls } ∷ []))
              l.events_are;
      },
      omega (arith, e),
    )

    pub turn_loop-Turned :
        (fuel : ℕ) (c : Consumed) (messages : List (Message J)) (rows : Rows J)
        → room s.budget.max_iterations < fuel + c.iterations
        → IsWithin s.budget c
        → IsLive s events rows
        → Round (turn_loop o s.budget tools fuel) c messages rows
    unfolding turn_loop answered abort_with
    turn_loop-Turned zero c messages rows f w l = absurd (omega (arith, f, w))
    turn_loop-Turned (suc fuel) c messages rows f w l =
        elim (Bool-cases (is_reached s.budget.max_iterations c.iterations)) [
          | inl over ↦
              rw over (abort_with-Turned c c rows refl w.calls_within w.iterations_within l)
          | inr low ↦ rw low (elim (Option-cases (o.complete messages (names_of tools))) [
            | inl fails ↦ rw fails (l, omega (arith, w))
            | inr (r, works) ↦
                rw works
                  (elim (Bool-cases
                    (is_over s.budget.max_tokens (c.tokens + (r.input_tokens + r.output_tokens)))) [
                      | inl many ↦ rw many (
                          abort_with-Turned c (count o s.budget tools r c) rows refl w.calls_within
                            (ground
                              (arith, is_reached-false s.budget.max_iterations c.iterations low))
                            l)
                      | inr few ↦ rw few (
                          let d = count o s.budget tools r c in
                          let within : IsWithin s.budget d = ground (
                            arith,
                            w,
                            is_reached-false s.budget.max_iterations c.iterations low,
                            is_over-false s.budget.max_tokens
                                (c.tokens + (r.input_tokens + r.output_tokens)) few,
                          ) in
                          let answered_rows = record rows {
                            turns = rows.turns ++ (assistant r.content_blocks ∷ []);
                          } in
                          let m = messages ++ (assistant_message r.content_blocks ∷ []) in
                          let out =
                            act_on o s.budget tools (turn_loop o s.budget tools fuel) r.text
                              (tool_uses o r.content_blocks) d m answered_rows in
                          Turned-earlier s events c d (length rows.invoked) (length rows.invoked)
                            out.0 out.1 (omega arith)
                            (act_on-Turned (turn_loop o s.budget tools fuel) d
                              (λ e ms q within' same live.
                                turn_loop-Turned fuel e ms q (omega (arith, f, same)) within' live)
                              r.text (tool_uses o r.content_blocks) m answered_rows within
                              (ground (arith, l))))
                    ])
          ])
        ]
