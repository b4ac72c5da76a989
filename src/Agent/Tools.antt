-- ===== src/Agent/Tools.antt =====
-- services/intelligence/app/agent_runtime.py: what the tools of one answer leave behind.
use holon.Prelude.{
  ◌<◌, ℕ, suc, ◌+◌, ◌≤◌, max, ◌≡◌, refl, sym, ◌∙◌, Option, none, some, List, [], ◌∷◌, ◌++◌,
  append_assoc, append-nil, length, length-append, Bool-cases, Option-cases, inl, inr, arith,
}
use holon.Prelude.Text.{Text, text_eq}
use holon.Prelude.Table.{Table, get}
use holon.Prelude.Exec.{Outcome, returned, raised, Exec, pure, modify, ◌>>=◌, ◌>>◌}
use holon.Agent.{
  room, is_reached, is_reached-false, aborted, Budget, Consumed, ToolUse, ToolResult, unknown_tool,
  Turn, tool, Rows,
}
use holon.Agent.Sessions.{update_session}
use holon.Agent.RunTurn.{
  TurnError, no_session, not_running, ttl_expired, over_iterations, over_tokens, over_tool_calls,
  upstream, fuel_ran_out, Entry, Outside, invoke_tool, call_entry, abort_with, run_tools,
}

abbrev one_more : Consumed → Consumed
one_more c = record c { tool_calls = c.tool_calls + 1 }

module _ {J : Type 0} where
  abbrev pub tool_turns : List (Text × ToolResult J) → List (Turn J)
  tool_turns [] = []
  tool_turns ((id, result) ∷ results) = tool id result ∷ tool_turns results

  -- The session and the outbox are as they were.
  pub record IsOpen (rows after : Rows J) : Type 0 where
    pub same_session : after.session ≡ rows.session
    pub same_events : after.events ≡ rows.events
    pub same_now : after.now ≡ rows.now

  -- The session was aborted with this consumption, and an event says so.
  pub record IsAborted (c : Consumed) (rows after : Rows J) : Type 0 where
    pub closed :
        after.session
        ≡ update_session (λ s. record s { status = aborted; consumed = c }) rows.session
    pub told :
        after.events ≡ rows.events ++ (record { final_status = aborted; calls = c.tool_calls } ∷ [])
    pub now_kept : after.now ≡ rows.now

  -- From `c` to `d` at most the budget's tools were called, each counted.
  pub record IsMetered (b : Budget) (c d : Consumed) (rows after : Rows J) : Type 0 where
    pub counted : length after.invoked + c.tool_calls ≤ length rows.invoked + d.tool_calls
    pub bounded : d.tool_calls ≤ max (room b.max_tool_calls) c.tool_calls
    pub same_iterations : d.iterations ≡ c.iterations
    pub same_tokens : d.tokens ≡ c.tokens

  -- What holds after `run_tools`, by its outcome.
  abbrev pub Ran :
      Budget
      → Consumed
      → ℕ
      → Rows J
      → Outcome TurnError (Consumed × List (Text × ToolResult J))
      → Rows J
      → Type 0
  Ran b c n rows (returned (d, results)) after =
      IsOpen rows after
      × IsMetered b c d rows after
      × (after.turns ≡ rows.turns ++ tool_turns results)
      × (length results ≡ n)
  Ran b c n rows (raised upstream) after =
      IsOpen rows after
      × (length after.invoked + c.tool_calls
          ≤ length rows.invoked + max (room b.max_tool_calls) c.tool_calls)
  Ran b c n rows (raised over_tool_calls) after =
      (d : Consumed) × IsAborted d rows after × IsMetered b c d rows after
  Ran b c n rows (raised e) after = ⊥

  abbrev with_result : ToolUse J → ToolResult J → Rows J → List (ToolUse J) → Rows J
  with_result u result rows invoked = record rows {
    invoked = invoked;
    turns = rows.turns ++ (tool u.id result ∷ []);
  }

  abbrev prepend :
      ToolUse J
      → ToolResult J
      → Consumed × List (Text × ToolResult J)
      → Exec TurnError (Rows J) (Consumed × List (Text × ToolResult J))
  prepend u result rest = pure (rest.0, (u.id, result) ∷ rest.1)

  -- One call before the others: it was called once at most.
  Ran-prepend :
      (b : Budget) (c : Consumed) (n : ℕ) (u : ToolUse J) (result : ToolResult J)
      (invoked : List (ToolUse J)) (rows after : Rows J)
      (r : Outcome TurnError (Consumed × List (Text × ToolResult J)))
      → c.tool_calls < room b.max_tool_calls
      → length invoked ≤ length rows.invoked + 1
      → Ran b (one_more c) n (with_result u result rows invoked) r after
      → let out = ((λ (s : Rows J). (r, s)) >>= prepend u result) after in
        Ran b c (suc n) rows out.0 out.1
  Ran-prepend b c n u result invoked rows after (returned (d, results)) low few h = (
    ground (arith, h.0),
    ground (arith, low, few, h.1),
    h.2 ∙ append_assoc rows.turns (tool u.id result ∷ []) (tool_turns results),
    omega (arith, h.3),
  )
  Ran-prepend b c n u result invoked rows after (raised upstream) low few h =
      ground (arith, low, few, h)
  Ran-prepend b c n u result invoked rows after (raised over_tool_calls) low few h =
      (h.0, ground (arith, h.1), ground (arith, low, few, h.2))
  Ran-prepend b c n u result invoked rows after (raised no_session) low few h = h
  Ran-prepend b c n u result invoked rows after (raised not_running) low few h = h
  Ran-prepend b c n u result invoked rows after (raised ttl_expired) low few h = h
  Ran-prepend b c n u result invoked rows after (raised over_iterations) low few h = h
  Ran-prepend b c n u result invoked rows after (raised over_tokens) low few h = h
  Ran-prepend b c n u result invoked rows after (raised fuel_ran_out) low few h = h

  module _ (o : Outside J) (b : Budget) (tools : Table Text Entry) where
    abbrev RanTools : List (ToolUse J) → Consumed → Rows J → Type 0
    RanTools us c rows =
        let out = run_tools o b tools us c rows in Ran b c (length us) rows out.0 out.1

    Ran-step :
        (u : ToolUse J) (us : List (ToolUse J)) (c : Consumed) (rows : Rows J) (e : Option Entry)
        → c.tool_calls < room b.max_tool_calls
        → ((rows' : Rows J) → RanTools us (one_more c) rows')
        → let out =
            (call_entry o e u >>= λ result.
            (modify (λ (r : Rows J). record r { turns = r.turns ++ (tool u.id result ∷ []) })
              >> run_tools o b tools us (one_more c))
            >>= prepend u result)
              rows in
          Ran b c (suc (length us)) rows out.0 out.1
    unfolding call_entry
    Ran-step u us c rows none low rest =
        let rows1 = with_result u (unknown_tool u.name) rows rows.invoked in
        let out = run_tools o b tools us (one_more c) rows1 in
        Ran-prepend b c (length us) u (unknown_tool u.name) rows.invoked rows out.1 out.0 low
          (omega arith) (rest rows1)
    Ran-step u us c rows (some e) low rest =
        let invoked = rows.invoked ++ (u ∷ []) in
        let few : length invoked ≤ length rows.invoked + 1 =
          omega (arith, length-append rows.invoked (u ∷ [])) in
        elim (Option-cases (invoke_tool o e u.input)) [
          | inl fails ↦ rw fails (ground arith, ground (arith, low, few))
          | inr (result, works) ↦ rw works (
              let rows1 = with_result u result rows invoked in
              let out = run_tools o b tools us (one_more c) rows1 in
              Ran-prepend b c (length us) u result invoked rows out.1 out.0 low few (rest rows1))
        ]

    -- The tools of an answer.
    pub run_tools-Ran : (us : List (ToolUse J)) (c : Consumed) (rows : Rows J) → RanTools us c rows
    unfolding run_tools abort_with
    run_tools-Ran [] c rows = (ground arith, ground arith, sym (append-nil rows.turns), refl)
    run_tools-Ran (u ∷ us) c rows = elim (Bool-cases (is_reached b.max_tool_calls c.tool_calls)) [
      | inl over ↦ rw over (c, ground arith, ground arith)
      | inr low ↦ rw low (
          Ran-step u us c rows (get text_eq u.name tools)
            (is_reached-false b.max_tool_calls c.tool_calls low) (run_tools-Ran us (one_more c)))
    ]
