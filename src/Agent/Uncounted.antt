-- ===== src/Agent/Uncounted.antt =====
-- services/intelligence/app/agent_runtime.py: calls of tools that raise are not counted.
use mathlib.Core.Path.{subst}
use holon.Prelude.{
  ℕ, zero, suc, ◌+◌, ◌≡◌, refl, sym, ap, true, false, none, some, List, [], ◌∷◌, ◌++◌, length,
  length-append, ltb, arith,
}
use holon.Prelude.Text.{Text, text_eq}
use holon.Prelude.Table.{Table, get}
use holon.Prelude.Exec.{raised, ◌>>=◌}
use holon.Agent.{
  room, is_reached, is_over, Consumed, Session, ToolUse, Message, user_message, assistant_message,
  user, assistant, Rows,
}
use holon.Agent.Transcript.{messages_from_transcript}
use holon.Agent.Sessions.{is_running}
use holon.Agent.RunTurn.{
  upstream, count, ask_again, conclude, Entry, Response, Outside, tool_uses, list_tools,
  invoke_tool, call_entry, run_tools, act_on, answered, turn_loop, turn_by, take_turn, run_turn,
}
use holon.Agent.Lifecycle.{Op, take, run_op, run_each}

module _ {J : Type 0} (o : Outside J) (s : Session) (tools : Table Text Entry) (r : Response J)
    (u : ToolUse J) (us : List (ToolUse J)) (e : Entry) where
  -- The session has something left, the model answers with calls of tools, and the first one raises.
  pub record IsFailing : Type 0 where
    pub live : is_running s.status ≡ true
    pub listed : list_tools o s.allowed_tools ≡ some tools
    pub answers :
        (messages : List (Message J)) (names : List Text) → o.complete messages names ≡ some r
    pub uses : tool_uses o r.content_blocks ≡ u ∷ us
    pub known : get text_eq u.name tools ≡ some e
    pub fails : invoke_tool o e u.input ≡ none
    pub rounds_left : is_reached s.budget.max_iterations s.consumed.iterations ≡ false
    pub tokens_left :
        is_over s.budget.max_tokens (s.consumed.tokens + (r.input_tokens + r.output_tokens)) ≡ false
    pub calls_left : is_reached s.budget.max_tool_calls s.consumed.tool_calls ≡ false

  abbrev Once : Text → Rows J → Type 0
  Once text rows =
      let after = (run_turn o text rows).1 in
      (after.session ≡ some s) × (after.now ≡ rows.now) × (after.invoked ≡ rows.invoked ++ (u ∷ []))

  module _ (f : IsFailing) where
    abbrev after_loop : Rows J → Rows J
    after_loop rows = record rows {
      turns = rows.turns ++ (assistant r.content_blocks ∷ []);
      invoked = rows.invoked ++ (u ∷ []);
    }

    tools_fail :
        (rows : Rows J) (d : Consumed)
        → d.tool_calls ≡ s.consumed.tool_calls
        → run_tools o s.budget tools (u ∷ us) d rows
          ≡ (raised upstream, record rows { invoked = rows.invoked ++ (u ∷ []) })
    unfolding run_tools call_entry
    tools_fail rows d same = rw (same, f.calls_left, f.known, f.fails) refl

    loop_fails :
        (messages : List (Message J)) (fuel : ℕ) (rows : Rows J)
        → turn_loop o s.budget tools (suc fuel) s.consumed messages rows
          ≡ (raised upstream, after_loop rows)
    unfolding turn_loop answered act_on
    loop_fails messages fuel rows =
        rw (f.rounds_left, f.answers, f.tokens_left, f.uses)
          (ap
            (λ out.
              ((λ (t : Rows J). out)
                  >>= ask_again o s.budget tools (turn_loop o s.budget tools fuel)
                      (messages ++ (assistant_message r.content_blocks ∷ [])))
                rows)
            (tools_fail (record rows { turns = rows.turns ++ (assistant r.content_blocks ∷ []) })
              (count o s.budget tools r s.consumed) refl))

    take_fails :
        (text : Text) (rows : Rows J)
        → rows.session ≡ some s
        → let after =
            (take_turn o
              (λ b tools. turn_loop o b tools (suc (room b.max_iterations)))
              text
              s
              rows).1 in
          (after.session ≡ some s)
          × (after.now ≡ rows.now)
          × (after.invoked ≡ rows.invoked ++ (u ∷ []))
    unfolding take_turn
    take_fails text rows h =
        let messages = messages_from_transcript o.json rows.turns ++ (user_message text ∷ []) in
        let begun = record rows { turns = rows.turns ++ (user text ∷ []) } in
        rw f.listed (
          subst
            (λ out.
              let after = (((λ (t : Rows J). out) >>= conclude o s.chain_trigger) begun).1 in
              (after.session ≡ some s)
              × (after.now ≡ rows.now)
              × (after.invoked ≡ rows.invoked ++ (u ∷ [])))
            (sym (loop_fails messages (room s.budget.max_iterations) begun)) (h, refl, refl))

    once :
        (text : Text) (rows : Rows J)
        → rows.session ≡ some s
        → ltb s.expires_at rows.now ≡ false
        → Once text rows
    unfolding run_turn turn_by
    once text rows h timely =
        subst (λ q. Once text (record rows { session = q })) (sym h)
          (rw (f.live, timely) (take_fails text (record rows { session = some s }) refl))

    -- The same message, so often
    abbrev pub times : ℕ → Text → List (Op J)
    times zero text = []
    times (suc n) text = take o text ∷ times n text

    -- Let a session have iterations, tokens and calls left, and let the model answer with calls of tools
    -- of which the first raises. Then `run_turn` saves nothing of what it consumed, so that any number of
    -- turns n calls the tool n times, whatever `max_tool_calls` is, and the session is as it was.
    pub run_each_uncounted :
        (n : ℕ) (text : Text) (rows : Rows J)
        → rows.session ≡ some s
        → ltb s.expires_at rows.now ≡ false
        → let after = run_each (times n text) rows in
          (after.session ≡ some s) × (length after.invoked ≡ length rows.invoked + n)
    unfolding run_each run_op
    run_each_uncounted zero text rows h timely = (h, omega arith)
    run_each_uncounted (suc n) text rows h timely =
        let one = once text rows h timely in
        let rest = run_each_uncounted n text (run_turn o text rows).1 one.0 (rw one.1 timely) in
        (rest.0, omega (arith, rest.1, ap length one.2, length-append rows.invoked (u ∷ [])))
