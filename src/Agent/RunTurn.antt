-- ===== src/Agent/RunTurn.antt =====
-- services/intelligence/app/agent_runtime.py: the tools of a session and `run_turn`. The model, the
-- ontology API, the sandbox and the registry of plugins are parameters. Time stands still in a turn.
use holon.Prelude.{
  ℕ, zero, suc, ◌+◌, Bool, true, false, Option, none, some, List, [], ◌∷◌, ◌++◌, ltb, any, filter,
  if◌then◌else◌, ◌==◌,
}
use holon.Prelude.Text.{Text, text_eq}
use holon.Prelude.Table.{Table, get, upsert}
use holon.Prelude.Exec.{Exec, pure, raise, raise_if, gets, modify, require, ◌>>=◌, ◌>>◌}
use holon.Agent.{
  room, is_reached, is_over, Json, completed, aborted, Budget, Consumed, Session, ToolUse,
  ToolResult, unknown_tool, reply, plugin_error, Block, prose, use_tool, Turn, user, assistant,
  tool, Message, user_message, assistant_message, tool_results, Rows,
}
use holon.Agent.Sessions.{finish_session, update_session, is_running}
use holon.Agent.Transcript.{texts, messages_from_transcript}

-- `fuel_ran_out` is the model's own; `upstream` is an exception of a call outside.
pub data TurnError : Type 0 where
  no_session : TurnError
  not_running : TurnError
  ttl_expired : TurnError
  over_iterations : TurnError
  over_tokens : TurnError
  over_tool_calls : TurnError
  upstream : TurnError
  fuel_ran_out : TurnError

pub data Entry : Type 0 where
  knowledge_action : Text → Text → Entry
  agent_tool_plugin : Text → Entry

pub record ActionListing : Type 0 where
  pub action_name : Text
  pub target_object_type : Text

module _ (J : Type 0) where
  pub record Response : Type 0 where
    pub text : Text
    pub input_tokens : ℕ
    pub output_tokens : ℕ
    pub content_blocks : List (Block J)

  -- What the calls outside give: `none` where they raise. Plugins are pairs of the tool's name and its
  -- entry point; `sandbox` gives `none` for a PluginSandboxError.
  pub record Outside : Type 0 where
    pub actions : Option (List ActionListing)
    pub plugins : Option (List (Text × Text))
    pub complete : List (Message J) → List Text → Option Response
    pub post : Text → Text → J → Option (ℕ × J)
    pub sandbox : Text → J → Option J
    pub json : Json J

-- `name.replace(".", "_")`
abbrev tool_name : Text → Text
tool_name [] = []
tool_name (c ∷ name) = (if c == 46 then 95 else c) ∷ tool_name name

abbrev action_tools : List ActionListing → Table Text Entry → Table Text Entry
action_tools [] tools = tools
action_tools (a ∷ actions) tools = action_tools actions (
    upsert text_eq (tool_name a.action_name) (knowledge_action a.action_name a.target_object_type)
      tools)

abbrev plugin_tools : List (Text × Text) → Table Text Entry → Table Text Entry
plugin_tools [] tools = tools
plugin_tools ((name, entry_point) ∷ plugins) tools =
    plugin_tools plugins (upsert text_eq name (agent_tool_plugin entry_point) tools)

abbrev only : Option (List Text) → Table Text Entry → Table Text Entry
only none tools = tools
only (some allowed) tools = filter (λ t. any (λ a. text_eq a t.0) allowed) tools

abbrev pub names_of : Table Text Entry → List Text
names_of [] = []
names_of ((name, e) ∷ tools) = name ∷ names_of tools

module _ {J : Type 0} (o : Outside J) where
  -- `_list_tools`: the entries by the names of the tools
  unfoldable pub list_tools : Option (List Text) → Option (Table Text Entry)
  unfolding upsert filter
  list_tools allowed = elim o.actions [
    | none ↦ none
    | some actions ↦ elim o.plugins [
      | none ↦ none
      | some plugins ↦ some (only allowed (plugin_tools plugins (action_tools actions [])))
    ]
  ]

  abbrev pub tool_uses : List (Block J) → List (ToolUse J)
  tool_uses [] = []
  tool_uses (prose t ∷ blocks) = tool_uses blocks
  tool_uses (use_tool u ∷ blocks) = u ∷ tool_uses blocks

  abbrev posted : Option (ℕ × J) → Option (ToolResult J)
  posted none = none
  posted (some (status_code, body)) = some (reply status_code body)

  abbrev sandboxed : Option J → ToolResult J
  sandboxed none = plugin_error
  sandboxed (some body) = reply 200 body

  -- `_invoke_tool`
  unfoldable pub invoke_tool : Entry → J → Option (ToolResult J)
  invoke_tool (agent_tool_plugin entry_point) input = some (sandboxed (o.sandbox entry_point input))
  invoke_tool (knowledge_action name target) input = posted (o.post target name input)

  record_turn : Turn J → Exec TurnError (Rows J) (Unit {0})
  record_turn t = modify (λ rows. record rows { turns = rows.turns ++ (t ∷ []) })

  -- The entry is called; it counts as called also if the call raises.
  unfoldable pub call_entry : Option Entry → ToolUse J → Exec TurnError (Rows J) (ToolResult J)
  unfolding invoke_tool
  call_entry none u = pure (unknown_tool u.name)
  call_entry (some e) u = do
    _ ← modify (λ rows. record rows { invoked = rows.invoked ++ (u ∷ []) })
    require (invoke_tool e u.input) upstream

  -- `_finish_session` and the ValueError after it
  unfoldable pub abort_with : {A : Type 0} → TurnError → Consumed → Exec TurnError (Rows J) A
  unfolding finish_session
  abort_with e c = modify (finish_session aborted c) >> raise e

  module _ (b : Budget) (tools : Table Text Entry) where
    -- The calls of one answer, and their results
    unfoldable pub run_tools :
        List (ToolUse J)
        → Consumed
        → Exec TurnError (Rows J) (Consumed × List (Text × ToolResult J))
    unfolding record_turn
    run_tools [] c = pure (c, [])
    run_tools (u ∷ us) c =
        let go = do
          result ← call_entry (get text_eq u.name tools) u
          _ ← record_turn (tool u.id result)
          rest ← run_tools us (record c { tool_calls = c.tool_calls + 1 })
          pure (rest.0, (u.id, result) ∷ rest.1)
        in if is_reached b.max_tool_calls c.tool_calls then abort_with over_tool_calls c else go

    unfoldable pub save_consumed : Consumed → Exec TurnError (Rows J) (Unit {0})
    save_consumed c = modify (λ rows. record rows {
      session = update_session (λ s. record s { consumed = c }) rows.session;
    })

    abbrev pub count : Response J → Consumed → Consumed
    count r c = record c {
      iterations = c.iterations + 1;
      tokens = c.tokens + (r.input_tokens + r.output_tokens);
    }

    -- What a turn gives: the text of the last answer, what is consumed, and the messages.
    abbrev pub Answer : Type 0
    Answer = Text × Consumed × List (Message J)

    -- The model is asked again, with the results of the tools.
    unfoldable pub ask_again :
        (Consumed → List (Message J) → Exec TurnError (Rows J) Answer)
        → List (Message J)
        → Consumed × List (Text × ToolResult J)
        → Exec TurnError (Rows J) Answer
    unfolding save_consumed
    ask_again again messages (c, results) =
        save_consumed c >> again c (messages ++ (tool_results (texts o.json.dumps results) ∷ []))

    -- The answer ends the turn, or its tools run.
    unfoldable pub act_on :
        (Consumed → List (Message J) → Exec TurnError (Rows J) Answer)
        → Text
        → List (ToolUse J)
        → Consumed
        → List (Message J)
        → Exec TurnError (Rows J) Answer
    act_on again text [] c messages = pure (text, c, messages)
    act_on again text (u ∷ us) c messages = run_tools (u ∷ us) c >>= ask_again again messages

    unfoldable pub answered :
        (Consumed → List (Message J) → Exec TurnError (Rows J) Answer)
        → Consumed
        → List (Message J)
        → Response J
        → Exec TurnError (Rows J) Answer
    unfolding record_turn
    answered again c messages r =
        if is_over b.max_tokens (count r c).tokens
        then abort_with over_tokens (count r c)
        else record_turn (assistant r.content_blocks)
          >> act_on again r.text (tool_uses r.content_blocks) (count r c)
              (messages ++ (assistant_message r.content_blocks ∷ []))

    -- The `while True` of `run_turn`
    unfoldable pub turn_loop : ℕ → Consumed → List (Message J) → Exec TurnError (Rows J) Answer
    turn_loop zero c messages = raise fuel_ran_out
    turn_loop (suc fuel) c messages =
        let go =
          require (o.complete messages (names_of tools)) upstream
          >>= answered (turn_loop fuel) c messages in
        if is_reached b.max_iterations c.iterations then abort_with over_iterations c else go

  -- The end of a turn: the sliding time to live, and the end of a session that is one turn long
  unfoldable pub close_turn : Bool → Consumed → Exec TurnError (Rows J) (Unit {0})
  unfolding finish_session
  close_turn chain_trigger c = do
    _ ← modify (λ rows. record rows {
      session =
          update_session (λ s. record s { consumed = c; expires_at = rows.now + 900 }) rows.session;
    })
    if chain_trigger then modify (finish_session completed c) else pure tt

  unfoldable pub conclude :
      Bool → Text × Consumed × List (Message J) → Exec TurnError (Rows J) (Text × Consumed)
  conclude chain_trigger (text, c, messages) = close_turn chain_trigger c >> pure (text, c)

  -- `run_turn` around its loop, which is given the budget, the tools, what is consumed and the messages
  module _
      (loop : Budget
        → Table Text Entry
        → Consumed
        → List (Message J)
        → Exec TurnError (Rows J) (Text × Consumed × List (Message J))) where
    -- A turn of a session that is running and not expired
    unfoldable pub take_turn : Text → Session → Exec TurnError (Rows J) (Text × Consumed)
    unfolding record_turn
    take_turn text s = do
      prior ← gets (λ rows. messages_from_transcript o.json rows.turns)
      _ ← record_turn (user text)
      tools ← require (list_tools s.allowed_tools) upstream
      loop s.budget tools s.consumed (prior ++ (user_message text ∷ []))
          >>= conclude s.chain_trigger

    unfoldable pub turn_by : Text → Exec TurnError (Rows J) (Text × Consumed)
    turn_by text = do
      found ← gets (λ rows. rows.session)
      s ← require found no_session
      _ ← raise_if (if is_running s.status then false else true) not_running
      now ← gets (λ rows. rows.now)
      if ltb s.expires_at now then abort_with ttl_expired s.consumed else take_turn text s

  -- The loop has one round more than the budget has iterations, for the test that ends it.
  unfoldable pub run_turn : Text → Exec TurnError (Rows J) (Text × Consumed)
  run_turn = turn_by (λ b tools. turn_loop b tools (suc (room b.max_iterations)))
