-- ===== src/Agent/Examples.antt =====
-- An agent with one Action and one plugin; the model calls the Action once and then answers.
use holon.Prelude.{
  ℕ, ◌≡◌, refl, Bool, true, false, Option, none, some, List, [], ◌∷◌, ◌++◌, length, filter,
}
use holon.Prelude.Text.{Text, codes}
use holon.Prelude.Table.{Table, get, upsert}
use holon.Prelude.Exec.{returned, raised}
use holon.Agent.{
  negsuc, is_reached, is_over, room, pos, running, completed, Session, ToolUse, ToolResult,
  unknown_tool, reply, plugin_error, prose, use_tool, user, assistant, tool, Message, user_message,
  assistant_message, tool_results, Rows,
}
use holon.Agent.Sessions.{absent, integer, SessionRequest, capped, full_budget, create_session}
use holon.Agent.Transcript.{rebuild, messages_from_transcript}
use holon.Agent.RunTurn.{
  over_tool_calls, abort_with, Entry, knowledge_action, Response, Outside, list_tools, invoke_tool,
  call_entry, run_tools, ask_again, act_on, answered, turn_loop, close_turn, conclude, take_turn,
  turn_by, run_turn,
}
use holon.Agent.Ended.{IsSound, Ended}
use holon.Agent.Lifecycle.{
  take, sweep, wait, run_each, SameButTime, run_turn-Ended, run_each-IsSound, run_each-SameButTime,
}
use holon.Agent.Uncounted.{IsFailing, times, run_each_uncounted}

abbrev flag : ToolUse ℕ
flag = record { id = codes "t1"; name = codes "order_flag"; input = 4 }

abbrev calling : Response ℕ
calling = record {
  text = [];
  input_tokens = 100;
  output_tokens = 20;
  content_blocks = prose (codes "flagging") ∷ use_tool flag ∷ [];
}

abbrev saying : Response ℕ
saying = record {
  text = codes "done";
  input_tokens = 130;
  output_tokens = 5;
  content_blocks = prose (codes "done") ∷ [];
}

-- The last message is one of results.
abbrev has_results : List (Message ℕ) → Bool
has_results [] = false
has_results (tool_results r ∷ []) = true
has_results (user_message t ∷ []) = false
has_results (assistant_message b ∷ []) = false
has_results (m ∷ n ∷ messages) = has_results (n ∷ messages)

abbrev dump : ToolResult ℕ → Text
dump (unknown_tool name) = codes "{error}" ++ name
dump (reply status body) = codes "{status_code}" ++ (status ∷ body ∷ [])
dump plugin_error = codes "{error}"

abbrev world : Option (ℕ × ℕ) → Outside ℕ
world posted = record {
  actions =
      some (record { action_name = codes "order.flag"; target_object_type = codes "order" } ∷ []);
  plugins = some ((codes "calc", codes "plugins:calc") ∷ []);
  complete =
      λ messages names. elim (has_results messages) [ true ↦ some saying | false ↦ some calling ];
  post = λ name target input. posted;
  sandbox = λ entry input. none;
  json = record { dumps = dump; dumps_stored = dump; reload = λ block. block };
}

abbrev request : SessionRequest
request = record {
  wanted = record {
    iterations_wanted = integer (pos 400);
    tool_calls_wanted = integer (pos 1);
    tokens_wanted = absent;
  };
  ttl_seconds = none;
  depth = 0;
  is_chained = false;
  depth_limit = 10;
  tools = some (codes "order_flag" ∷ []);
}

abbrev fresh : Session
fresh = record {
  status = running;
  budget = record { max_iterations = pos 20; max_tool_calls = pos 1; max_tokens = pos 50_000 };
  consumed = record { iterations = 0; tool_calls = 0; tokens = 0 };
  expires_at = 1_000;
  chain_trigger = false;
  causation_depth = 0;
  max_chain_depth = 10;
  allowed_tools = some (codes "order_flag" ∷ []);
}

abbrev begun : Rows ℕ
begun = record { session = some fresh; turns = []; events = []; invoked = []; now = 100 }

created : create_session request 100 ≡ some begun
unfolding create_session full_budget capped
created = refl

abbrev no_calls : SessionRequest
no_calls = record request {
  wanted = record request.wanted { tool_calls_wanted = integer (negsuc 0) };
}

-- A limit of -1 is stored, and the first call of a tool aborts the session.
negative :
    let o = world (some (200, 7)) in
    elim (create_session {J = ℕ} no_calls 100) as (λ _. Type 0) [
      | none ↦ ⊥
      | some rows ↦ (run_turn o (codes "hi") rows).0 ≡ raised over_tool_calls
    ]
unfolding create_session full_budget capped run_turn turn_by take_turn list_tools get upsert filter
    turn_loop answered act_on run_tools abort_with messages_from_transcript rebuild is_reached
    is_over room
negative = refl

one_turn :
    let out = run_turn (world (some (200, 7))) (codes "hi") begun in
    (out.0 ≡ returned (codes "done", record { iterations = 2; tool_calls = 1; tokens = 255 }))
    × (out.1.turns
        ≡ user (codes "hi")
          ∷ assistant calling.content_blocks
          ∷ tool (codes "t1") (reply 200 7)
          ∷ assistant saying.content_blocks
          ∷ [])
unfolding run_turn turn_by take_turn list_tools get upsert filter turn_loop answered act_on
    ask_again run_tools call_entry invoke_tool conclude close_turn messages_from_transcript rebuild
    is_reached is_over room
one_turn = (refl, refl)

run_turn-Ended_example :
    let sound = run_each-IsSound request 100 [] begun created in
    let out = run_turn (world none) (codes "hi") (run_each [] begun) in
    Ended sound.row (length (run_each {J = ℕ} [] begun).invoked) out.0 out.1
run_turn-Ended_example =
    run_turn-Ended (world none) (codes "hi") (run_each [] begun)
      (run_each-IsSound request 100 [] begun created)

run_each-IsSound_example :
    IsSound (run_each (take (world none) (codes "hi") ∷ wait 1_000 ∷ sweep ∷ []) begun)
run_each-IsSound_example =
    run_each-IsSound request 100 (take (world none) (codes "hi") ∷ wait 1_000 ∷ sweep ∷ []) begun
      created

abbrev ended : Rows ℕ
ended = record begun { session = some (record fresh { status = completed }) }

run_each-SameButTime_example :
    SameButTime ended (run_each (take (world none) (codes "hi") ∷ sweep ∷ []) ended)
run_each-SameButTime_example =
    run_each-SameButTime (take (world none) (codes "hi") ∷ sweep ∷ []) ended
      (record fresh { status = completed }, refl, refl)

-- The model calls the tool again and again, and the call raises.
abbrev stuck : Outside ℕ
stuck = record (world none) { complete = λ messages names. some calling }

abbrev tools : Table Text Entry
tools = (codes "order_flag", knowledge_action (codes "order.flag") (codes "order")) ∷ []

failing :
    IsFailing stuck fresh tools calling flag []
      (knowledge_action (codes "order.flag") (codes "order"))
unfolding list_tools upsert filter get invoke_tool is_reached is_over
failing = record {
  live = refl;
  listed = refl;
  answers = λ messages names. refl;
  uses = refl;
  known = refl;
  fails = refl;
  rounds_left = refl;
  tokens_left = refl;
  calls_left = refl;
}

-- Seven calls of a tool, where the budget has one.
run_each_uncounted_example :
    let after = run_each (times stuck fresh tools calling flag [] _ failing 7 (codes "hi")) begun in
    (after.session ≡ some fresh) × (length after.invoked ≡ 7)
run_each_uncounted_example =
    run_each_uncounted stuck fresh tools calling flag [] _ failing 7 (codes "hi") begun refl refl
