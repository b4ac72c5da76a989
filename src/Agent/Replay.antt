-- ===== src/Agent/Replay.antt =====
-- services/intelligence/app/agent_runtime.py: the messages that a turn carries along are those that
-- `messages_from_transcript` rebuilds from the rows.
use holon.Prelude.{ℕ, zero, suc, ◌≡◌, List, if◌then◌else◌}
use holon.Prelude.Text.{Text}
use holon.Prelude.Table.{Table}
use holon.Prelude.Exec.{raised, Exec, require, ◌>>=◌}
use holon.Agent.{room, is_reached, Json, Budget, Consumed, ToolResult, Block, Rows}
use holon.Agent.Transcript.{texts, messages_from_transcript}
use holon.Agent.RunTurn.{
  TurnError, over_iterations, upstream, fuel_ran_out, Entry, Outside, turn_by, abort_with, names_of,
  Answer, answered,
}

-- What is read back from the rows is what was written, and so has the same text: with J the JSON values
-- whose objects have their keys in the order of JSONB, each once. It may fail for the others.
pub record IsKept {J : Type 0} (json : Json J) : Type 0 where
  pub same_text : (r : ToolResult J) → json.dumps_stored r ≡ json.dumps r
  pub same_block : (b : Block J) → json.reload b ≡ b

module _ {J : Type 0} (json : Json J) where
  abbrev stored_texts : List (Text × ToolResult J) → List (Text × Text)
  stored_texts = texts json.dumps_stored

module _ {J : Type 0} where
  module _ (o : Outside J) (b : Budget) (tools : Table Text Entry) where
    -- `turn_loop` with the messages read from the rows before each call of the model
    unfoldable pub reloading_loop : ℕ → Consumed → Exec TurnError (Rows J) (Answer o b tools)
    reloading_loop zero c rows = (raised fuel_ran_out, rows)
    reloading_loop (suc fuel) c rows =
        let messages = messages_from_transcript o.json rows.turns in
        let go =
          require (o.complete messages (names_of tools)) upstream
          >>= answered o b tools (λ d _. reloading_loop fuel d) c messages in
        (if is_reached b.max_iterations c.iterations then abort_with o over_iterations c else go)
          rows

  module _ (o : Outside J) where
    -- `run_turn` on a loop that keeps no messages and reads the rows before each call of the model
    unfoldable pub reloading_turn : Text → Exec TurnError (Rows J) (Text × Consumed)
    reloading_turn =
        turn_by o (λ b tools c _. reloading_loop o b tools (suc (room b.max_iterations)) c)
