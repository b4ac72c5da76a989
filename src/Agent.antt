-- ===== src/Agent.antt =====
-- services/intelligence/app/agent_runtime.py: the rows of an agent session, its budget and its transcript.
pub mod Sessions
pub mod Transcript
pub mod RunTurn
pub mod Tools
pub mod Metered
pub mod Replay
pub mod Ended
pub mod Lifecycle
pub mod Uncounted
mod Examples
use holon.Prelude.{ℕ, ◌≤◌, ◌<◌, ◌≡◌, Bool, true, false, Option, List, leb, ltb, arith}
use holon.Prelude.Text.{Text}

pub data SessionStatus : Type 0 where
  running : SessionStatus
  completed : SessionStatus
  aborted : SessionStatus

pub data ℤ : Type 0 where
  pos : ℕ → ℤ
  negsuc : ℕ → ℤ

-- Limits are integers: a request may ask for a negative one.
pub record Budget : Type 0 where
  pub max_iterations : ℤ
  pub max_tool_calls : ℤ
  pub max_tokens : ℤ

-- `count >= limit`
unfoldable pub is_reached : ℤ → ℕ → Bool
is_reached (pos n) count = leb n count
is_reached (negsuc n) count = true

-- `count > limit`
unfoldable pub is_over : ℤ → ℕ → Bool
is_over (pos n) count = ltb n count
is_over (negsuc n) count = true

-- What a limit leaves for a count, which is never negative
unfoldable pub room : ℤ → ℕ
room (pos n) = n
room (negsuc n) = 0

pub is_reached-false : (l : ℤ) (count : ℕ) → is_reached l count ≡ false → count < room l
unfolding is_reached room
is_reached-false (pos n) count h = ground (arith, h)
is_reached-false (negsuc n) count h = absurd (cc)

pub is_over-false : (l : ℤ) (count : ℕ) → is_over l count ≡ false → count ≤ room l
unfolding is_over room
is_over-false (pos n) count h = ground (arith, h)
is_over-false (negsuc n) count h = absurd (cc)

pub record Consumed : Type 0 where
  pub iterations : ℕ
  pub tool_calls : ℕ
  pub tokens : ℕ

-- A row of `agent_session`.
pub record Session : Type 0 where
  pub status : SessionStatus
  pub budget : Budget
  pub consumed : Consumed
  pub expires_at : ℕ
  pub chain_trigger : Bool
  pub causation_depth : ℕ
  pub max_chain_depth : ℕ
  pub allowed_tools : Option (List Text)

-- The payload of `intelligence.agent.session_completed`.
pub record SessionCompleted : Type 0 where
  pub final_status : SessionStatus
  pub calls : ℕ

module _ (J : Type 0) where
  pub record ToolUse : Type 0 where
    pub id : Text
    pub name : Text
    pub input : J

  -- What a tool gave back: the entry `error` for an unknown tool, or a status code and a body.
  pub data ToolResult : Type 0 where
    unknown_tool : Text → ToolResult
    reply : ℕ → J → ToolResult
    plugin_error : ToolResult

  pub data Block : Type 0 where
    prose : Text → Block
    use_tool : ToolUse → Block

  -- A row of `agent_turn`, by its role.
  pub data Turn : Type 0 where
    user : Text → Turn
    assistant : List Block → Turn
    tool : Text → ToolResult → Turn

  -- A message to the model. Results of tools are a message of the user, with their texts.
  pub data Message : Type 0 where
    user_message : Text → Message
    assistant_message : List Block → Message
    tool_results : List (Text × Text) → Message

  -- Python's json and the JSONB columns: the text of a result as it came, that of a result as it is read
  -- back from its row (`json.dumps(…, default=str)`), and a block of an answer as it is read back.
  pub record Json : Type 0 where
    pub dumps : ToolResult → Text
    pub dumps_stored : ToolResult → Text
    pub reload : Block → Block

  -- The rows of one session: its row, if there is one, its turns and the events of the outbox. `invoked`
  -- is what the tools were called with, outside of the database.
  pub record Rows : Type 0 where
    pub session : Option Session
    pub turns : List Turn
    pub events : List SessionCompleted
    pub invoked : List ToolUse
    pub now : ℕ
