-- ===== src/Agent/Transcript.antt =====
-- services/intelligence/app/agent_runtime.py: `messages_from_transcript`.
use holon.Prelude.{map, List, [], ◌∷◌, ◌++◌}
use holon.Prelude.Text.{Text}
use holon.Agent.{
  Json, Turn, user, assistant, tool, Message, user_message, assistant_message, tool_results,
}

abbrev pub texts {ℓ} : {A : Type ℓ} → (A → Text) → List (Text × A) → List (Text × Text)
texts dumps [] = []
texts dumps ((id, result) ∷ results) = (id, dumps result) ∷ texts dumps results

module _ {J : Type 0} (json : Json J) where
  -- `_flush_tools`: the message of the pending results, in front of the messages that follow
  abbrev pub flush : List (Text × Text) → List (Message J) → List (Message J)
  flush [] messages = messages
  flush (r ∷ pending) messages = tool_results (r ∷ pending) ∷ messages

  unfoldable pub rebuild : List (Turn J) → List (Text × Text) → List (Message J)
  rebuild [] pending = flush pending []
  rebuild (user text ∷ turns) pending = flush pending (user_message text ∷ rebuild turns [])
  rebuild (assistant blocks ∷ turns) pending =
      flush pending (assistant_message (map json.reload blocks) ∷ rebuild turns [])
  rebuild (tool id result ∷ turns) pending =
      rebuild turns (pending ++ ((id, json.dumps_stored result) ∷ []))

  unfoldable pub messages_from_transcript : List (Turn J) → List (Message J)
  unfolding rebuild
  messages_from_transcript turns = rebuild turns []
