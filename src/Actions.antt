-- ===== src/Actions.antt =====
-- services/knowledge/app/actions and action_structural.py: the Actions of the ontology.
pub mod Json
pub mod Criteria
pub mod Db
pub mod State
pub mod Edits
pub mod Structural
pub mod Apply
pub mod Approval
pub mod Decisions
pub mod Undo
pub mod Frame
mod Examples
