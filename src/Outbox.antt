-- ===== src/Outbox.antt =====
-- libs/holon_common/outbox.py: the table of events and one pass of `relay_forever`. The bus, its
-- dead letter queue and the event registry are parameters.
pub mod Order
pub mod Delivery
mod Examples
use holon.Prelude.{
  ℕ, ◌+◌, Bool, true, false, not, Option, none, some, List, [], ◌∷◌, ◌++◌, take, ◌==◌,
  if◌then◌else◌,
}

-- A row of `event_outbox`: the envelope is its JSON, of type `J`; `published_at` is set or null. The
-- rows are in the order of their ids.
pub record Row (J : Type 0) : Type 0 where
  pub id : ℕ
  pub envelope : J
  pub published_at : Option ℕ

-- What is outside: `EventEnvelope.model_validate_json`, `registry.validate`, whether the bus takes an
-- event after those that it has, and whether a dead letter queue is given and takes one.
pub record Bus (J E : Type 0) : Type 0 where
  pub decode : J → Option E
  pub is_registered : E → Bool
  pub accepts : List E → E → Bool
  pub quarantines : E → Bool

-- The table, and what was sent to the bus and to the dead letter queue so far.
pub record Relay (J E : Type 0) : Type 0 where
  pub rows : List (Row J)
  pub sent : List E
  pub quarantined : List E
  pub now : ℕ

module _ {J : Type 0} where
  abbrev pub is_unpublished : Row J → Bool
  is_unpublished r = elim r.published_at [ none ↦ true | some at ↦ false ]

  -- WHERE published_at IS NULL ORDER BY id ASC
  unfoldable pub unpublished : List (Row J) → List (Row J)
  unpublished [] = []
  unpublished (r ∷ rows) =
      let rest = unpublished rows in if is_unpublished r then r ∷ rest else rest

  -- UPDATE event_outbox SET published_at = now() WHERE id = $1
  unfoldable pub mark_published : ℕ → ℕ → List (Row J) → List (Row J)
  mark_published now id [] = []
  mark_published now id (r ∷ rows) =
      let rest = mark_published now id rows in
      if r.id == id then record r { published_at = some now } ∷ rest else r ∷ rest

module _ {J E : Type 0} (bus : Bus J E) where
  abbrev pub mark : Row J → Relay J E → Relay J E
  mark r s = record s { rows = mark_published s.now r.id s.rows }

  abbrev pub send : E → Relay J E → Relay J E
  send e s = record s { sent = s.sent ++ e ∷ [] }

  -- An event that the registry refuses, put on the dead letter queue if that takes it
  quarantine : E → Relay J E → Relay J E
  quarantine e s =
      if bus.quarantines e then record s { quarantined = s.quarantined ++ e ∷ [] } else s

  -- What one row comes to: the state that the loop goes on from, or the end of the pass.
  pub data Step : Type 0 where
    goes_on stops : Relay J E → Step

  relay_row : Row J → Option E → Relay J E → Step
  unfolding quarantine
  relay_row r none s = stops s
  relay_row r (some e) s =
      if bus.is_registered e
      then (if bus.accepts s.sent e then goes_on (mark r (send e s)) else stops s)
      else goes_on (mark r (quarantine e s))

  -- The loop goes on with `rest`, or is over.
  resume : Step → (Relay J E → Relay J E) → Relay J E
  resume (goes_on s) rest = rest s
  resume (stops s) rest = s

  -- `for row in rows`; an exception ends the pass.
  unfoldable pub relay_rows : List (Row J) → Relay J E → Relay J E
  unfolding relay_row resume
  relay_rows [] s = s
  relay_rows (r ∷ rows) s = resume (relay_row r (bus.decode r.envelope) s) (λ t. relay_rows rows t)

  -- One round of `relay_forever`
  unfoldable pub relay_once : Relay J E → Relay J E
  unfolding relay_rows
  relay_once s = relay_rows (take 50 (unpublished s.rows)) s
