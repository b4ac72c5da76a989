-- ===== src/Outbox/Order.antt =====
-- libs/holon_common/outbox.py: what a pass of the relay sends and marks, and where it stops.
use holon.Prelude.{
  ℕ, ◌≡◌, refl, sym, ap, ◌∙◌, ◌⊎◌, inl, inr, true, false, Option, none, some, List, [], ◌∷◌, ◌++◌,
  take, arith, if◌then◌else◌, Bool-cases, append_assoc, append-nil,
}
use holon.Outbox.{
  Row, Bus, Relay, unpublished, mark_published, Step, goes_on, stops, quarantine, relay_row, resume,
  relay_rows, relay_once,
}

module _ {J E : Type 0} (bus : Bus J E) where
  abbrev registered_of : Option E → List E
  registered_of none = []
  registered_of (some e) = if bus.is_registered e then e ∷ [] else []

  -- The events of these rows that the registry knows, in order.
  abbrev pub events_of : List (Row J) → List E
  events_of [] = []
  events_of (r ∷ rows) = registered_of (bus.decode r.envelope) ++ events_of rows

  abbrev pub mark_each : ℕ → List (Row J) → List (Row J) → List (Row J)
  mark_each now [] table = table
  mark_each now (r ∷ rows) table = mark_each now rows (mark_published now r.id table)

  -- Why a pass ends before a row: its envelope does not decode, or the bus refused its event.
  abbrev pub Refused : Row J → List E → Type 0
  Refused r sent =
      (bus.decode r.envelope ≡ none)
      ⊎ ((e : E) × (bus.decode r.envelope ≡ some e)
          × (bus.is_registered e ≡ true)
          × (bus.accepts sent e ≡ false))

  abbrev pub Stopped : List (Row J) → List E → Type 0
  Stopped [] sent = Unit
  Stopped (r ∷ rest) sent = Refused r sent

  -- The rows fall into those that were dealt with and those that were not reached.
  pub record Pass (rows : List (Row J)) (s after : Relay J E) : Type 0 where
    pub done : List (Row J)
    pub rest : List (Row J)
    pub all : rows ≡ done ++ rest
    pub in_order : after.sent ≡ s.sent ++ events_of done
    pub marked : after.rows ≡ mark_each s.now done s.rows
    pub stopped : Stopped rest after.sent

  ends : (r : Row J) (rows : List (Row J)) (s : Relay J E) → Refused r s.sent → Pass (r ∷ rows) s s
  ends r rows s h = record {
    done = [];
    rest = r ∷ rows;
    all = refl;
    in_order = sym (append-nil s.sent);
    marked = refl;
    stopped = h;
  }

  continues :
      (r : Row J) (rows : List (Row J)) (s t after : Relay J E)
      → t.rows ≡ mark_published s.now r.id s.rows
      → t.now ≡ s.now
      → t.sent ≡ s.sent ++ registered_of (bus.decode r.envelope)
      → Pass rows t after
      → Pass (r ∷ rows) s after
  continues r rows s t after e1 e2 e3 h = record {
    done = r ∷ h.done;
    rest = h.rest;
    all = ap (◌∷◌ r) h.all;
    in_order =
        h.in_order
        ∙ (ap (λ x. x ++ events_of h.done) e3
            ∙ append_assoc s.sent (registered_of (bus.decode r.envelope)) (events_of h.done));
    marked = h.marked ∙ (λ i. mark_each (e2 i) h.done (e1 i));
    stopped = h.stopped;
  }

  abbrev Handled : Row J → Relay J E → Step bus → Type 0
  Handled r s (goes_on t) =
      (t.rows ≡ mark_published s.now r.id s.rows)
      × (t.now ≡ s.now)
      × (t.sent ≡ s.sent ++ registered_of (bus.decode r.envelope))
  Handled r s (stops t) = (t ≡ s) × Refused r s.sent

  quarantine-keeps :
      (e : E) (s : Relay J E)
      → ((quarantine bus e s).rows ≡ s.rows)
        × ((quarantine bus e s).now ≡ s.now)
        × ((quarantine bus e s).sent ≡ s.sent)
  unfolding quarantine
  quarantine-keeps e s = ground arith

  relay_row-Handled :
      (r : Row J) (d : Option E) (s : Relay J E)
      → bus.decode r.envelope ≡ d
      → Handled r s (relay_row bus r d s)
  unfolding relay_row
  relay_row-Handled r none s e = (refl, inl e)
  relay_row-Handled r (some event) s e = elim (Bool-cases (bus.is_registered event)) [
    | inr poison ↦ rw poison (
      ground (arith, quarantine-keeps event s),
      (quarantine-keeps event s).1,
      ground (arith, e, poison, quarantine-keeps event s, append-nil s.sent),
    )
    | inl known ↦ elim (Bool-cases (bus.accepts s.sent event)) [
      | inr refused ↦ rw (known, refused) (refl, inr (event, e, known, refused))
      | inl accepted ↦ rw (known, accepted) (refl, refl, ground (arith, e, known))
    ]
  ]

  resume-Pass :
      (r : Row J) (rows : List (Row J)) (s : Relay J E) (x : Step bus) (k : Relay J E → Relay J E)
      → Handled r s x
      → ((t : Relay J E) → Pass rows t (k t))
      → Pass (r ∷ rows) s (resume bus x k)
  unfolding resume
  resume-Pass r rows s (goes_on t) k h g = continues r rows s t (k t) h.0 h.1 h.2 (g t)
  resume-Pass r rows s (stops t) k h g = rw h.0 (ends r rows s h.1)

  relay_rows-Pass : (rows : List (Row J)) (s : Relay J E) → Pass rows s (relay_rows bus rows s)
  unfolding relay_rows
  relay_rows-Pass [] s = record {
    done = [];
    rest = [];
    all = refl;
    in_order = sym (append-nil s.sent);
    marked = refl;
    stopped = tt;
  }
  relay_rows-Pass (r ∷ rows) s =
      resume-Pass r rows s (relay_row bus r (bus.decode r.envelope) s) (relay_rows bus rows)
        (relay_row-Handled r (bus.decode r.envelope) s refl) (relay_rows-Pass rows)

  -- One pass deals with the unpublished rows in the order of their ids, fifty at most, up to the first
  -- that does not decode or that the bus refuses: the events of these rows that the registry knows
  -- are sent in that order and no others, exactly these rows are marked as published, a row that the
  -- registry refuses with them, and all that follow stay as they are for the next pass.
  pub relay_once-Pass : (s : Relay J E) → Pass (take 50 (unpublished s.rows)) s (relay_once bus s)
  unfolding relay_once
  relay_once-Pass s = relay_rows-Pass (take 50 (unpublished s.rows)) s
