-- ===== src/Outbox/Delivery.antt =====
-- libs/holon_common/outbox.py: a pass over a bus that works leaves nothing unpublished.
use mathlib.Core.Path.{subst}
use holon.Prelude.{
  sym, ℕ, zero, suc, ◌≤◌, ◌≡◌, refl, ◌≢◌, inl, inr, Bool, true, not, ◌||◌, none, List, [], ◌∷◌,
  take, length, any, All, arith, ◌==◌, ==_iff, Bool-cases, append-nil,
}
use holon.Outbox.{Row, Bus, Relay, is_unpublished, unpublished, mark_published, relay_once}
use holon.Outbox.Order.{Stopped, mark_each, relay_once-Pass}

module _ {J : Type 0} where
  -- The row is published, or will be when these rows are marked.
  abbrev covers : List (Row J) → Row J → Bool
  covers rows r = not (is_unpublished r) || any (λ d. d.id == r.id) rows

  abbrev Covered : List (Row J) → List (Row J) → Type 0
  Covered rows = All (λ r. covers rows r ≡ true)

  Covered-cons :
      (d : Row J) (rows table : List (Row J)) → Covered rows table → Covered (d ∷ rows) table
  Covered-cons d rows [] h = tt
  Covered-cons d rows (r ∷ table) h = (ground (arith, h.0), Covered-cons d rows table h.1)

  unpublished-Covered : (table : List (Row J)) → Covered (unpublished table) table
  unfolding unpublished
  unpublished-Covered [] = tt
  unpublished-Covered (r ∷ table) =
      let rest = unpublished-Covered table in
      elim (Bool-cases (is_unpublished r)) [
        | inl e ↦
            let same : unpublished (r ∷ table) ≡ r ∷ unpublished table = ground (arith, e) in
            subst (λ rows. Covered rows (r ∷ table)) (sym same)
              (ground (arith, ==_iff r.id r.id), Covered-cons r (unpublished table) table rest)
        | inr e ↦
            let same : unpublished (r ∷ table) ≡ unpublished table = ground (arith, e) in
            subst (λ rows. Covered rows (r ∷ table)) (sym same) (ground (arith, e), rest)
      ]

  mark-Covered :
      (now : ℕ) (d : Row J) (rows table : List (Row J))
      → Covered (d ∷ rows) table
      → Covered rows (mark_published now d.id table)
  unfolding mark_published
  mark-Covered now d rows [] h = tt
  mark-Covered now d rows (r ∷ table) h = elim (Bool-cases (r.id == d.id)) [
    | inl e ↦ rw e (refl, mark-Covered now d rows table h.1)
    | inr e ↦ rw e (
      ground (arith, h.0, e, ==_iff r.id d.id, ==_iff d.id r.id),
      mark-Covered now d rows table h.1,
    )
  ]

  Covered-nil : (table : List (Row J)) → Covered [] table → unpublished table ≡ []
  unfolding unpublished
  Covered-nil [] h = refl
  Covered-nil (r ∷ table) h = ground (arith, h.0, Covered-nil table h.1)

  take_all : (n : ℕ) (rows : List (Row J)) → length rows ≤ n → take n rows ≡ rows
  unfolding take
  take_all zero [] h = refl
  take_all zero (r ∷ rows) h = absurd (omega (arith, h))
  take_all (suc n) [] h = refl
  take_all (suc n) (r ∷ rows) h = ground (arith, take_all n rows)

module _ {J E : Type 0} (bus : Bus J E) where
  mark_each-Covered :
      (now : ℕ) (rows table : List (Row J))
      → Covered rows table
      → Covered [] (mark_each bus now rows table)
  mark_each-Covered now [] table h = h
  mark_each-Covered now (d ∷ rows) table h =
      mark_each-Covered now rows (mark_published now d.id table) (mark-Covered now d rows table h)

  nothing_refused :
      (rest : List (Row J)) (sent : List E)
      → ((j : J) → bus.decode j ≢ none)
      → ((log : List E) (e : E) → bus.accepts log e ≡ true)
      → Stopped bus rest sent
      → rest ≡ []
  nothing_refused [] sent decodes accepts h = refl
  nothing_refused (r ∷ rest) sent decodes accepts (inl e) = absurd (decodes r.envelope e)
  nothing_refused (r ∷ rest) sent decodes accepts (inr (e, d, known, refused)) =
      absurd (ground (arith, accepts sent e, refused))

  -- If every envelope decodes, the bus accepts every event and at most fifty rows wait, one pass
  -- leaves no row unpublished, whatever the registry refuses and whatever the dead letter queue does.
  pub relay_once-unpublished :
      (s : Relay J E)
      → ((j : J) → bus.decode j ≢ none)
      → ((log : List E) (e : E) → bus.accepts log e ≡ true)
      → length (unpublished s.rows) ≤ 50
      → unpublished (relay_once bus s).rows ≡ []
  relay_once-unpublished s decodes accepts few =
      let waiting = unpublished s.rows in
      let p = relay_once-Pass bus s in
      let none_left = nothing_refused p.rest (relay_once bus s).sent decodes accepts p.stopped in
      let all_done : waiting ≡ p.done =
        ground (arith, take_all 50 waiting few, p.all, none_left, append-nil p.done) in
      Covered-nil (relay_once bus s).rows (
        rw p.marked
          (mark_each-Covered s.now p.done s.rows (rw⁻¹ all_done (unpublished-Covered s.rows))))
