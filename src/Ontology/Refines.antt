-- ===== src/Ontology/Refines.antt =====
-- services/knowledge/app/ontology/: requests side by side refine the publication of a ledger.
use mathlib.Core.Path.{subst}
use holon.Prelude.{
  is_some, ℕ, zero, suc, ◌≡◌, refl, sym, ap, true, false, leb, Bool-cases, Option, none, some, List,
  [], ◌∷◌, take, drop, All, All-append, ◌⊎◌, inl, inr, arith, ◌∙◌,
}
use holon.Prelude.Text.{Text}
use holon.Prelude.Exec.{Outcome, returned, raised, modify, ◌>>◌, close, transaction}
use holon.Ontology.{ObjectType, Version, Review, Store, OntologyError, not_newer}
use holon.Ontology.Drafts.{Outside, insert_draft, find_version}
use holon.Ontology.Publishing.{Ticket, write_version, write_publish, check_version}
use holon.Ontology.Publishing.{write_publication}
use holon.Ontology.Branching.{
  get_branch, insert_branch, move_branch, add_review, merge_branch, write_review, write_approval,
}
use holon.Ontology.Steps.{
  Step, insert, branch_off, move, request_changes, check, write, recache, World, Ledger, ledger,
  nth, joined, write_as, write_ticket, write_first, run_step, run_steps, Publishes, publishes,
  Reaches, here, next,
}
use holon.Ontology.Checked.{check_version-tables}

module _ (urn : Text) where
  pub write_publish-stale :
      (t : Ticket) (o : ObjectType) (s : Store)
      → leb t.draft_row.version o.version ≡ true
      → write_publish urn t (record s { live = some o })
        ≡ (raised not_newer, record s { live = some o })
  unfolding write_publish
  write_publish-stale t o s stale = rw stale refl

  pub write_publish-newer :
      (t : Ticket) (o : ObjectType) (s : Store)
      → leb t.draft_row.version o.version ≡ false
      → write_publish urn t (record s { live = some o })
        ≡ (returned tt, write_version urn t (some o.version) (record s { live = some o }))
  unfolding write_publish
  write_publish-newer t o s newer = rw newer refl

  -- The end of the writes of a publication and of an approval, given how `_write_publish` comes out
  abbrev after_publish : Store → Outcome OntologyError (Unit {0}) × Store → Store
  after_publish before out =
      (((λ (u : Store). close before out) >> modify (λ u. record u { cached = none })) before).1

  abbrev after_review : Review → Store → Outcome OntologyError (Unit {0}) × Store → Store
  after_review r before out =
      after_publish before (((λ (u : Store). out) >> modify (merge_branch r.branch_id)) before)

module _ (urn : Text) (P : Ticket → Type 0) where
  -- Nothing, or one publication
  abbrev Moved : Ledger → Ledger → Type 0
  Moved l m = (m ≡ l) ⊎ Publishes P l m

  write_as-Moved :
      (r : Option Review) (t : Ticket) (ok : P t) (o : ObjectType) (s : Store)
      → let before = record s { live = some o } in
        Moved (ledger before) (ledger (write_as urn r t before).1)
  unfolding write_as write_publication write_approval write_review transaction close write_version
      add_review merge_branch
  write_as-Moved none t ok o s =
      let before = record s { live = some o } in
      let family = λ (out : Outcome OntologyError (Unit {0}) × Store).
        Moved (ledger before) (ledger (after_publish urn before out)) in
      elim (Bool-cases (leb t.draft_row.version o.version)) [
        | inl stale ↦ subst family (sym (write_publish-stale urn t o s stale)) (inl refl)
        | inr newer ↦
            subst family (sym (write_publish-newer urn t o s newer))
              (inr (publishes o s.publications t _ ok (ground (arith, newer))))
      ]
  write_as-Moved (some r) t ok o s =
      let before = record s { live = some o } in
      let reviewed = add_review r s in
      let family = λ (out : Outcome OntologyError (Unit {0}) × Store).
        Moved (ledger before) (ledger (after_review urn r before out)) in
      elim (Bool-cases (leb t.draft_row.version o.version)) [
        | inl stale ↦ subst family (sym (write_publish-stale urn t o reviewed stale)) (inl refl)
        | inr newer ↦
            subst family (sym (write_publish-newer urn t o reviewed newer))
              (inr (publishes o s.publications t _ ok (ground (arith, newer))))
      ]

  -- What every step keeps: the ledger moves as the specification says, its Object Type stays, and the
  -- requests between their checks and their writes have passed.
  record Kept (w after : World) : Type 0 where
    moved : Moved (ledger w.store) (ledger after.store)
    passed : All P after.pending

  All-nth : (n : ℕ) (ts : List Ticket) → All P ts → All P (nth n ts)
  unfolding take drop
  All-nth zero [] h = tt
  All-nth zero (t ∷ ts) h = (h.0, tt)
  All-nth (suc n) [] h = tt
  All-nth (suc n) (t ∷ ts) h = All-nth n ts h.1

  write_first-Moved :
      (ts : List Ticket) (ok : All P ts) (o : ObjectType) (s : Store)
      → let before = record s { live = some o } in
        Moved (ledger before) (ledger (write_first urn ts before))
  unfolding write_ticket
  write_first-Moved [] ok o s = inl refl
  write_first-Moved (t ∷ ts) ok o s = write_as-Moved t.review t ok.0 o s

  insert-ledger : (v : Version) (s : Store) → ledger (insert_draft v s).1 ≡ ledger s
  unfolding insert_draft
  insert-ledger v s = elim (Bool-cases (is_some (find_version v.version s.versions))) [
    | inl taken ↦ rw taken refl
    | inr free ↦ rw free refl
  ]

  insert_branch-ledger :
      (name by : Text) (v : Version) (s : Store) → ledger (insert_branch name by v s).1 ≡ ledger s
  unfolding insert_branch
  insert_branch-ledger name by v s = elim (Bool-cases (is_some (get_branch name s.branches))) [
    | inl taken ↦ rw taken refl
    | inr free ↦ rw free refl
  ]

  All-joined :
      (r : Outcome OntologyError Ticket) (ts : List Ticket)
      → ((t : Ticket) → r ≡ returned t → P t)
      → All P ts
      → All P (joined r ts)
  All-joined (returned t) ts ok h = All-append P ts (t ∷ []) h (ok t refl, tt)
  All-joined (raised e) ts ok h = h

  -- A check gives only tickets of which `P` holds.
  abbrev pub Grants : Step → Type 0
  Grants (insert v) = Unit
  Grants (branch_off name by v) = Unit
  Grants (move id version) = Unit
  Grants (request_changes r) = Unit
  Grants (check o review version) =
      (s u : Store) (t : Ticket) → check_version urn o review version s ≡ (returned t, u) → P t
  Grants (write n) = Unit
  Grants (recache o) = Unit

  run_step-Kept :
      (step : Step) (w : World) (o : ObjectType)
      → w.store.live ≡ some o
      → Grants step
      → All P w.pending
      → Kept w (run_step urn step w)
  unfolding run_step move_branch add_review
  run_step-Kept (insert v) w o live g h = record {
    moved = inl (insert-ledger v w.store);
    passed = h;
  }
  run_step-Kept (branch_off name by v) w o live g h = record {
    moved = inl (insert_branch-ledger name by v w.store);
    passed = h;
  }
  run_step-Kept (move id version) w o live g h = record { moved = inl refl; passed = h }
  run_step-Kept (request_changes r) w o live g h = record { moved = inl refl; passed = h }
  run_step-Kept (check out review version) w o live g h = record {
    moved = inl (ap ledger (check_version-tables urn out review version w.store));
    passed =
        All-joined (check_version urn out review version w.store).0 w.pending
          (λ t e.
            let after = (check_version urn out review version w.store).1 in
            g w.store after t (ap (λ r. (r, after)) e))
          h;
  }
  run_step-Kept (write n) w o live g h = record {
    moved =
        subst
          (λ q.
            let before = record w.store { live = q } in
            Moved (ledger before) (ledger (write_first urn (nth n w.pending) before)))
          (sym live) (write_first-Moved (nth n w.pending) (All-nth n w.pending h) o w.store);
    passed = h;
  }
  run_step-Kept (recache q) w o live g h = record { moved = inl refl; passed = h }

  Reaches-trans : {l m n : Ledger} → Reaches P l m → Reaches P m n → Reaches P l n
  Reaches-trans p here = p
  Reaches-trans p (next q step) = next (Reaches-trans p q) step

  Publishes-live : {l m : Ledger} → Publishes P l m → (o : ObjectType) × (m.live ≡ some o)
  Publishes-live (publishes o told t name ok newer) = (_, refl)

  Moved-Reaches : {l m : Ledger} → Moved l m → Reaches P l m
  Moved-Reaches {l} (inl same) = subst (Reaches P l) (sym same) here
  Moved-Reaches (inr step) = next here step

  Moved-live :
      {l m : Ledger} (o : ObjectType)
      → l.live ≡ some o
      → Moved l m
      → (p : ObjectType) × (m.live ≡ some p)
  Moved-live o live (inl same) = (o, ap (λ (k : Ledger). k.live) same ∙ live)
  Moved-live o live (inr step) = Publishes-live step

  pub steps-Reaches :
      (steps : List Step) (w : World) (o : ObjectType)
      → w.store.live ≡ some o
      → All Grants steps
      → All P w.pending
      → Reaches P (ledger w.store) (ledger (run_steps urn steps w).store)
  unfolding run_steps
  steps-Reaches [] w o live gs h = here
  steps-Reaches (step ∷ steps) w o live gs h =
      let kept = run_step-Kept step w o live gs.0 h in
      let (p, still) = Moved-live o live kept.moved in
      Reaches-trans (Moved-Reaches kept.moved)
        (steps-Reaches steps (run_step urn step w) p still gs.1 kept.passed)

-- A request that checks asks validators of which `Allowed` holds.
abbrev pub Asks : (Outside → Type 0) → Step → Type 0
Asks Allowed (insert v) = Unit
Asks Allowed (branch_off name by v) = Unit
Asks Allowed (move id version) = Unit
Asks Allowed (request_changes r) = Unit
Asks Allowed (check o review version) = Allowed o
Asks Allowed (write n) = Unit
Asks Allowed (recache o) = Unit
