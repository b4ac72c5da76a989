-- ===== src/Ontology/Approvals.antt =====
-- services/knowledge/app/ontology/branching.py: what an approval does to the branch, the versions and
-- the live row together.
use mathlib.Core.Path.{subst}
use holon.Prelude.{
  ◌≡◌, refl, sym, ap, ◌∙◌, leb, Bool-cases, none, some, [], ◌∷◌, ◌++◌, ◌⊎◌, inl, inr, arith,
}
use holon.Prelude.Text.{Text}
use holon.Prelude.Exec.{Outcome, returned, raised, modify, ◌>>=◌, ◌>>◌, close, transaction}
use holon.Ontology.{ObjectType, Branch, merged, Review, Store, OntologyError, not_newer}
use holon.Ontology.Drafts.{Outside}
use holon.Ontology.Publishing.{Ticket, write_version, mark_version, check_version}
use holon.Ontology.Branching.{
  update_branch, add_review, merge_branch, write_review, write_approval, approve,
}
use holon.Ontology.Accepted.{IsPassed}
use holon.Ontology.Cascade.{cascade_lifecycle_from_object_type}
use holon.Ontology.Steps.{ledger, Publishes, publishes}
use holon.Ontology.Checked.{tables, check_version-tables, check_version-Accepts}
use holon.Ontology.Refines.{write_publish-stale, write_publish-newer}

module _ (urn : Text) (o : Outside) where
  -- The version of the branch, which the validators that this review asked accept, is published, is live,
  -- and the branch is merged, with this review. The lifecycle of what is live now is cascaded onto the
  -- relation types, and nothing else is changed.
  abbrev pub Merges : Review → Branch → Store → Store → Type 0
  Merges r b s after =
      Publishes (IsPassed urn (λ k. k ≡ o)) (ledger s) (ledger after)
      × (after.versions ≡ mark_version b.version s.versions)
      × (after.branches ≡ update_branch (λ c. record c { status = merged }) r.branch_id s.branches)
      × (after.reviews ≡ s.reviews ++ r ∷ [])
      × ((row : ObjectType) × (after.live ≡ some row)
          × (row.version ≡ b.version)
          × (after.relations
              ≡ cascade_lifecycle_from_object_type urn s.today row.definition.lifecycle_status
                  s.relations))
      × (after.cached ≡ none)
      × (after.today ≡ s.today)

  -- All that an approval may come to
  abbrev pub Approves : Review → Branch → Store → Outcome OntologyError (Unit {0}) × Store → Type 0
  Approves r b s out =
      ((out.0 ≡ returned tt) × Merges r b s out.1)
      ⊎ ((e : OntologyError) × (out.0 ≡ raised e) × (tables out.1 ≡ tables s))

  abbrev forget : Store → Store
  forget s = record s { cached = none }

  abbrev after_write :
      Review
      → Store
      → Outcome OntologyError (Unit {0}) × Store
      → Outcome OntologyError (Unit {0}) × Store
  after_write r before out =
      ((λ (u : Store).
            close before (((λ (v : Store). out) >> modify (merge_branch r.branch_id)) before))
          >> modify forget)
        before

  write_approval-Approves :
      (r : Review) (b : Branch) (t : Ticket) (row : ObjectType) (s : Store)
      → IsPassed urn (λ k. k ≡ o) t
      → t.draft_row.version ≡ b.version
      → let before = record s { live = some row } in
        Approves r b before (write_approval urn r t before)
  unfolding write_approval write_review transaction close write_version add_review merge_branch
  write_approval-Approves r b t row s ok same =
      let before = record s { live = some row } in
      let reviewed = add_review r s in
      let family = λ (out : Outcome OntologyError (Unit {0}) × Store).
        Approves r b before (after_write r before out) in
      elim (Bool-cases (leb t.draft_row.version row.version)) [
        | inl stale ↦
            subst family (sym (write_publish-stale urn t row reviewed stale))
              (inr (not_newer, refl, refl))
        | inr newer ↦ subst family (sym (write_publish-newer urn t row reviewed newer)) (
            inl (
              refl,
              (
                publishes row s.publications t _ ok (ground (arith, newer)),
                ap (λ v. mark_version v s.versions) same,
                refl,
                refl,
                (_, refl, same, refl),
                refl,
                refl,
              ),
            ))
      ]

  -- From the checks on, whatever they leave in the cache
  write_after_checks :
      (r : Review) (b : Branch) (t : Ticket) (row : ObjectType) (s u : Store)
      → s.live ≡ some row
      → tables u ≡ tables s
      → IsPassed urn (λ k. k ≡ o) t
      → t.draft_row.version ≡ b.version
      → Approves r b s (write_approval urn r t u)
  write_after_checks r b t row s u live same ok version =
      let live_u = ap (λ (k : Store). k.live) same ∙ live in
      let at_u =
        subst
          (λ q.
            let before = record u { live = q } in
            Approves r b before (write_approval urn r t before))
          (sym live_u) (write_approval-Approves r b t row u ok version) in
      subst (λ k. Approves r b k (write_approval urn r t u)) same at_u

  approve_by :
      (r : Review) (b : Branch) (row : ObjectType) (s u : Store) (c : Outcome OntologyError Ticket)
      → s.live ≡ some row
      → tables u ≡ tables s
      → ((t : Ticket)
          → c ≡ returned t
          → IsPassed urn (λ k. k ≡ o) t × (t.draft_row.version ≡ b.version))
      → Approves r b s (((λ (v : Store). (c, u)) >>= write_approval urn r) s)
  approve_by r b row s u (returned t) live same ok =
      let (passed, version) = ok t refl in write_after_checks r b t row s u live same passed version
  approve_by r b row s u (raised e) live same ok = inr (e, refl, same)

  pub approve-Approves :
      (r : Review) (b : Branch) (row : ObjectType) (s : Store)
      → s.live ≡ some row
      → Approves r b s (approve urn o r b s)
  unfolding approve
  approve-Approves r b row s live =
      let out = check_version urn o (some r) b.version s in
      approve_by r b row s out.1 out.0 live (check_version-tables urn o (some r) b.version s)
        (λ t e.
          let checked =
            check_version-Accepts urn o (some r) b.version s out.1 t (ap (λ k. (k, out.1)) e) in
          ((o, refl, checked.0), checked.1))
