-- ===== src/Ontology/Proposed.antt =====
-- services/knowledge/app/ontology/publishing.py: what `propose_object_type_version` leaves in the tables.
use mathlib.Core.Path.{subst}
use holon.Prelude.{
  ◌<◌, max, ◌+◌, ◌≡◌, refl, sym, ap, ◌∙◌, ◌==◌, ==_iff, Bool-cases, Option-cases, Option, none,
  some, List, [], ◌∷◌, ◌++◌, inl, inr, arith,
}
use holon.Prelude.Exec.{returned, require, ◌>>=◌, >>=-returned, Outcome-cases}
use holon.Ontology.{ObjectType, Version, draft, Definition, Store, unknown_object_type}
use holon.Ontology.Lifecycle.{Deprecation, validate_ot_metadata}
use holon.Ontology.Drafts.{
  Outside, Proposal, proposed_metadata, proposed_definition, get_object_type, find_version,
  highest_known_version, draft_from, plan_draft, insert_draft, propose_object_type_version,
}
use holon.Ontology.Validations.{metadata_of}
use holon.Ontology.Metadata.{validate-proposed}

abbrev deprecation_of : Definition → Deprecation
deprecation_of d = record {
  lifecycle_status = d.lifecycle_status;
  deprecation_reason = d.deprecation_reason;
  deprecation_deadline = d.deprecation_deadline;
  replacement_urn = d.replacement_urn;
}

-- A draft with a new number, whose metadata passes the checks of a publication
pub record IsDraft (o : Outside) (before after : Store) (v : Version) : Type 0 where
  pub is_draft : v.status ≡ draft
  pub is_above : highest_known_version before.versions < v.version
  pub is_valid :
      validate_ot_metadata o.fromisoformat (metadata_of v.definition)
      ≡ returned (deprecation_of v.definition)
  pub is_stored : after.versions ≡ before.versions ++ v ∷ []
  pub is_found : find_version v.version after.versions ≡ some v
  pub live_kept : after.live ≡ before.live

find_version-new :
    (v : Version) (rows : List Version)
    → find_version v.version rows ≡ none
    → find_version v.version (rows ++ v ∷ []) ≡ some v
unfolding find_version
find_version-new v [] h = rw ((==_iff v.version v.version).1 refl) refl
find_version-new v (r ∷ rows) h = elim (Bool-cases (r.version == v.version)) [
  | inl same ↦ absurd (cc (rw same at h))
  | inr other ↦ rw other (find_version-new v rows (rw other at h))
]

module _ (o : Outside) where
  -- What a draft is, before it is inserted
  abbrev Planned : Store → Store → Version → Type 0
  Planned s after v =
      (v.status ≡ draft)
      × (highest_known_version s.versions < v.version)
      × (validate_ot_metadata o.fromisoformat (metadata_of v.definition)
          ≡ returned (deprecation_of v.definition))
      × (after ≡ s)

  draft_from-Planned :
      (p : Proposal) (current : ObjectType) (s t : Store) (v : Version)
      → draft_from o p current s ≡ (returned v, t)
      → Planned s t v
  unfolding draft_from
  draft_from-Planned p current s t v h =
      let m = proposed_metadata p current.definition in
      elim (Outcome-cases (validate_ot_metadata o.fromisoformat m)) [
        | inr (e, bad) ↦ absurd (cc (rw bad at h))
        | inl (dep, good) ↦
            let w : Version = record {
              tenant_id = current.tenant_id;
              version = max current.version (highest_known_version s.versions) + 1;
              definition = proposed_definition p current.definition dep;
              status = draft;
            } in
            let same : w ≡ v = (cc (rw good at h)) in
            let kept : s ≡ t = (cc (rw good at h)) in
            let valid = validate-proposed o.fromisoformat p current.definition dep good in
            subst (λ k. Planned s t k) same (refl, omega arith, valid, sym kept)
      ]

  insert_draft-stored :
      (w v : Version) (s t : Store)
      → insert_draft w s ≡ (returned v, t)
      → (find_version w.version s.versions ≡ none)
        × (w ≡ v)
        × (t ≡ record s { versions = s.versions ++ w ∷ [] })
  unfolding insert_draft
  insert_draft-stored w v s t h = elim (Option-cases (find_version w.version s.versions)) [
    | inl free ↦ (free, cc (rw free at h), cc (rw free at h))
    | inr (r, taken) ↦ absurd (cc (rw taken at h))
  ]

  -- The plan changes the cache alone, and so does not change the versions.
  get_object_type-versions :
      (s : Store)
      → ((get_object_type s).1.versions ≡ s.versions) × ((get_object_type s).1.live ≡ s.live)
  unfolding get_object_type
  get_object_type-versions s = elim (Option-cases s.cached) [
    | inl e ↦ rw e (refl, refl)
    | inr (k, e) ↦ rw e (refl, refl)
  ]

  plan_draft-Planned :
      (p : Proposal) (s t : Store) (v : Version)
      → plan_draft o p s ≡ (returned v, t)
      → Planned (get_object_type s).1 t v
  unfolding plan_draft
  plan_draft-Planned p s t v h =
      let rest = λ (c : Option ObjectType). require c unknown_object_type >>= draft_from o p in
      let (c, got, planned) = >>=-returned get_object_type rest s t v h in
      elim (Option-cases c) [
        | inl missing ↦ absurd (cc (rw missing at planned))
        | inr (row, there) ↦
            draft_from-Planned p row (get_object_type s).1 t v (rw there at planned)
      ]

  -- A proposal that returns has stored one more version, a draft with a number above all that were known,
  -- which is found by its number, and whose metadata passes the check of a publication, and is
  -- normalized already. What is live is not changed.
  pub propose_object_type_version-IsDraft :
      (p : Proposal) (s t : Store) (v : Version)
      → propose_object_type_version o p s ≡ (returned v, t)
      → IsDraft o s t v
  unfolding propose_object_type_version
  propose_object_type_version-IsDraft p s t v h =
      let (w, planned, inserted) = >>=-returned (plan_draft o p) insert_draft s t v h in
      let u = (plan_draft o p s).1 in
      let (is_draft, above, valid, same) = plan_draft-Planned p s u w (ap (λ r. (r, u)) planned) in
      let (free, it, stored) = insert_draft-stored w v u t inserted in
      let (read, live) = get_object_type-versions s in
      let known : u.versions ≡ s.versions = (ap (λ (k : Store). k.versions) same ∙ read) in
      let appended : t.versions ≡ u.versions ++ w ∷ [] = (ap (λ (k : Store). k.versions) stored) in
      subst (IsDraft o s t) it (record {
        is_draft = is_draft;
        is_above = subst (λ vs. highest_known_version vs < w.version) read above;
        is_valid = valid;
        is_stored = appended ∙ ap (λ vs. vs ++ w ∷ []) known;
        is_found =
            subst (λ vs. find_version w.version vs ≡ some w) (sym appended)
              (find_version-new w u.versions free);
        live_kept = ap (λ (k : Store). k.live) stored ∙ ap (λ (k : Store). k.live) same ∙ live;
      })
