-- ===== src/Ontology/Metadata.antt =====
-- services/knowledge/app/ontology/: the metadata that a proposal stores, as a publication reads it again.
use mathlib.Core.Path.{subst}
use holon.Prelude.{
  ℕ, ◌≡◌, refl, true, false, ltb, Bool-cases, Option-cases, Option, none, some, [], ◌∷◌, length,
  inl, inr,
}
use holon.Prelude.Text.{strip, Text}
use holon.Prelude.Exec.{Outcome, returned, raised}
use holon.Actions.Json.{Fields}
use holon.Ontology.{
  LifecycleStatus, experimental, active, deprecated, example, promoted, other_status, Visibility,
  prominent, normal, hidden, other_visibility, Definition, OntologyError,
}
use holon.Ontology.Lifecycle.{
  RawDeadline, Deprecation, Metadata, on_object_type, validate_ot_metadata,
  normalize_deprecation_metadata, assert_lifecycle_for_target, parse_deadline, or_empty,
  is_valid_visibility, key_error, title_is_unmapped, with_reason,
}
use holon.Ontology.Drafts.{
  Proposal, proposed_metadata, proposed_definition, or_id, or_experimental, or_normal, day_given,
}
use holon.Ontology.Validations.{metadata_of}
use holon.Prelude.Strip.{strip-strip}

module _ (fromisoformat : Text → Option ℕ) where
  -- Metadata that was normalized is normalized to itself.
  Renormalized : Deprecation → Deprecation → Type 0
  Renormalized k dep =
      normalize_deprecation_metadata fromisoformat on_object_type
        (or_experimental k.lifecycle_status) k.deprecation_reason (day_given k.deprecation_deadline)
        k.replacement_urn
      ≡ returned dep

  same_Renormalized :
      (k dep : Deprecation)
      → ◌≡◌ {A = Outcome OntologyError Deprecation} (returned k) (returned dep)
      → Renormalized k k
      → Renormalized dep dep
  same_Renormalized k dep e h = let it : k ≡ dep = (cc) in subst (λ d. Renormalized d d) it h

  with_reason-again :
      (reason : Text) (deadline : Outcome OntologyError (Option ℕ)) (replacement : Text)
      (dep : Deprecation)
      → strip reason ≡ reason
      → strip replacement ≡ replacement
      → with_reason fromisoformat reason deadline replacement ≡ returned dep
      → Renormalized dep dep
  unfolding Renormalized normalize_deprecation_metadata assert_lifecycle_for_target parse_deadline
  with_reason-again [] deadline replacement dep hr hp h = absurd (cc)
  with_reason-again (c ∷ s) (raised e) replacement dep hr hp h =
      elim (Bool-cases (ltb 2000 (length (c ∷ s)))) [
        | inl long ↦ absurd (cc (rw long at h))
        | inr short ↦ absurd (cc (rw short at h))
      ]
  with_reason-again (c ∷ s) (returned none) replacement dep hr hp h =
      elim (Bool-cases (ltb 2000 (length (c ∷ s)))) [
        | inl long ↦ absurd (cc (rw long at h))
        | inr short ↦ absurd (cc (rw short at h))
      ]
  with_reason-again (c ∷ s) (returned (some day)) [] dep hr hp h =
      elim (Bool-cases (ltb 2000 (length (c ∷ s)))) [
        | inl long ↦ absurd (cc (rw long at h))
        | inr short ↦ same_Renormalized _ dep (rw short at h) (rw hr (rw short refl))
      ]
  with_reason-again (c ∷ s) (returned (some day)) (d ∷ t) dep hr hp h =
      elim (Bool-cases (ltb 2000 (length (c ∷ s)))) [
        | inl long ↦ absurd (cc (rw long at h))
        | inr short ↦ elim (Bool-cases (ltb 512 (length (d ∷ t)))) [
          | inl big ↦ absurd (cc (rw big at (rw short at h)))
          | inr small ↦
              same_Renormalized _ dep (rw small at (rw short at h))
                (rw hr (rw hp (rw short (rw small refl))))
        ]
      ]

  normalize-again :
      (status : LifecycleStatus) (reason : Option Text) (deadline : Option RawDeadline)
      (replacement : Option Text) (dep : Deprecation)
      → normalize_deprecation_metadata fromisoformat on_object_type status reason deadline
          replacement
        ≡ returned dep
      → Renormalized dep dep
  unfolding Renormalized normalize_deprecation_metadata assert_lifecycle_for_target
  normalize-again experimental reason deadline replacement dep h = same_Renormalized _ dep h refl
  normalize-again active reason deadline replacement dep h = same_Renormalized _ dep h refl
  normalize-again example reason deadline replacement dep h = same_Renormalized _ dep h refl
  normalize-again promoted reason deadline replacement dep h = same_Renormalized _ dep h refl
  normalize-again (other_status t) reason deadline replacement dep h = absurd (cc)
  normalize-again deprecated reason deadline replacement dep h =
      with_reason-again (strip (or_empty reason)) (parse_deadline fromisoformat deadline)
        (strip (or_empty replacement)) dep (strip-strip (or_empty reason))
        (strip-strip (or_empty replacement)) h

  visibility-again :
      (v : Visibility) → is_valid_visibility v ≡ true → is_valid_visibility (or_normal v) ≡ true
  visibility-again prominent h = refl
  visibility-again normal h = refl
  visibility-again hidden h = refl
  visibility-again (other_visibility t) h = absurd (cc)

  key-again : (key : Text) (m : Fields) → key_error key m ≡ none → key_error (or_id key) m ≡ none
  key-again [] m h = absurd (cc)
  key-again (c ∷ s) m h = h

  -- The parts of metadata that is valid
  validate-parts :
      (m : Metadata) (dep : Deprecation)
      → validate_ot_metadata fromisoformat m ≡ returned dep
      → (is_valid_visibility m.visibility ≡ true)
        × (key_error m.primary_key m.property_mapping ≡ none)
        × (title_is_unmapped m.title_key m.property_mapping ≡ false)
        × (normalize_deprecation_metadata fromisoformat on_object_type m.lifecycle_status
              m.deprecation_reason m.deprecation_deadline m.replacement_urn
            ≡ returned dep)
  unfolding validate_ot_metadata
  validate-parts m dep h = elim (Bool-cases (is_valid_visibility m.visibility)) [
    | inr bad ↦ absurd (cc (rw bad at h))
    | inl seen ↦ elim (Option-cases (key_error m.primary_key m.property_mapping)) [
      | inr (e, bad) ↦ absurd (cc (rw bad at (rw seen at h)))
      | inl keyed ↦ elim (Bool-cases (title_is_unmapped m.title_key m.property_mapping)) [
        | inl bad ↦ absurd (cc (rw bad at (rw keyed at (rw seen at h))))
        | inr titled ↦ (seen, keyed, titled, rw titled at (rw keyed at (rw seen at h)))
      ]
    ]
  ]

  validate-of_parts :
      (m : Metadata) (dep : Deprecation)
      → is_valid_visibility m.visibility ≡ true
      → key_error m.primary_key m.property_mapping ≡ none
      → title_is_unmapped m.title_key m.property_mapping ≡ false
      → normalize_deprecation_metadata fromisoformat on_object_type m.lifecycle_status
          m.deprecation_reason m.deprecation_deadline m.replacement_urn
        ≡ returned dep
      → validate_ot_metadata fromisoformat m ≡ returned dep
  unfolding validate_ot_metadata
  validate-of_parts m dep seen keyed titled h = rw seen (rw keyed (rw titled h))

  -- What a proposal stores is valid when it is read again, and is normalized to itself.
  pub validate-proposed :
      (p : Proposal) (d : Definition) (dep : Deprecation)
      → validate_ot_metadata fromisoformat (proposed_metadata p d) ≡ returned dep
      → validate_ot_metadata fromisoformat (metadata_of (proposed_definition p d dep))
        ≡ returned dep
  unfolding Renormalized
  validate-proposed p d dep h =
      let m = proposed_metadata p d in
      let (seen, keyed, titled, normalized) = validate-parts m dep h in
      validate-of_parts (metadata_of (proposed_definition p d dep)) dep
        (visibility-again m.visibility seen) (key-again m.primary_key m.property_mapping keyed)
        titled
        (normalize-again m.lifecycle_status m.deprecation_reason m.deprecation_deadline
          m.replacement_urn dep normalized)
