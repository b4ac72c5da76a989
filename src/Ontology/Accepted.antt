-- ===== src/Ontology/Accepted.antt =====
-- services/knowledge/app/ontology/publishing.py: what a definition that passes `_run_publish_validations`
-- has, said without the code of the validations.
use holon.Prelude.{
  ◌≡◌, refl, true, Option, none, some, List, [], ◌∷◌, ◌⊎◌, inl, inr, All, Bool-cases,
}
use holon.Prelude.Text.{Text, text_eq, text_eq_iff}
use holon.Prelude.Exec.{Outcome, returned, raised}
use holon.Actions.Json.{Fields, empty, item}
use holon.Ontology.{
  LifecycleStatus, experimental, active, deprecated, example, promoted, other_status, Definition,
  ObjectType, OntologyError,
}
use holon.Ontology.Lifecycle.{Deprecation, validate_ot_metadata, or_empty}
use holon.Ontology.Drafts.{Outside, or_id, or_experimental}
use holon.Ontology.Publishing.{Ticket, object_type_name}
use holon.Ontology.Validations.{
  metadata_of, error_of, key_change, is_in_use, rejected, if_any, if_fields, asked, first_error,
  run_publish_validations,
}

-- `lifecycle_status` is active or promoted, where a text that is empty counts as experimental.
abbrev pub InUse : LifecycleStatus → Type 0
InUse active = Unit
InUse promoted = Unit
InUse experimental = ⊥
InUse deprecated = ⊥
InUse example = ⊥
InUse (other_status t) = ⊥

abbrev pub KeepsKey : Option ObjectType → Definition → Type 0
KeepsKey none d = Unit
KeepsKey (some row) d =
    InUse row.definition.lifecycle_status → or_id d.primary_key ≡ or_id row.definition.primary_key

-- A project is none, or Identity was asked about it and had no objection.
abbrev pub ProjectAgreed : Outside → Text → Type 0
ProjectAgreed o [] = Unit
ProjectAgreed o (c ∷ s) =
    (ask : (Text → Option Text)) × (o.project_error ≡ some ask) × (ask (c ∷ s) ≡ none)

-- The metadata is valid, an Object Type in use keeps its primary key, and every validator that the
-- definition concerns has no objection.
pub record Accepts (o : Outside) (current : Option ObjectType) (name : Text) (d : Definition)
    : Type 0 where
  pub metadata :
      (dep : Deprecation) × (validate_ot_metadata o.fromisoformat (metadata_of d) ≡ returned dep)
  pub key : KeepsKey current d
  pub implements : (d.implements ≡ []) ⊎ (o.implements_error name d ≡ none)
  pub derived : (d.derived_properties ≡ empty) ⊎ (o.derived_error name d ≡ none)
  pub project : ProjectAgreed o (or_empty d.project_urn)
  pub markings : (d.markings ≡ []) ⊎ (o.markings_error d ≡ none)
  pub formats : (d.property_formats ≡ empty) ⊎ (o.formats_error d ≡ none)
  pub conditional : (d.conditional_formats ≡ empty) ⊎ (o.conditional_error d ≡ none)
  pub types : (d.property_types ≡ empty) ⊎ (o.types_error d ≡ none)

-- The request that made the ticket asked validators of which `Allowed` holds, and they accepted.
abbrev pub IsPassed : Text → (Outside → Type 0) → Ticket → Type 0
IsPassed urn Allowed t =
    (o : Outside) × Allowed o
    × Accepts o t.current (object_type_name urn t.current) t.draft_row.definition

first_error-none :
    (es : List (Option OntologyError)) → first_error es ≡ none → All (λ e. e ≡ none) es
unfolding first_error
first_error-none [] h = tt
first_error-none (none ∷ es) h = (refl, first_error-none es h)
first_error-none (some e ∷ es) h = absurd (cc)

error_of-none :
    (r : Outcome OntologyError Deprecation)
    → error_of r ≡ none
    → (dep : Deprecation) × (r ≡ returned dep)
error_of-none (returned dep) h = (dep, refl)
error_of-none (raised e) h = absurd (cc)

rejected-none : (e : Option Text) → rejected e ≡ none → e ≡ none
rejected-none none h = refl
rejected-none (some t) h = absurd (cc)

if_any-none :
    (xs : List Text) (e : Option Text) → if_any xs (rejected e) ≡ none → (xs ≡ []) ⊎ (e ≡ none)
if_any-none [] e h = inl refl
if_any-none (x ∷ xs) e h = inr (rejected-none e h)

if_fields-none :
    (fields : Fields) (e : Option Text)
    → if_fields fields (rejected e) ≡ none
    → (fields ≡ empty) ⊎ (e ≡ none)
if_fields-none empty e h = inl refl
if_fields-none (item k v fields) e h = inr (rejected-none e h)

project-none :
    (o : Outside) (ask : Option (Text → Option Text)) (u : Text)
    → o.project_error ≡ ask
    → if_any u (asked ask u) ≡ none
    → ProjectAgreed o u
project-none o ask [] e h = tt
project-none o none (c ∷ s) e h = absurd (cc)
project-none o (some ask) (c ∷ s) e h = (ask, e, rejected-none (ask (c ∷ s)) h)

in_use : (s : LifecycleStatus) → InUse s → is_in_use (or_experimental s) ≡ true
in_use active h = refl
in_use promoted h = refl
in_use experimental h = absurd h
in_use deprecated h = absurd h
in_use example h = absurd h
in_use (other_status t) h = absurd h

key_change-none :
    (current : Option ObjectType) (d : Definition)
    → key_change current d ≡ none
    → KeepsKey current d
key_change-none none d h = tt
key_change-none (some row) d h = λ used.
    let used_b = in_use row.definition.lifecycle_status used in
    let key = or_id d.primary_key in
    let live = or_id row.definition.primary_key in
    elim (Bool-cases (text_eq key live)) [
      | inl same ↦ (text_eq_iff key live).0 same
      | inr other ↦ absurd (cc (rw other at (rw used_b at h)))
    ]

pub run_publish_validations-Accepts :
    (o : Outside) (current : Option ObjectType) (name : Text) (d : Definition)
    → run_publish_validations o current name d ≡ none
    → Accepts o current name d
unfolding run_publish_validations
run_publish_validations-Accepts o current name d h =
    let all =
      first_error-none
        (error_of (validate_ot_metadata o.fromisoformat (metadata_of d))
          ∷ key_change current d
          ∷ if_any d.implements (rejected (o.implements_error name d))
          ∷ if_fields d.derived_properties (rejected (o.derived_error name d))
          ∷ if_any (or_empty d.project_urn) (asked o.project_error (or_empty d.project_urn))
          ∷ if_any d.markings (rejected (o.markings_error d))
          ∷ if_fields d.property_formats (rejected (o.formats_error d))
          ∷ if_fields d.conditional_formats (rejected (o.conditional_error d))
          ∷ if_fields d.property_types (rejected (o.types_error d))
          ∷ [])
        h in
    let (m, r1) = all in
    let (k, r2) = r1 in
    let (im, r3) = r2 in
    let (de, r4) = r3 in
    let (pr, r5) = r4 in
    let (ma, r6) = r5 in
    let (fo, r7) = r6 in
    let (co, r8) = r7 in
    let (ty, nothing) = r8 in
    record {
      metadata = error_of-none (validate_ot_metadata o.fromisoformat (metadata_of d)) m;
      key = key_change-none current d k;
      implements = if_any-none d.implements (o.implements_error name d) im;
      derived = if_fields-none d.derived_properties (o.derived_error name d) de;
      project = project-none o o.project_error (or_empty d.project_urn) refl pr;
      markings = if_any-none d.markings (o.markings_error d) ma;
      formats = if_fields-none d.property_formats (o.formats_error d) fo;
      conditional = if_fields-none d.conditional_formats (o.conditional_error d) co;
      types = if_fields-none d.property_types (o.types_error d) ty;
    }
