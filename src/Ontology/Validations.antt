-- ===== src/Ontology/Validations.antt =====
-- services/knowledge/app/ontology/publishing.py: `_run_publish_validations`.
use holon.Prelude.{Bool, true, false, not, ◌&&◌, Option, none, some, List, [], ◌∷◌, if◌then◌else◌}
use holon.Prelude.Text.{Text, text_eq}
use holon.Prelude.Exec.{Outcome, returned, raised}
use holon.Actions.Json.{Fields, empty, item}
use holon.Ontology.{
  LifecycleStatus, experimental, active, deprecated, example, promoted, other_status, Definition,
  ObjectType, OntologyError, primary_key_changed, no_identity, rejected_by_validator,
}
use holon.Ontology.Lifecycle.{Deprecation, Metadata, validate_ot_metadata, or_empty}
use holon.Ontology.Drafts.{Outside, or_id, or_experimental, or_normal, day_given}

-- The metadata of a draft, as the validations read it
abbrev pub metadata_of : Definition → Metadata
metadata_of d = record {
  property_mapping = d.property_mapping;
  primary_key = or_id d.primary_key;
  title_key = d.title_key;
  lifecycle_status = or_experimental d.lifecycle_status;
  visibility = or_normal d.visibility;
  deprecation_reason = d.deprecation_reason;
  deprecation_deadline = day_given d.deprecation_deadline;
  replacement_urn = d.replacement_urn;
}

abbrev pub error_of : Outcome OntologyError Deprecation → Option OntologyError
error_of (returned dep) = none
error_of (raised e) = some e

-- `lifecycle_status in ("active", "promoted")`
abbrev pub is_in_use : LifecycleStatus → Bool
is_in_use experimental = false
is_in_use active = true
is_in_use deprecated = false
is_in_use example = false
is_in_use promoted = true
is_in_use (other_status t) = false

abbrev pub key_change : Option ObjectType → Definition → Option OntologyError
key_change none d = none
key_change (some o) d =
    if is_in_use (or_experimental o.definition.lifecycle_status)
      && not (text_eq (or_id d.primary_key) (or_id o.definition.primary_key))
    then some primary_key_changed
    else none

abbrev pub rejected : Option Text → Option OntologyError
rejected none = none
rejected (some t) = some (rejected_by_validator t)

abbrev pub if_any {ℓ} : {A : Type ℓ} → List A → Option OntologyError → Option OntologyError
if_any [] e = none
if_any (x ∷ xs) e = e

abbrev pub if_fields : Fields → Option OntologyError → Option OntologyError
if_fields empty e = none
if_fields (item k v fields) e = e

abbrev pub asked : Option (Text → Option Text) → Text → Option OntologyError
asked none project_urn = some no_identity
asked (some ask) project_urn = rejected (ask project_urn)

-- The first error that the checks give
unfoldable pub first_error : List (Option OntologyError) → Option OntologyError
first_error [] = none
first_error (none ∷ es) = first_error es
first_error (some e ∷ es) = some e

-- `_run_publish_validations`
unfoldable pub run_publish_validations :
    Outside → Option ObjectType → Text → Definition → Option OntologyError
unfolding validate_ot_metadata first_error
run_publish_validations o current name d = first_error (
    error_of (validate_ot_metadata o.fromisoformat (metadata_of d))
    ∷ key_change current d
    ∷ if_any d.implements (rejected (o.implements_error name d))
    ∷ if_fields d.derived_properties (rejected (o.derived_error name d))
    ∷ if_any (or_empty d.project_urn) (asked o.project_error (or_empty d.project_urn))
    ∷ if_any d.markings (rejected (o.markings_error d))
    ∷ if_fields d.property_formats (rejected (o.formats_error d))
    ∷ if_fields d.conditional_formats (rejected (o.conditional_error d))
    ∷ if_fields d.property_types (rejected (o.types_error d))
    ∷ [])
