-- ===== src/Ontology/Drafts.antt =====
-- services/knowledge/app/ontology/publishing.py: `propose_object_type_version`, with the reads of
-- object_types.py. Validators of other modules are parameters, since they read other tables.
use holon.Prelude.{
  is_some, ℕ, max, Option, none, some, List, [], ◌∷◌, ◌++◌, ◌+◌, ◌==◌, if◌then◌else◌,
}
use holon.Prelude.Text.{Text, codes}
use holon.Prelude.Exec.{Outcome, returned, raised, Exec, pure, gets, require, ◌>>=◌}
use holon.Actions.Json.{Fields}
use holon.Ontology.{
  LifecycleStatus, experimental, active, deprecated, example, promoted, other_status, Visibility,
  normal, other_visibility, Definition, ObjectType, draft, Version, Store, OntologyError,
  unknown_object_type, unique_violation,
}
use holon.Ontology.Lifecycle.{RawDeadline, on_day, Deprecation, Metadata, validate_ot_metadata}

abbrev pub Run : Type 0 → Type 0
Run A = Exec OntologyError Store A

-- What is outside of these modules: the date parser, what the validators of the other registries
-- say of a draft, and Identity's answer about a project, if a URL and a token are given.
pub record Outside : Type 0 where
  pub fromisoformat : Text → Option ℕ
  pub implements_error : Text → Definition → Option Text
  pub derived_error : Text → Definition → Option Text
  pub project_error : Option (Text → Option Text)
  pub markings_error : Definition → Option Text
  pub formats_error : Definition → Option Text
  pub conditional_error : Definition → Option Text
  pub types_error : Definition → Option Text

-- The arguments of a proposal: `none` leaves the field as it is published.
pub record Proposal : Type 0 where
  pub property_mapping : Option Fields
  pub description : Option Text
  pub implements : Option (List Text)
  pub derived_properties : Option Fields
  pub project_urn : Option Text
  pub markings : Option (List Text)
  pub property_formats : Option Fields
  pub conditional_formats : Option Fields
  pub property_types : Option Fields
  pub link_constraint_bindings : Option Fields
  pub interface_property_bindings : Option Fields
  pub primary_key : Option Text
  pub title_key : Option Text
  pub plural_display_name : Option Text
  pub lifecycle_status : Option LifecycleStatus
  pub visibility : Option Visibility
  pub icon : Option Text
  pub deprecation_reason : Option Text
  pub deprecation_deadline : Option RawDeadline
  pub replacement_urn : Option Text

-- `x if x is not None else y`
abbrev pub given_or {ℓ} : {A : Type ℓ} → Option A → A → A
given_or none y = y
given_or (some x) y = x

abbrev pub given_or_maybe {ℓ} : {A : Type ℓ} → Option A → Option A → Option A
given_or_maybe none y = y
given_or_maybe (some x) y = some x

-- `key or "id"`, `status or "experimental"` and `visibility or "normal"`
abbrev pub or_id : Text → Text
or_id [] = codes "id"
or_id (c ∷ s) = c ∷ s

abbrev pub or_experimental : LifecycleStatus → LifecycleStatus
or_experimental experimental = experimental
or_experimental active = active
or_experimental deprecated = deprecated
or_experimental example = example
or_experimental promoted = promoted
or_experimental (other_status []) = experimental
or_experimental (other_status (c ∷ s)) = other_status (c ∷ s)

abbrev pub or_normal : Visibility → Visibility
or_normal (other_visibility []) = normal
or_normal v = v

-- A date, as a deadline that is given
abbrev pub day_given : Option ℕ → Option RawDeadline
day_given none = none
day_given (some day) = some (on_day day)

-- `get_object_type`, with its cache
unfoldable pub get_object_type : Run (Option ObjectType)
get_object_type s = elim s.cached [
  | some o ↦ (returned (some o), s)
  | none ↦ (returned s.live, record s { cached = s.live })
]

-- `get_object_type_version`
unfoldable pub find_version : ℕ → List Version → Option Version
find_version v [] = none
find_version v (r ∷ rows) = if r.version == v then some r else find_version v rows

-- SELECT COALESCE(MAX(version), 0)
unfoldable pub highest_known_version : List Version → ℕ
highest_known_version [] = 0
highest_known_version (r ∷ rows) = max r.version (highest_known_version rows)

-- The metadata of a draft-to-be: what is given, else what is live.
abbrev pub proposed_metadata : Proposal → Definition → Metadata
proposed_metadata p d = record {
  property_mapping = given_or p.property_mapping d.property_mapping;
  primary_key = given_or p.primary_key (or_id d.primary_key);
  title_key = given_or_maybe p.title_key d.title_key;
  lifecycle_status = given_or p.lifecycle_status (or_experimental d.lifecycle_status);
  visibility = given_or p.visibility (or_normal d.visibility);
  deprecation_reason = given_or_maybe p.deprecation_reason d.deprecation_reason;
  deprecation_deadline = given_or_maybe p.deprecation_deadline (day_given d.deprecation_deadline);
  replacement_urn = given_or_maybe p.replacement_urn d.replacement_urn;
}

abbrev pub proposed_definition : Proposal → Definition → Deprecation → Definition
proposed_definition p d dep =
    let m = proposed_metadata p d in
    record {
      property_mapping = m.property_mapping;
      description = given_or p.description d.description;
      implements = given_or p.implements d.implements;
      derived_properties = given_or p.derived_properties d.derived_properties;
      project_urn = given_or_maybe p.project_urn d.project_urn;
      markings = given_or p.markings d.markings;
      property_formats = given_or p.property_formats d.property_formats;
      conditional_formats = given_or p.conditional_formats d.conditional_formats;
      property_types = given_or p.property_types d.property_types;
      link_constraint_bindings = given_or p.link_constraint_bindings d.link_constraint_bindings;
      interface_property_bindings =
          given_or p.interface_property_bindings d.interface_property_bindings;
      primary_key = m.primary_key;
      title_key = m.title_key;
      plural_display_name = given_or p.plural_display_name d.plural_display_name;
      lifecycle_status = dep.lifecycle_status;
      visibility = m.visibility;
      icon = given_or_maybe p.icon d.icon;
      deprecation_reason = dep.deprecation_reason;
      deprecation_deadline = dep.deprecation_deadline;
      replacement_urn = dep.replacement_urn;
    }

-- A pure check, as a part of a run
abbrev pub lifted {ℓ} : {E S A : Type ℓ} → Outcome E A → Exec E S A
lifted o s = (o, s)

module _ (o : Outside) where
  -- The draft that a proposal makes of what is live, with the next number
  unfoldable pub draft_from : Proposal → ObjectType → Run Version
  unfolding highest_known_version validate_ot_metadata
  draft_from p current = gets (λ s. highest_known_version s.versions) >>= λ highest.
      lifted (validate_ot_metadata o.fromisoformat (proposed_metadata p current.definition))
      >>= λ dep. pure (record {
        tenant_id = current.tenant_id;
        version = max current.version highest + 1;
        definition = proposed_definition p current.definition dep;
        status = draft;
      })

  unfoldable pub plan_draft : Proposal → Run Version
  unfolding get_object_type draft_from
  plan_draft p = get_object_type >>= λ current. require current unknown_object_type >>= draft_from p

-- INSERT INTO object_type_version …, whose pairs (object_type_urn, version) are UNIQUE
unfoldable pub insert_draft : Version → Run Version
unfolding find_version
insert_draft v s =
    if is_some (find_version v.version s.versions)
    then (raised unique_violation, s)
    else (returned v, record s { versions = s.versions ++ (v ∷ []) })

unfoldable pub propose_object_type_version : Outside → Proposal → Run Version
unfolding plan_draft insert_draft
propose_object_type_version o p = plan_draft o p >>= insert_draft
