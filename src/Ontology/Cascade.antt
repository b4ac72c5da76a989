-- ===== src/Ontology/Cascade.antt =====
-- services/knowledge/app/ontology: what a publication makes of the draft, and of the relation types of
-- the Object Type (`_write_publish` of publishing.py, `cascade_lifecycle_from_object_type` of
-- relation_types.py).
use holon.Prelude.{
  ℕ, Bool, true, false, ◌||◌, Option, none, some, List, [], ◌∷◌, map, ◌+◌, if◌then◌else◌,
}
use holon.Prelude.Text.{Text, codes, text_eq}
use holon.Actions.Json.{Value, null, text, scalar, object, Fields, empty, item, put}
use holon.Ontology.{
  LifecycleStatus, experimental, active, deprecated, example, promoted, other_status, Definition,
  Relation,
}
use holon.Ontology.Drafts.{or_id, or_experimental, or_normal}

abbrev pub status_text : LifecycleStatus → Text
status_text experimental = codes "experimental"
status_text active = codes "active"
status_text deprecated = codes "deprecated"
status_text example = codes "example"
status_text promoted = codes "promoted"
status_text (other_status t) = t

-- `lifecycle in ("experimental", "deprecated", "example")`
abbrev pub is_unsettled : LifecycleStatus → Bool
is_unsettled experimental = true
is_unsettled active = false
is_unsettled deprecated = true
is_unsettled example = true
is_unsettled promoted = false
is_unsettled (other_status t) = false

abbrev cascaded : Text → Value → Value
cascaded status null = null
cascaded status (text t) = text t
cascaded status (scalar t) = scalar t
cascaded status (object rule) = object (put (codes "lifecycle_status") (text status) rule)

-- The cascade of `_write_publish` onto the types of the properties
unfoldable pub cascaded_props : Text → Fields → Fields
unfolding put
cascaded_props status empty = empty
cascaded_props status (item key rule fields) =
    item key (cascaded status rule) (cascaded_props status fields)

-- What the live row holds once a draft is published
unfoldable pub published_form : Definition → Definition
unfolding cascaded_props
published_form d =
    let status = or_experimental d.lifecycle_status in
    record d {
      property_types =
          if is_unsettled status
          then cascaded_props (status_text status) d.property_types
          else d.property_types;
      primary_key = or_id d.primary_key;
      lifecycle_status = status;
      visibility = or_normal d.visibility;
    }

abbrev is_urn : Text → Option Text → Bool
is_urn urn none = false
is_urn urn (some t) = text_eq t urn

abbrev touches : Text → Relation → Bool
touches urn r = text_eq r.source_urn urn || text_eq r.target_urn urn || is_urn urn r.mid_urn

-- COALESCE(NULLIF(deprecation_reason, ''), 'Cascaded from linked ObjectType deprecation')
abbrev reason_or_cascade : Option Text → Text
reason_or_cascade none = codes "Cascaded from linked ObjectType deprecation"
reason_or_cascade (some []) = codes "Cascaded from linked ObjectType deprecation"
reason_or_cascade (some (c ∷ s)) = c ∷ s

abbrev day_or : Option ℕ → ℕ → ℕ
day_or none day = day
day_or (some d) day = d

abbrev reopened : LifecycleStatus → Relation → Relation
reopened status r = if is_unsettled r.lifecycle_status then r else record r {
  lifecycle_status = status;
  deprecation_reason = none;
  deprecation_deadline = none;
  replacement_urn = none;
}

abbrev ended : ℕ → Relation → Relation
ended today r = record r {
  lifecycle_status = deprecated;
  deprecation_reason = some (reason_or_cascade r.deprecation_reason);
  deprecation_deadline = some (day_or r.deprecation_deadline (today + 90));
}

abbrev deprecate_unless : ℕ → LifecycleStatus → Relation → Relation
deprecate_unless today deprecated r = r
deprecate_unless today s r = ended today r

abbrev cascade_onto : ℕ → LifecycleStatus → Relation → Relation
cascade_onto today experimental r = reopened experimental r
cascade_onto today example r = reopened example r
cascade_onto today deprecated r = deprecate_unless today r.lifecycle_status r
cascade_onto today active r = r
cascade_onto today promoted r = r
cascade_onto today (other_status t) r = r

unfoldable pub cascade_lifecycle_from_object_type :
    Text → ℕ → LifecycleStatus → List Relation → List Relation
cascade_lifecycle_from_object_type urn today status rows =
    map (λ r. if touches urn r then cascade_onto today status r else r) rows
