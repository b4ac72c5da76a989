-- ===== src/Ontology/Lifecycle.antt =====
-- services/knowledge/app/ontology/lifecycle.py, and `validate_ot_metadata` of object_types.py.
-- `date.fromisoformat` is a parameter.
use holon.Prelude.{
  is_some, ℕ, Bool, true, false, not, Option, none, some, [], ◌∷◌, take, length, ltb, if◌then◌else◌,
}
use holon.Prelude.Text.{strip, Text}
use holon.Prelude.Exec.{Outcome, returned, raised}
use holon.Actions.Json.{Fields, find}
use holon.Ontology.{
  LifecycleStatus, experimental, active, deprecated, example, promoted, other_status, Visibility,
  prominent, normal, hidden, other_visibility, OntologyError, invalid_lifecycle_status,
  promoted_elsewhere, invalid_visibility, primary_key_required, key_not_mapped, reason_required,
  reason_too_long, invalid_deadline, deadline_required, replacement_too_long,
}

pub data Target : Type 0 where
  on_object_type : Target
  on_property : Target
  on_registry : Target

-- A deadline as a caller gives it: a date, a text, or something else
pub data RawDeadline : Type 0 where
  on_day : ℕ → RawDeadline
  written : Text → RawDeadline
  other_value : RawDeadline

-- What `normalize_deprecation_metadata` returns
pub record Deprecation : Type 0 where
  pub lifecycle_status : LifecycleStatus
  pub deprecation_reason : Option Text
  pub deprecation_deadline : Option ℕ
  pub replacement_urn : Option Text

unfoldable pub assert_lifecycle_for_target : Target → LifecycleStatus → Option OntologyError
assert_lifecycle_for_target target (other_status t) = some invalid_lifecycle_status
assert_lifecycle_for_target on_object_type promoted = none
assert_lifecycle_for_target on_property promoted = some promoted_elsewhere
assert_lifecycle_for_target on_registry promoted = some promoted_elsewhere
assert_lifecycle_for_target target experimental = none
assert_lifecycle_for_target target active = none
assert_lifecycle_for_target target deprecated = none
assert_lifecycle_for_target target example = none

abbrev pub is_deprecated : LifecycleStatus → Bool
is_deprecated experimental = false
is_deprecated active = false
is_deprecated deprecated = true
is_deprecated example = false
is_deprecated promoted = false
is_deprecated (other_status t) = false

-- `x or ""`
abbrev pub or_empty : Option Text → Text
or_empty none = []
or_empty (some t) = t

module _ (fromisoformat : Text → Option ℕ) where
  abbrev written_date : Text → Outcome OntologyError (Option ℕ)
  written_date [] = returned none
  written_date (c ∷ s) = elim (fromisoformat (take 10 (c ∷ s))) [
    | none ↦ raised invalid_deadline
    | some day ↦ returned (some day)
  ]

  unfoldable pub parse_deadline : Option RawDeadline → Outcome OntologyError (Option ℕ)
  unfolding strip take
  parse_deadline none = returned none
  parse_deadline (some (on_day day)) = returned (some day)
  parse_deadline (some (written t)) = written_date (strip t)
  parse_deadline (some other_value) = raised invalid_deadline

  abbrev with_replacement : Text → ℕ → Text → Outcome OntologyError Deprecation
  with_replacement reason day [] = returned (record {
    lifecycle_status = deprecated;
    deprecation_reason = some reason;
    deprecation_deadline = some day;
    replacement_urn = none;
  })
  with_replacement reason day (c ∷ s) =
      if ltb 512 (length (c ∷ s))
      then raised replacement_too_long
      else returned (record {
        lifecycle_status = deprecated;
        deprecation_reason = some reason;
        deprecation_deadline = some day;
        replacement_urn = some (c ∷ s);
      })

  abbrev with_deadline :
      Text → Outcome OntologyError (Option ℕ) → Text → Outcome OntologyError Deprecation
  with_deadline reason (raised e) replacement = raised e
  with_deadline reason (returned none) replacement = raised deadline_required
  with_deadline reason (returned (some day)) replacement = with_replacement reason day replacement

  abbrev pub with_reason :
      Text → Outcome OntologyError (Option ℕ) → Text → Outcome OntologyError Deprecation
  with_reason [] deadline replacement = raised reason_required
  with_reason (c ∷ s) deadline replacement =
      if ltb 2000 (length (c ∷ s))
      then raised reason_too_long
      else with_deadline (c ∷ s) deadline replacement

  unfoldable pub normalize_deprecation_metadata :
      Target
      → LifecycleStatus
      → Option Text
      → Option RawDeadline
      → Option Text
      → Outcome OntologyError Deprecation
  unfolding strip parse_deadline assert_lifecycle_for_target
  normalize_deprecation_metadata target status reason deadline replacement =
      elim (assert_lifecycle_for_target target status) [
        | some e ↦ raised e
        | none ↦
            if is_deprecated status
            then with_reason (strip (or_empty reason)) (parse_deadline deadline)
                (strip (or_empty replacement))
            else returned (record {
              lifecycle_status = status;
              deprecation_reason = none;
              deprecation_deadline = none;
              replacement_urn = none;
            })
      ]

abbrev pub is_valid_visibility : Visibility → Bool
is_valid_visibility prominent = true
is_valid_visibility normal = true
is_valid_visibility hidden = true
is_valid_visibility (other_visibility t) = false

-- `title_key and title_key not in property_mapping`
abbrev pub title_is_unmapped : Option Text → Fields → Bool
title_is_unmapped none mapping = false
title_is_unmapped (some []) mapping = false
title_is_unmapped (some (c ∷ s)) mapping = not (is_some (find (c ∷ s) mapping))

-- `none` when the key is a key of the mapping
abbrev pub key_error : Text → Fields → Option OntologyError
key_error [] mapping = some primary_key_required
key_error (c ∷ s) mapping = if is_some (find (c ∷ s) mapping) then none else some key_not_mapped

-- The fields that `validate_ot_metadata` reads
pub record Metadata : Type 0 where
  pub property_mapping : Fields
  pub primary_key : Text
  pub title_key : Option Text
  pub lifecycle_status : LifecycleStatus
  pub visibility : Visibility
  pub deprecation_reason : Option Text
  pub deprecation_deadline : Option RawDeadline
  pub replacement_urn : Option Text

unfoldable pub validate_ot_metadata :
    (Text → Option ℕ) → Metadata → Outcome OntologyError Deprecation
unfolding normalize_deprecation_metadata find
validate_ot_metadata fromisoformat m =
    if not (is_valid_visibility m.visibility)
    then raised invalid_visibility
    else elim (key_error m.primary_key m.property_mapping) [
      | some e ↦ raised e
      | none ↦
          if title_is_unmapped m.title_key m.property_mapping
          then raised key_not_mapped
          else normalize_deprecation_metadata fromisoformat on_object_type m.lifecycle_status
              m.deprecation_reason m.deprecation_deadline m.replacement_urn
    ]
