-- ===== src/Ontology.antt =====
-- services/knowledge/app/ontology/: an Object Type, its versions, branches and reviews, and the tables
-- of migrations/0000_baseline.sql that hold them, for one URN.
pub mod Lifecycle
pub mod Drafts
pub mod Validations
pub mod Accepted
pub mod Cascade
pub mod Publishing
pub mod Branching
pub mod Steps
pub mod Checked
pub mod Refines
pub mod Chain
pub mod Approvals
pub mod Merges
pub mod Metadata
pub mod Proposed
mod Examples
use holon.Prelude.{ℕ, Option, none, some, List, [], ◌∷◌}
use holon.Prelude.Text.{Text, codes}
use holon.Actions.Json.{Fields}

-- The texts of VALID_LIFECYCLE_STATUSES, and any other
pub data LifecycleStatus : Type 0 where
  experimental : LifecycleStatus
  active : LifecycleStatus
  deprecated : LifecycleStatus
  example : LifecycleStatus
  promoted : LifecycleStatus
  other_status : Text → LifecycleStatus

-- The texts of VALID_VISIBILITIES, and any other
pub data Visibility : Type 0 where
  prominent : Visibility
  normal : Visibility
  hidden : Visibility
  other_visibility : Text → Visibility

-- The columns that `object_type` and `object_type_version` share. A date is a number of days.
pub record Definition : Type 0 where
  pub property_mapping : Fields
  pub description : Text
  pub implements : List Text
  pub derived_properties : Fields
  pub project_urn : Option Text
  pub markings : List Text
  pub property_formats : Fields
  pub conditional_formats : Fields
  pub property_types : Fields
  pub link_constraint_bindings : Fields
  pub interface_property_bindings : Fields
  pub primary_key : Text
  pub title_key : Option Text
  pub plural_display_name : Text
  pub lifecycle_status : LifecycleStatus
  pub visibility : Visibility
  pub icon : Option Text
  pub deprecation_reason : Option Text
  pub deprecation_deadline : Option ℕ
  pub replacement_urn : Option Text

-- The row of `object_type`, which is the live definition
pub record ObjectType : Type 0 where
  pub tenant_id : Text
  pub name : Text
  pub version : ℕ
  pub definition : Definition

pub data VersionStatus : Type 0 where
  draft : VersionStatus
  published : VersionStatus

-- A row of `object_type_version`
pub record Version : Type 0 where
  pub tenant_id : Text
  pub version : ℕ
  pub definition : Definition
  pub status : VersionStatus

pub data BranchStatus : Type 0 where
  open_branch : BranchStatus
  merged : BranchStatus

-- A row of `ontology_branch`
pub record Branch : Type 0 where
  pub id : ℕ
  pub tenant_id : Text
  pub branch_name : Text
  pub version : ℕ
  pub created_by_urn : Text
  pub status : BranchStatus

pub data Decision : Type 0 where
  approved : Decision
  changes_requested : Decision
  other_decision : Text → Decision

-- A row of `ontology_review`, without its id, its time and the tenant, which is that of the branch
pub record Review : Type 0 where
  pub branch_id : ℕ
  pub reviewer_urn : Text
  pub decision : Decision
  pub note : Option Text

-- The payload of `knowledge.objecttype.published`, without the URN
pub record Publication : Type 0 where
  pub name : Text
  pub version : ℕ
  pub previous_version : Option ℕ

-- A row of `relation_type`: the columns that a publication reads or writes
pub record Relation : Type 0 where
  pub source_urn : Text
  pub target_urn : Text
  pub mid_urn : Option Text
  pub lifecycle_status : LifecycleStatus
  pub deprecation_reason : Option Text
  pub deprecation_deadline : Option ℕ
  pub replacement_urn : Option Text

-- The rows about the URN, the relation types, the events in the outbox, and what definition_cache.py
-- holds of the Object Type
pub record Store : Type 0 where
  pub live : Option ObjectType
  pub cached : Option ObjectType
  pub versions : List Version
  pub branches : List Branch
  pub reviews : List Review
  pub publications : List Publication
  pub relations : List Relation
  pub today : ℕ

-- The ValueErrors of these modules, and the violation of a UNIQUE constraint
pub data OntologyError : Type 0 where
  invalid_lifecycle_status : OntologyError
  promoted_elsewhere : OntologyError
  invalid_visibility : OntologyError
  primary_key_required : OntologyError
  key_not_mapped : OntologyError
  reason_required : OntologyError
  reason_too_long : OntologyError
  invalid_deadline : OntologyError
  deadline_required : OntologyError
  replacement_too_long : OntologyError
  unknown_object_type : OntologyError
  unknown_version : OntologyError
  already_published : OntologyError
  not_newer : OntologyError
  primary_key_changed : OntologyError
  no_identity : OntologyError
  rejected_by_validator : Text → OntologyError
  unique_violation : OntologyError
  branch_exists : OntologyError
  unknown_branch : OntologyError
  branch_not_open : OntologyError
  invalid_decision : OntologyError
