-- ===== src/Ontology/Examples.antt =====
-- services/knowledge/app/ontology/: branches and reviews of one Object Type.
use holon.Prelude.{ℕ, ◌≡◌, refl, Option, none, some, List, [], ◌∷◌}
use holon.Prelude.Text.{Text, codes}
use holon.Prelude.Exec.{Outcome}
use holon.Actions.Json.{empty, item, text}
use holon.Ontology.{
  experimental, normal, Definition, ObjectType, draft, Version, Branch, approved, Store, merged,
  OntologyError,
}
use holon.Ontology.Drafts.{Outside, Proposal, propose_object_type_version}
use holon.Ontology.Branching.{create_branch, review_branch}
use holon.Ontology.Steps.{Step, insert, check, write, move, World, ledger, run_steps}
use holon.Ontology.Chain.{Told, run_steps-Told}
use holon.Ontology.Proposed.{IsDraft, propose_object_type_version-IsDraft}

abbrev urn : Text
urn = codes "hl:acme:global:object-type:order"

abbrev order_definition : Definition
order_definition = record {
  property_mapping = item (codes "id") (text (codes "order_id")) empty;
  description = codes "An order";
  implements = [];
  derived_properties = empty;
  project_urn = none;
  markings = [];
  property_formats = empty;
  conditional_formats = empty;
  property_types = empty;
  link_constraint_bindings = empty;
  interface_property_bindings = empty;
  primary_key = codes "id";
  title_key = none;
  plural_display_name = codes "Orders";
  lifecycle_status = experimental;
  visibility = normal;
  icon = none;
  deprecation_reason = none;
  deprecation_deadline = none;
  replacement_urn = none;
}

abbrev order_type : ObjectType
order_type = record {
  tenant_id = codes "acme";
  name = codes "Order";
  version = 1;
  definition = order_definition;
}

abbrev lenient : Outside
lenient = record {
  fromisoformat = λ t. none;
  implements_error = λ name d. none;
  derived_error = λ name d. none;
  project_error = none;
  markings_error = λ d. none;
  formats_error = λ d. none;
  conditional_error = λ d. none;
  types_error = λ d. none;
}

abbrev new_description : Proposal
new_description = record {
  property_mapping = none;
  description = some (codes "A placed order");
  implements = none;
  derived_properties = none;
  project_urn = none;
  markings = none;
  property_formats = none;
  conditional_formats = none;
  property_types = none;
  link_constraint_bindings = none;
  interface_property_bindings = none;
  primary_key = none;
  title_key = none;
  plural_display_name = none;
  lifecycle_status = none;
  visibility = none;
  icon = none;
  deprecation_reason = none;
  deprecation_deadline = none;
  replacement_urn = none;
}

abbrev at_first : Store
at_first = record {
  live = some order_type;
  cached = none;
  versions = [];
  branches = [];
  reviews = [];
  publications = [];
  relations = [];
  today = 20_000;
}

abbrev branched : Store
unfolding create_branch
branched = (create_branch lenient (codes "wording") (codes "ada") new_description at_first).1

abbrev review_it : Store → Outcome OntologyError (Option Branch) × Store
review_it s = review_branch urn lenient (codes "wording") (codes "grace") approved none s

abbrev live_version : Store → ℕ
live_version s = elim s.live [ none ↦ 0 | some o ↦ o.version ]

create_then_approve : live_version (review_it branched).1 ≡ 2
unfolding create_branch review_branch
create_then_approve = refl

abbrev drafted : ℕ → Version
drafted n = record {
  tenant_id = codes "acme";
  version = n;
  definition = order_definition;
  status = draft;
}

abbrev idle : World
idle = record { store = at_first; pending = [] }

-- Two publications pass their checks before either writes, the newer writes first, and the older is
-- then refused.
abbrev race : List Step
race =
    insert (drafted 2)
    ∷ insert (drafted 3)
    ∷ check lenient none 2
    ∷ check lenient none 3
    ∷ write 1
    ∷ write 0
    ∷ []

race_outcome : live_version (run_steps urn race idle).store ≡ 3
unfolding run_steps
race_outcome = refl

run_steps-Told_example : Told (ledger at_first) 1 (ledger (run_steps urn race idle).store)
run_steps-Told_example = run_steps-Told urn race idle order_type refl

-- An approval passes its checks, then `update_branch_draft` moves the branch on, and then the approval
-- writes: the branch is merged at a draft that nobody reviewed or published.
abbrev overtaken : List Step
overtaken =
    check lenient
      (some
        (record { branch_id = 0; reviewer_urn = codes "grace"; decision = approved; note = none }))
      2
    ∷ insert (drafted 3)
    ∷ move 0 3
    ∷ write 0
    ∷ []

overtaken_outcome :
    let s = (run_steps urn overtaken (record { store = branched; pending = [] })).store in
    (live_version s ≡ 2)
    × (s.branches
        ≡ record {
          id = 0;
          tenant_id = codes "acme";
          branch_name = codes "wording";
          version = 3;
          created_by_urn = codes "ada";
          status = merged;
        }
          ∷ [])
unfolding create_branch run_steps
overtaken_outcome = (refl, refl)

abbrev wording_draft : Version
wording_draft = record {
  tenant_id = codes "acme";
  version = 2;
  definition = record order_definition { description = codes "A placed order" };
  status = draft;
}

propose_object_type_version-IsDraft_example :
    IsDraft lenient at_first
      (propose_object_type_version lenient new_description at_first).1
      wording_draft
unfolding propose_object_type_version
propose_object_type_version-IsDraft_example =
    propose_object_type_version-IsDraft lenient new_description at_first _ wording_draft refl
