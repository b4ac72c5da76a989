-- ===== src/Ontology/Branching.antt =====
-- services/knowledge/app/ontology/branching.py: branches of an Object Type, and the review that merges
-- one.
use holon.Prelude.{
  is_some, ℕ, Bool, true, false, not, Option, none, some, List, [], ◌∷◌, ◌++◌, length, ◌==◌,
  if◌then◌else◌,
}
use holon.Prelude.Text.{Text, text_eq}
use holon.Prelude.Exec.{
  returned, raised, pure, raise, gets, modify, require, raise_if, ◌>>=◌, ◌>>◌, close, transaction,
}
use holon.Ontology.{
  Version, Branch, BranchStatus, open_branch, merged, Decision, approved, changes_requested,
  other_decision, Review, Store, unique_violation, branch_exists, unknown_branch, branch_not_open,
  invalid_decision,
}
use holon.Ontology.Drafts.{Run, Outside, Proposal, propose_object_type_version}
use holon.Ontology.Publishing.{Ticket, write_publish, check_version}

unfoldable pub get_branch : Text → List Branch → Option Branch
get_branch name [] = none
get_branch name (b ∷ rows) = if text_eq b.branch_name name then some b else get_branch name rows

-- UPDATE ontology_branch SET … WHERE id = …
unfoldable pub update_branch : (Branch → Branch) → ℕ → List Branch → List Branch
update_branch f id [] = []
update_branch f id (b ∷ rows) =
    let rest = update_branch f id rows in if b.id == id then f b ∷ rest else b ∷ rest

abbrev pub is_open : BranchStatus → Bool
is_open open_branch = true
is_open merged = false

-- `get_branch` at the end of an operation
abbrev pub read_branch : Text → Run (Option Branch)
read_branch name s = (returned (get_branch name s.branches), s)

-- INSERT INTO ontology_branch …, whose pairs (object_type_urn, branch_name) are UNIQUE
unfoldable pub insert_branch : Text → Text → Version → Run (Unit {0})
unfolding get_branch
insert_branch name created_by_urn v s =
    if is_some (get_branch name s.branches) then (raised unique_violation, s) else (
      returned tt,
      record s {
        branches =
            s.branches
            ++ (record {
              id = length s.branches;
              tenant_id = v.tenant_id;
              branch_name = name;
              version = v.version;
              created_by_urn = created_by_urn;
              status = open_branch;
            }
                ∷ []);
      },
    )

-- UPDATE ontology_branch SET version = … WHERE id = …
unfoldable pub move_branch : ℕ → ℕ → Store → Store
unfolding update_branch
move_branch id version s = record s {
  branches = update_branch (λ b. record b { version = version }) id s.branches;
}

-- A branch that is there and open
unfoldable pub require_open : Text → Run Branch
unfolding get_branch
require_open name = gets (λ s. get_branch name s.branches) >>= λ found.
    require found unknown_branch >>= λ b.
    raise_if (not (is_open b.status)) branch_not_open >> pure b

unfoldable pub add_review : Review → Store → Store
add_review r s = record s { reviews = s.reviews ++ (r ∷ []) }

-- UPDATE ontology_branch SET status = 'merged' WHERE id = …
unfoldable pub merge_branch : ℕ → Store → Store
unfolding update_branch
merge_branch id s = record s {
  branches = update_branch (λ b. record b { status = merged }) id s.branches;
}

abbrev pub is_decision : Decision → Bool
is_decision approved = true
is_decision changes_requested = true
is_decision (other_decision t) = false

abbrev pub review_of : Text → Decision → Option Text → Branch → Review
review_of reviewer_urn decision note b = record {
  branch_id = b.id;
  reviewer_urn = reviewer_urn;
  decision = decision;
  note = note;
}

module _ (o : Outside) where
  unfoldable pub create_branch : Text → Text → Proposal → Run (Option Branch)
  unfolding get_branch propose_object_type_version insert_branch
  create_branch name created_by_urn p = gets (λ s. get_branch name s.branches) >>= λ found.
      raise_if (is_some found) branch_exists
      >> propose_object_type_version o p
      >>= insert_branch name created_by_urn
      >> read_branch name

  unfoldable pub update_branch_draft : Text → Proposal → Run (Option Branch)
  unfolding require_open propose_object_type_version move_branch
  update_branch_draft name p = require_open name >>= λ b.
      propose_object_type_version o p
      >>= (λ v. modify (move_branch b.id v.version))
      >> read_branch name

module _ (urn : Text) where
  -- The transaction that an approval writes
  unfoldable pub write_review : Review → Ticket → Run (Unit {0})
  unfolding transaction close add_review write_publish merge_branch
  write_review r t =
      transaction
        (modify (add_review r) >> write_publish urn t >> modify (merge_branch r.branch_id))

  -- The writes of an approval, and the invalidation of the cache after them
  unfoldable pub write_approval : Review → Ticket → Run (Unit {0})
  unfolding write_review
  write_approval r t = write_review r t >> modify (λ s. record s { cached = none })

  module _ (o : Outside) where
    -- An approval: the checks of the branch's draft, then the writes
    unfoldable pub approve : Review → Branch → Run (Unit {0})
    unfolding check_version write_approval
    approve r b = check_version urn o (some r) b.version >>= write_approval r

    abbrev pub decide : Decision → Review → Branch → Run (Unit {0})
    decide approved r b = approve r b
    decide changes_requested r b = modify (add_review r)
    decide (other_decision t) r b = raise invalid_decision

    unfoldable pub review_branch : Text → Text → Decision → Option Text → Run (Option Branch)
    unfolding require_open approve add_review
    review_branch name reviewer_urn decision note =
        raise_if (not (is_decision decision)) invalid_decision
        >> require_open name
        >>= (λ b. decide decision (review_of reviewer_urn decision note b) b)
        >> read_branch name
