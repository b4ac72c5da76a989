-- ===== src/Ontology/Merges.antt =====
-- services/knowledge/app/ontology/branching.py: what a review does to the branch, the versions and the
-- live row together.
use holon.Prelude.{◌≡◌, true, Option, some, ◌⊎◌}
use holon.Prelude.Text.{Text}
use holon.Prelude.Exec.{Outcome, returned, raised}
use holon.Ontology.{Branch, Decision, approved, changes_requested, Store, OntologyError}
use holon.Ontology.Drafts.{Outside}
use holon.Ontology.Branching.{get_branch, is_open, add_review, review_of}
use holon.Ontology.Checked.{tables}
use holon.Ontology.Approvals.{Merges}

module _ (urn : Text) (o : Outside) where
  -- All that a review may come to, in the state that it leaves: an approval that merges, a request for
  -- changes, and an error
  abbrev pub Reviewed :
      Text
      → Text
      → Decision
      → Option Text
      → Store
      → Outcome OntologyError (Option Branch) × Store
      → Type 0
  Reviewed name reviewer decision remark s out =
      ((b : Branch) × (get_branch name s.branches ≡ some b)
        × (is_open b.status ≡ true)
        × (out.0 ≡ returned (get_branch name out.1.branches))
        × (((decision ≡ approved) × Merges urn o (review_of reviewer decision remark b) b s out.1)
            ⊎ ((decision ≡ changes_requested)
                × (out.1 ≡ add_review (review_of reviewer decision remark b) s))))
      ⊎ ((e : OntologyError) × (out.0 ≡ raised e) × (tables out.1 ≡ tables s))
