-- ===== src/Ontology/Publishing.antt =====
-- services/knowledge/app/ontology/publishing.py: `_write_publish` and `publish_object_type_version`.
-- Checks and writes are apart, as in the code, where other requests may run between them.
use holon.Prelude.{
  ℕ, Bool, true, false, Option, none, some, List, [], ◌∷◌, ◌++◌, leb, ◌==◌, if◌then◌else◌,
}
use holon.Prelude.Text.{split, Text}
use holon.Prelude.Exec.{
  returned, raised, pure, gets, modify, require, raise_if, ◌>>=◌, ◌>>◌, close, transaction,
}
use holon.Ontology.{
  ObjectType, draft, published, VersionStatus, Version, Review, Store, OntologyError,
  unknown_version, already_published, not_newer,
}
use holon.Ontology.Drafts.{Run, Outside, or_experimental, get_object_type, find_version}
use holon.Ontology.Validations.{run_publish_validations}
use holon.Ontology.Cascade.{published_form, cascade_lifecycle_from_object_type}

-- UPDATE object_type_version SET status = 'published' …
unfoldable pub mark_version : ℕ → List Version → List Version
mark_version v [] = []
mark_version v (r ∷ rows) =
    let rest = mark_version v rows in
    if r.version == v then record r { status = published } ∷ rest else r ∷ rest

-- What the checks hand to the writes: the draft as it was read, the Object Type as it was read, and
-- the branch and the review, where a review publishes.
pub record Ticket : Type 0 where
  pub draft_row : Version
  pub current : Option ObjectType
  pub review : Option Review

abbrev update_live : Version → Option ObjectType → Option ObjectType
update_live v none = none
update_live v (some o) =
    some (record o { version = v.version; definition = published_form v.definition })

module _ (urn : Text) where
  abbrev name_or_urn : Option ObjectType → Text
  name_or_urn none = urn
  name_or_urn (some o) = o.name

  -- The writes of `_write_publish`, after its guard
  unfoldable pub write_version : Ticket → Option ℕ → Store → Store
  unfolding published_form cascade_lifecycle_from_object_type mark_version
  write_version t previous s = record s {
    versions = mark_version t.draft_row.version s.versions;
    live = update_live t.draft_row s.live;
    relations =
        cascade_lifecycle_from_object_type urn s.today
          (or_experimental t.draft_row.definition.lifecycle_status) s.relations;
    publications =
        s.publications
        ++ (record {
          name = name_or_urn t.current;
          version = t.draft_row.version;
          previous_version = previous;
        }
            ∷ []);
  }

  abbrev version_of : Option ObjectType → Option ℕ
  version_of none = none
  version_of (some o) = some o.version

  -- `_write_publish`, which reads the live version under the lock
  unfoldable pub write_publish : Ticket → Run (Unit {0})
  unfolding write_version
  write_publish t s = elim s.live [
    | none ↦ (returned tt, write_version t (version_of t.current) s)
    | some o ↦
        if leb t.draft_row.version o.version
        then (raised not_newer, s)
        else (returned tt, write_version t (some o.version) s)
  ]

  -- The transaction of a publication, and the invalidation of the cache after it
  unfoldable pub write_publication : Ticket → Run (Unit {0})
  unfolding transaction close write_publish
  write_publication t = transaction (write_publish t) >> modify (λ s. record s { cached = none })

  -- `urn.rsplit(":", 1)[-1]`
  abbrev last_part : List Text → Text
  last_part [] = []
  last_part (p ∷ []) = p
  last_part (p ∷ q ∷ ps) = last_part (q ∷ ps)

  abbrev pub object_type_name : Option ObjectType → Text
  object_type_name none = last_part (split 58 urn)
  object_type_name (some o) = o.name

  -- `previous_version is not None and version <= previous_version`
  abbrev pub is_stale : Version → Option ObjectType → Bool
  is_stale v none = false
  is_stale v (some o) = leb v.version o.version

  abbrev pub is_published : VersionStatus → Bool
  is_published draft = false
  is_published published = true

  module _ (o : Outside) where
    abbrev pub validated : Version → Option ObjectType → Option OntologyError
    validated v current = run_publish_validations o current (object_type_name current) v.definition

    abbrev pub refused_if : Option OntologyError → Run (Unit {0})
    refused_if none s = (returned tt, s)
    refused_if (some e) s = (raised e, s)

    unfoldable pub check_current : Option Review → Version → Option ObjectType → Run Ticket
    unfolding run_publish_validations split
    check_current review v current =
        raise_if (is_stale v current) not_newer
        >> refused_if (validated v current)
        >> pure (record { draft_row = v; current = current; review = review })

    unfoldable pub check_draft : Option Review → Version → Run Ticket
    unfolding get_object_type check_current
    check_draft review v =
        raise_if (is_published v.status) already_published
        >> get_object_type
        >>= check_current review v

    -- What `publish_object_type_version` and an approval check before they write
    unfoldable pub check_version : Option Review → ℕ → Run Ticket
    unfolding find_version check_draft
    check_version review version = gets (λ s. find_version version s.versions) >>= λ found.
        require found unknown_version >>= check_draft review

    -- `publish_object_type_version`
    unfoldable pub publish_object_type_version : ℕ → Run (Option ObjectType)
    unfolding check_version write_publication get_object_type
    publish_object_type_version version =
        check_version none version >>= write_publication >> get_object_type
