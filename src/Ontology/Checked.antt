-- ===== src/Ontology/Checked.antt =====
-- services/knowledge/app/ontology/publishing.py: what the checks of a publication leave and return.
use mathlib.Core.Path.{subst}
use holon.Prelude.{
  ℕ, ◌≡◌, refl, sym, ap, Bool-cases, Option-cases, Option, none, some, List, [], ◌∷◌, inl, inr, ◌∙◌,
  ◌==◌, ==_iff,
}
use holon.Prelude.Text.{Text}
use holon.Prelude.Exec.{returned, >>=-holds, >>=-returned}
use holon.Ontology.{ObjectType, Version, Review, Store}
use holon.Ontology.Drafts.{Outside, get_object_type, find_version}
use holon.Ontology.Publishing.{
  Ticket, is_stale, is_published, validated, check_version, check_draft, check_current,
}
use holon.Ontology.Accepted.{Accepts, run_publish_validations-Accepts}
use holon.Ontology.Publishing.{object_type_name}

-- All but the cache
abbrev pub tables : Store → Store
tables s = record s { cached = none }

module _ (urn : Text) where
  -- The checks change the cache alone, and what they return has passed.
  get_object_type-tables : (s : Store) → tables (get_object_type s).1 ≡ tables s
  unfolding get_object_type
  get_object_type-tables s = elim (Option-cases s.cached) [
    | inl e ↦ rw e refl
    | inr (o, e) ↦ rw e refl
  ]

  check_current-tables :
      (o : Outside) (review : Option Review) (v : Version) (current : Option ObjectType) (s : Store)
      → tables (check_current urn o review v current s).1 ≡ tables s
  unfolding check_current
  check_current-tables o review v current s = elim (Bool-cases (is_stale urn v current)) [
    | inl stale ↦ rw stale refl
    | inr newer ↦ elim (Option-cases (validated urn o v current)) [
      | inl passed ↦ rw newer (rw passed refl)
      | inr (e, failed) ↦ rw newer (rw failed refl)
    ]
  ]

  check_draft-tables :
      (o : Outside) (review : Option Review) (v : Version) (s : Store)
      → tables (check_draft urn o review v s).1 ≡ tables s
  unfolding check_draft
  check_draft-tables o review v s = elim (Bool-cases (is_published urn v.status)) [
    | inl done ↦ rw done refl
    | inr fresh ↦ rw fresh (
        >>=-holds (λ t. tables t ≡ tables s) get_object_type (check_current urn o review v) s
          (get_object_type-tables s)
          (λ current _.
            check_current-tables o review v current (get_object_type s).1
            ∙ get_object_type-tables s))
  ]

  pub check_version-tables :
      (o : Outside) (review : Option Review) (version : ℕ) (s : Store)
      → tables (check_version urn o review version s).1 ≡ tables s
  unfolding check_version
  check_version-tables o review version s = elim (Option-cases (find_version version s.versions)) [
    | inl missing ↦ rw missing refl
    | inr (v, found) ↦ rw found (check_draft-tables o review v s)
  ]

  check_current-Accepts :
      (o : Outside) (review : Option Review) (v : Version) (current : Option ObjectType)
      (s u : Store) (t : Ticket)
      → check_current urn o review v current s ≡ (returned t, u)
      → Accepts o t.current (object_type_name urn t.current) t.draft_row.definition
        × (t.draft_row ≡ v)
  unfolding check_current
  check_current-Accepts o review v current s u t h = elim (Bool-cases (is_stale urn v current)) [
    | inl stale ↦ absurd (cc (rw stale at h))
    | inr newer ↦ elim (Option-cases (validated urn o v current)) [
      | inl passed ↦
          let same : record { draft_row = v; current = current; review = review } ≡ t =
            (cc (rw passed at (rw newer at h))) in
          let accepted =
            run_publish_validations-Accepts o current (object_type_name urn current) v.definition
              passed in
          subst
            (λ k.
              Accepts o k.current (object_type_name urn k.current) k.draft_row.definition
              × (k.draft_row ≡ v))
            same (accepted, refl)
      | inr (e, failed) ↦ absurd (cc (rw failed at (rw newer at h)))
    ]
  ]

  check_draft-Accepts :
      (o : Outside) (review : Option Review) (v : Version) (s u : Store) (t : Ticket)
      → check_draft urn o review v s ≡ (returned t, u)
      → Accepts o t.current (object_type_name urn t.current) t.draft_row.definition
        × (t.draft_row ≡ v)
  unfolding check_draft
  check_draft-Accepts o review v s u t h = elim (Bool-cases (is_published urn v.status)) [
    | inl done ↦ absurd (cc (rw done at h))
    | inr fresh ↦
        let read =
          >>=-returned get_object_type (check_current urn o review v) s u t (rw fresh at h) in
        check_current-Accepts o review v read.0 (get_object_type s).1 u t read.2
  ]

  find_version-version :
      (version : ℕ) (rows : List Version) (v : Version)
      → find_version version rows ≡ some v
      → v.version ≡ version
  unfolding find_version
  find_version-version version [] v h = absurd (cc)
  find_version-version version (r ∷ rows) v h = elim (Bool-cases (r.version == version)) [
    | inl same ↦
        let it : r ≡ v = (cc (rw same at h)) in
        sym (ap (λ (k : Version). k.version) it) ∙ (==_iff r.version version).0 same
    | inr other ↦ find_version-version version rows v (rw other at h)
  ]

  pub check_version-Accepts :
      (o : Outside) (review : Option Review) (version : ℕ) (s u : Store) (t : Ticket)
      → check_version urn o review version s ≡ (returned t, u)
      → Accepts o t.current (object_type_name urn t.current) t.draft_row.definition
        × (t.draft_row.version ≡ version)
  unfolding check_version
  check_version-Accepts o review version s u t h =
      elim (Option-cases (find_version version s.versions)) [
        | inl missing ↦ absurd (cc (rw missing at h))
        | inr (v, found) ↦
            let checked = check_draft-Accepts o review v s u t (rw found at h) in
            (
              checked.0,
              ap (λ (k : Version). k.version) checked.1
                  ∙ find_version-version version s.versions v found,
            )
      ]
