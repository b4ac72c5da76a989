-- ===== src/Ontology/Steps.antt =====
-- services/knowledge/app/ontology/: requests that run side by side, as the sequence of what each does
-- to the tables, and the ledger of what is live that they stand for.
use holon.Prelude.{ℕ, ◌<◌, Option, none, some, List, [], ◌∷◌, ◌++◌, take, drop}
use holon.Prelude.Text.{Text}
use holon.Prelude.Exec.{Outcome, returned, raised}
use holon.Ontology.{ObjectType, Version, Review, Publication, Store, OntologyError}
use holon.Ontology.Drafts.{Run, Outside, insert_draft}
use holon.Ontology.Publishing.{Ticket, check_version}
use holon.Ontology.Cascade.{published_form}
use holon.Ontology.Publishing.{write_publication}
use holon.Ontology.Branching.{write_approval, insert_branch, move_branch, add_review}

-- What a request does at a time: the insertion of a draft that it made at any time before, the writes
-- of branching.py, the checks of a publication or of an approval, and the writes of one that has passed
-- its checks. The cache may come to hold anything, as entries expire and late readers fill it.
pub data Step : Type 0 where
  insert : Version → Step
  branch_off : Text → Text → Version → Step
  move : ℕ → ℕ → Step
  request_changes : Review → Step
  check : Outside → Option Review → ℕ → Step
  write : ℕ → Step
  recache : Option ObjectType → Step

-- The tables, and the requests between their checks and their writes
pub record World : Type 0 where
  pub store : Store
  pub pending : List Ticket

-- What a publication stands for: the live row, and what was told of it
pub record Ledger : Type 0 where
  pub live : Option ObjectType
  pub publications : List Publication

abbrev pub ledger : Store → Ledger
ledger s = record { live = s.live; publications = s.publications }

abbrev pub joined : Outcome OntologyError Ticket → List Ticket → List Ticket
joined (returned t) pending = pending ++ (t ∷ [])
joined (raised e) pending = pending

abbrev pub nth : ℕ → List Ticket → List Ticket
nth n pending = take 1 (drop n pending)

module _ (urn : Text) where
  -- The writes of a request that passed its checks: `publish_object_type_version`, or an approval
  unfoldable pub write_as : Option Review → Ticket → Run (Unit {0})
  unfolding write_publication write_approval
  write_as none t = write_publication urn t
  write_as (some r) t = write_approval urn r t

  unfoldable pub write_ticket : Ticket → Run (Unit {0})
  unfolding write_as
  write_ticket t = write_as t.review t

  abbrev pub write_first : List Ticket → Store → Store
  write_first [] s = s
  write_first (t ∷ ts) s = (write_ticket t s).1

  unfoldable pub run_step : Step → World → World
  unfolding insert_draft insert_branch move_branch add_review check_version write_ticket take drop
  run_step (insert v) w = record w { store = (insert_draft v w.store).1 }
  run_step (branch_off name by v) w = record w { store = (insert_branch name by v w.store).1 }
  run_step (move id version) w = record w { store = move_branch id version w.store }
  run_step (request_changes r) w = record w { store = add_review r w.store }
  run_step (check o review version) w =
      let out = check_version urn o review version w.store in
      record { store = out.1; pending = joined out.0 w.pending }
  run_step (write n) w = record w { store = write_first (nth n w.pending) w.store }
  run_step (recache o) w = record w { store = record w.store { cached = o } }

  unfoldable pub run_steps : List Step → World → World
  unfolding run_step
  run_steps [] w = w
  run_steps (step ∷ steps) w = run_steps steps (run_step step w)

module _ (P : Ticket → Type 0) where
  -- The specification: a definition, of a ticket of which `P` holds, with a newer version, takes the place
  -- of the live one, and one event says so.
  pub data Publishes : Ledger → Ledger → Type 0 where
    publishes :
        (o : ObjectType) (told : List Publication) (t : Ticket) (name : Text)
        → P t
        → o.version < t.draft_row.version
        → Publishes
            (record { live = some o; publications = told })
            (record {
              live = some (record o {
                version = t.draft_row.version;
                definition = published_form t.draft_row.definition;
              });
              publications =
                  told
                  ++ (record {
                    name = name;
                    version = t.draft_row.version;
                    previous_version = some o.version;
                  }
                      ∷ []);
            })

  -- Any number of publications
  pub data Reaches (from : Ledger) : Ledger → Type 0 where
    here : Reaches from from
    next : {l m : Ledger} → Reaches from l → Publishes l m → Reaches from m
