-- ===== src/Ontology/Chain.antt =====
-- services/knowledge/app/ontology/: the events of publications, in the order of the outbox.
use mathlib.Core.Path.{subst}
use holon.Prelude.{
  ℕ, ◌<◌, ◌≡◌, refl, sym, ap, ◌∙◌, some, List, [], ◌∷◌, ◌++◌, append_assoc, append-nil, All,
}
use holon.Prelude.Text.{Text}
use holon.Ontology.{ObjectType, Publication}
use holon.Ontology.Steps.{
  Step, World, Ledger, ledger, run_steps, insert, branch_off, move, request_changes, check, write,
  recache, Publishes, publishes, Reaches, here, next,
}
use holon.Ontology.Refines.{Grants, steps-Reaches}
use holon.Ontology.Publishing.{Ticket}

-- Events that lead from a version to another: each names the version before it, and is above it.
abbrev pub IsChain : ℕ → List Publication → ℕ → Type 0
IsChain v [] w = v ≡ w
IsChain v (e ∷ es) w = (e.previous_version ≡ some v) × (v < e.version) × IsChain e.version es w

IsChain-append :
    (v w : ℕ) (e : Publication) (es : List Publication)
    → IsChain v es w
    → e.previous_version ≡ some w
    → w < e.version
    → IsChain v (es ++ e ∷ []) e.version
IsChain-append v w e [] h named newer =
    (named ∙ ap some (sym h), subst (λ k. k < e.version) (sym h) newer, refl)
IsChain-append v w e (d ∷ ds) h named newer =
    (h.0, h.1, IsChain-append d.version w e ds h.2 named newer)

-- The events since a ledger, up to what is live now
pub record Told (from : Ledger) (v : ℕ) (l : Ledger) : Type 0 where
  pub row : ObjectType
  pub row_is : l.live ≡ some row
  pub news : List Publication
  pub told : l.publications ≡ from.publications ++ news
  pub chain : IsChain v news row.version

-- Of every ticket
abbrev Anything : Ticket → Type 0
Anything t = Unit

any_step : (urn : Text) (steps : List Step) → All (Grants urn Anything) steps
any_step urn [] = tt
any_step urn (insert v ∷ steps) = (tt, any_step urn steps)
any_step urn (branch_off name by v ∷ steps) = (tt, any_step urn steps)
any_step urn (move id version ∷ steps) = (tt, any_step urn steps)
any_step urn (request_changes r ∷ steps) = (tt, any_step urn steps)
any_step urn (check o review version ∷ steps) = ((λ s u t e. tt), any_step urn steps)
any_step urn (write n ∷ steps) = (tt, any_step urn steps)
any_step urn (recache o ∷ steps) = (tt, any_step urn steps)

anything : (ts : List Ticket) → All Anything ts
anything [] = tt
anything (t ∷ ts) = (tt, anything ts)

module _ {P : Ticket → Type 0} where
  Publishes-Told : {from l m : Ledger} (v : ℕ) → Told from v l → Publishes P l m → Told from v m
  Publishes-Told {from} v h (publishes o told t name ok newer) =
      let e : Publication = record {
        name = name;
        version = t.draft_row.version;
        previous_version = some o.version;
      } in
      record {
        row = _;
        row_is = refl;
        news = h.news ++ e ∷ [];
        told = ap (λ es. es ++ e ∷ []) h.told ∙ append_assoc from.publications h.news (e ∷ []);
        chain =
            IsChain-append v o.version e h.news
              (subst (IsChain v h.news) (sym (cc (h.row_is))) h.chain) refl newer;
      }

  Reaches-Told : {from l m : Ledger} (v : ℕ) → Told from v l → Reaches P l m → Told from v m
  Reaches-Told v h here = h
  Reaches-Told v h (next path step) = Publishes-Told v (Reaches-Told v h path) step

-- Let an Object Type be live. However the requests go on, whatever their checks let pass, the events that
-- they add to the outbox lead from the version that was live to the one that is: each is above the version
-- that it names as the one before, which is the version of the event before it.
pub run_steps-Told :
    (urn : Text) (steps : List Step) (w : World) (o : ObjectType)
    → w.store.live ≡ some o
    → Told (ledger w.store) o.version (ledger (run_steps urn steps w).store)
run_steps-Told urn steps w o live =
    Reaches-Told o.version
      (record {
        row = o;
        row_is = live;
        news = [];
        told = sym (append-nil w.store.publications);
        chain = refl;
      })
      (steps-Reaches urn Anything steps w o live (any_step urn steps) (anything w.pending))
