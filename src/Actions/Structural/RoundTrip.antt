-- ===== src/Actions/Structural/RoundTrip.antt =====
-- action_structural.py: `revert_structural` undoes what the link rules wrote.
use holon.Prelude.{◌≡◌, refl, Bool, List, [], ◌∷◌}
use holon.Prelude.Text.{Text}
use holon.Prelude.Exec.{Outcome, returned, raised, Exec, pure, ◌>>=◌}
use holon.Actions.Db.{
  Error, Storage, foreign_key, join_dataset, object_backed, unsupported, Relation,
}
use holon.Actions.State.{
  Edit, modify_property, link, create_object, delete_target, delete_other, End, Prior, Link,
  Structural, Db,
}
use holon.Actions.Edits.{Stamp}
use holon.Actions.Structural.{
  load_relation, resolve_end, Runtime, Request, write_link, overlay_link, source_edit_key, link_key,
}
use holon.Actions.Structural.Rules.{
  apply_link, lift, found, described, with_link, with_relation, with_source, with_ends,
  apply_structural_edits, storage_of,
}
use holon.Actions.Structural.Revert.{
  reversed, revert_prior, revert_links, revert_objects, revert_structural,
}
use holon.Actions.Structural.Views.{
  Same, Same-trans, revert_prior-Same, revert_links-append, revert-foreign_key, revert-overlay,
}

-- What a write recorded undoes it, in the database that the write left.
abbrev Undone : Stamp → Db → Outcome Error Prior × Db → Type 0
Undone again before (returned p, after) = Same (revert_prior again p after) before
Undone again before (raised e, after) = Unit

write_link-Undone :
    (again : Stamp) (req : Request) (r : Relation) (unlink : Bool) (s t : Text) (kind : Storage)
    (db : Db)
    → Undone again db (write_link req r unlink s t kind db)
unfolding write_link overlay_link
write_link-Undone again req r unlink s t foreign_key db =
    revert-foreign_key again req.stamp (source_edit_key req r s) _ db _ refl
write_link-Undone again req r unlink s t join_dataset db =
    revert-overlay again req.stamp (link_key req r s t) _ _ db _ refl
write_link-Undone again req r unlink s t object_backed db =
    revert-overlay again req.stamp (link_key req r s t) _ _ db _ refl
write_link-Undone again req r unlink s t (unsupported u) db = tt

-- The same of a whole link rule, whose link carries what was recorded.
abbrev LinkUndone : Stamp → Db → Outcome Error Link × Db → Type 0
LinkUndone again before (returned l, after) = Same (revert_prior again l.prior after) before
LinkUndone again before (raised e, after) = Unit

-- Binds keep what the last step gives.
lift-Undone :
    {A : Type 0} (again : Stamp) (db : Db) (r : Outcome Error A) (f : A → Exec Error Db Link)
    → ((a : A) → LinkUndone again db (f a db))
    → LinkUndone again db ((lift r >>= f) db)
lift-Undone again db (returned a) f h = h a
lift-Undone again db (raised e) f h = tt

described-Undone :
    (again : Stamp) (db : Db) (x : Outcome Error Prior × Db) (f : Prior → Link)
    → ((p : Prior) → (f p).prior ≡ p)
    → Undone again db x
    → LinkUndone again db (((λ s. x) >>= λ p. pure (f p)) db)
described-Undone again db (returned p, after) f e h = rw (e p) h
described-Undone again db (raised er, after) f e h = tt

apply_link-Undone :
    (run : Runtime) (req : Request) (again : Stamp) (unlink : Bool) (relation_type : Text)
    (source target : End) (db : Db)
    → LinkUndone again db (apply_link run req unlink relation_type source target db)
unfolding apply_link
apply_link-Undone run req again unlink relation_type source target db =
    let found_relation = found (load_relation req.tenant_id relation_type db.relation_type) in
    lift-Undone again db found_relation (with_relation run req unlink relation_type source target)
      λ relation.
        lift-Undone again db (resolve_end run req source)
          (with_source run req unlink relation_type target relation)
          λ s.
            lift-Undone again db (resolve_end run req target)
              (with_ends run req unlink relation_type relation s)
              λ t.
                described-Undone again db
                  (write_link req relation unlink s t (storage_of relation) db)
                  (described unlink relation_type s t relation) (λ p. refl)
                  (write_link-Undone again req relation unlink s t (storage_of relation) db)

-- No rule creates or deletes an object.
abbrev pub AllLinks : List Edit → Type 0
AllLinks [] = Unit
AllLinks (modify_property name source ∷ edits) = AllLinks edits
AllLinks (link unlink relation source target ∷ edits) = AllLinks edits
AllLinks (create_object t key properties ∷ edits) = ⊥
AllLinks (delete_target ∷ edits) = ⊥
AllLinks (delete_other t name ∷ edits) = ⊥

abbrev RulesUndone : Stamp → Db → Outcome Error Structural × Db → Type 0
RulesUndone again before (returned s, after) =
    (s.objects ≡ []) × Same (revert_links again (reversed s.links) after) before
RulesUndone again before (raised e, after) = Unit

reversed-cons :
    (again : Stamp) (l : Link) (links : List Link) (a : Db)
    → revert_links again (reversed (l ∷ links)) a
      ≡ revert_prior again l.prior (revert_links again (reversed links) a)
unfolding reversed revert_links
reversed-cons again l links a = revert_links-append again (reversed links) (l ∷ []) a

cons-Undone :
    (again : Stamp) (before middle : Db) (l : Link) (x : Outcome Error Structural × Db)
    → Same (revert_prior again l.prior middle) before
    → RulesUndone again middle x
    → RulesUndone again before (((λ s. x) >>= λ rest. pure (with_link l rest)) middle)
cons-Undone again before middle l (raised e, after) h g = tt
cons-Undone again before middle l (returned s, after) h g = (
  g.0,
  rw (reversed-cons again l s.links after)
      (Same-trans _ _ _ (revert_prior-Same again l.prior _ _ g.1) h),
)

step-Undone :
    (again : Stamp) (before : Db) (x : Outcome Error Link × Db) (f : Exec Error Db Structural)
    → LinkUndone again before x
    → ((db : Db) → RulesUndone again db (f db))
    → RulesUndone again before (((λ s. x) >>= λ l. (f >>= λ rest. pure (with_link l rest))) before)
step-Undone again before (raised e, after) f h g = tt
step-Undone again before (returned l, after) f h g =
    cons-Undone again before after l (f after) h (g after)

apply_structural_edits-Undone :
    (run : Runtime) (req : Request) (again : Stamp) (edits : List Edit)
    → AllLinks edits
    → (db : Db) → RulesUndone again db (apply_structural_edits run req edits db)
unfolding apply_structural_edits reversed revert_links
apply_structural_edits-Undone run req again [] h db =
    (refl, record { edits = λ k. refl; links = λ k. refl })
apply_structural_edits-Undone run req again (modify_property name source ∷ edits) h db =
    apply_structural_edits-Undone run req again edits h db
apply_structural_edits-Undone run req again (link unlink relation_type source target ∷ edits) h db =
    step-Undone again db (apply_link run req unlink relation_type source target db)
      (apply_structural_edits run req edits)
      (apply_link-Undone run req again unlink relation_type source target db)
      (apply_structural_edits-Undone run req again edits h)
apply_structural_edits-Undone run req again (create_object t key properties ∷ edits) h db = absurd h
apply_structural_edits-Undone run req again (delete_target ∷ edits) h db = absurd h
apply_structural_edits-Undone run req again (delete_other t name ∷ edits) h db = absurd h

-- Whatever link rules an Action applies, on foreign keys, join datasets or object-backed relations
-- and however they overlap, reverting the payload that `apply_structural_edits` returns gives every
-- property overlay and every link overlay the value it had before. No rule may create or delete an
-- object.
pub revert_structural-apply_structural_edits :
    (run : Runtime) (req : Request) (again : Stamp) (edits : List Edit) (db after : Db)
    (s : Structural)
    → AllLinks edits
    → apply_structural_edits run req edits db ≡ (returned s, after)
    → Same (revert_structural req.tenant_id s again after) db
unfolding revert_structural revert_objects reversed
revert_structural-apply_structural_edits run req again edits db after s h e =
    let done : RulesUndone again db (returned s, after) =
      rw e at (apply_structural_edits-Undone run req again edits h db) in
    rw done.0 done.1
