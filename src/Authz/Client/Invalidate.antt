-- ===== src/Authz/Client/Invalidate.antt =====
-- libs/holon_common/authz.py: what `invalidate_principal` takes out of the cache.
use holon.Prelude.{
  ◌+◌, ◌≡◌, refl, true, false, not, none, List, [], ◌∷◌, length, filter, All, arith, if◌then◌else◌,
}
use holon.Prelude.Text.{Text}
use holon.Authz.Cache.{Key, key_eq_iff, Entry, DecisionCache, get, pop}
use holon.Authz.Client.{PermissionClient, concerns, pop_each, stale_keys, invalidate_principal}

-- The entries that have nothing to do with the principal.
abbrev pub unconcerned : Text → DecisionCache → DecisionCache
unconcerned urn = filter (λ e. not (concerns urn e.0))

module _ (urn : Text) where
  -- A key that does not concern the principal is none of those popped.
  pop_each-cons :
      (ks : List Key) (e : Entry) (c : DecisionCache)
      → All (λ k. concerns urn k ≡ true) ks
      → concerns urn e.0 ≡ false
      → pop_each ks (e ∷ c) ≡ e ∷ pop_each ks c
  unfolding pop_each pop
  pop_each-cons [] e c h other = refl
  pop_each-cons (k ∷ ks) (j, d, at) c h other =
      ground (arith, key_eq_iff j k, pop_each-cons ks (j, d, at) (pop k c) h.1)

  stale_keys-All : (c : DecisionCache) → All (λ k. concerns urn k ≡ true) (stale_keys urn c)
  unfolding stale_keys
  stale_keys-All [] = tt
  stale_keys-All ((k, d, at) ∷ c) = ground (arith, stale_keys-All c)

  pop_each-stale_keys :
      (c : DecisionCache)
      → (pop_each (stale_keys urn c) c ≡ unconcerned urn c)
        × (length (stale_keys urn c) + length (unconcerned urn c) ≡ length c)
  unfolding stale_keys pop_each pop filter
  pop_each-stale_keys [] = (refl, omega arith)
  pop_each-stale_keys ((k, d, at) ∷ c) = ground (
    arith,
    key_eq_iff k k,
    pop_each-stale_keys c,
    pop_each-cons (stale_keys urn c) (k, d, at) c (stale_keys-All c),
  )

  get-unconcerned :
      (k : Key) (c : DecisionCache)
      → get k (unconcerned urn c) ≡ (if concerns urn k then none else get k c)
  unfolding get filter
  get-unconcerned k [] = ground arith
  get-unconcerned k ((j, d, at) ∷ c) = ground (arith, key_eq_iff j k, get-unconcerned k c)

  -- Invalidating a principal drops exactly the cached decisions in which it acts or is the
  -- mandant, keeps the others in their order, and returns the number of those dropped. So a
  -- lookup finds nothing for a key that concerns the principal, and what it found before for any
  -- other key.
  invalidate_principal_lem :
      (c : PermissionClient)
      → let (purged, c') = invalidate_principal urn c in
        (c'.decision_cache ≡ unconcerned urn c.decision_cache)
        × (purged + length c'.decision_cache ≡ length c.decision_cache)
        × ((k : Key)
            → get k c'.decision_cache ≡ (if concerns urn k then none else get k c.decision_cache))
  unfolding invalidate_principal
  invalidate_principal_lem c =
      let (same, count) = pop_each-stale_keys c.decision_cache in
      (same, rw same count, λ k. rw same (get-unconcerned k c.decision_cache))
