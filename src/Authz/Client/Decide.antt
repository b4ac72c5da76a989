-- ===== src/Authz/Client/Decide.antt =====
-- libs/holon_common/authz.py: what `authorize` decides, from the cache and from the engines, and
-- the audit record of each decision.
use holon.Prelude.{
  ℕ, ◌<◌, ◌≡◌, refl, Bool, true, false, Option, none, some, String, List, [], ◌∷◌, ◌++◌, arith, ltb,
  lt→ltb, Option-cases, Bool-cases, inl, inr, append-nil,
}
use holon.Prelude.Text.{Text}
use holon.Prelude.Exec.{Outcome, returned, raised}
use holon.Authz.Cache.{Decision, Key, get, pop}
use holon.Authz.Cache.Laws.{get-AllDenied}
use holon.Authz.Client.{
  Principal, Failure, Upstream, Query, Audit, Session, attributes, cache_key, check_rebac,
  check_abac, authorize_uncached, authorize, restrict, ask_upstream, consult, with_cache, remember,
  remember_answer, audit,
}
use holon.Authz.Client.Grants.{IsBacked, authorize_uncached-IsBacked}
use holon.Authz.Client.Denials.{IsValid}

-- The audit records that an answer adds: one for a decision, none for an exception.
abbrev pub audit_of : Principal → Query → Bool → Outcome Failure Decision → List Audit
audit_of p q hit (returned d) = audit d p q hit ∷ []
audit_of p q hit (raised f) = []

-- The cache has an entry that has not expired.
abbrev pub is_hit : ℕ → Option (Decision × ℕ) → Bool
is_hit now none = false
is_hit now (some (d, expires_at)) = ltb now expires_at

module _ {W : Type 0} (up : Upstream W) where
  answer-remember_answer :
      (k : Key) (now : ℕ) (r : Outcome Failure Decision) (s : Session W)
      → (remember_answer up k now (r, s)).0 ≡ r
  unfolding remember_answer
  answer-remember_answer k now (returned d) s = refl
  answer-remember_answer k now (raised f) s = refl

  ask_upstream-IsBacked :
      (p : Principal) (q : Query) (now : ℕ) (s : Session W) (d : Decision)
      → (ask_upstream up p q now s).0 ≡ returned d
      → d.allowed ≡ true
      → IsBacked up p q s.world
  unfolding ask_upstream
  ask_upstream-IsBacked p q now s d h = authorize_uncached-IsBacked up p q s d (
      rw
        (answer-remember_answer (cache_key p q) now (authorize_uncached up p q s).0
          (authorize_uncached up p q s).1)
        at h)

  consult-IsBacked :
      (p : Principal) (q : Query) (now : ℕ) (found : Option (Decision × ℕ)) (s : Session W)
      (d : Decision)
      → get (cache_key p q) s.client.decision_cache ≡ found
      → IsValid s.client
      → (consult up p q now found s).0 ≡ returned d
      → d.allowed ≡ true
      → IsBacked up p q s.world
  unfolding consult
  consult-IsBacked p q now none s d e v h a = ask_upstream-IsBacked p q now s d h a
  consult-IsBacked p q now (some (cached, at)) s d e v h a =
      let k = cache_key p q in
      let popped : Session W = with_cache up (pop k s.client.decision_cache) s in
      ground (
        arith,
        get-AllDenied k s.client.decision_cache cached at v.denials e,
        ask_upstream-IsBacked p q now popped d,
      )

  -- `authorize` allows only what the engines grant now: SpiceDB grants the permission to the actor
  -- and, under delegation, to its mandant as well, and OPA then permits the resource. No cached
  -- entry can stand in for that.
  pub authorize-IsBacked :
      (p : Principal) (q : Query) (s : Session W) (d : Decision)
      → IsValid s.client
      → (authorize up p q s).0 ≡ returned d
      → d.allowed ≡ true
      → IsBacked up p q s.world
  unfolding authorize
  authorize-IsBacked p q s d v h a = consult-IsBacked p q (up.monotonic s.world) _ s d refl v h a

  -- A denial that is cached and has not expired is the answer, with one audit record that says it
  -- came from the cache; neither engine is asked, and the breakers and the world stay as they are.
  authorize_cached :
      (p : Principal) (q : Query) (s : Session W) (d : Decision) (expires_at : ℕ)
      → get (cache_key p q) s.client.decision_cache ≡ some (d, expires_at)
      → up.monotonic s.world < expires_at
      → let (r, t) = authorize up p q s in
        (r ≡ returned d)
        × (t.audits ≡ s.audits ++ audit d p q true ∷ [])
        × (t.world ≡ s.world)
        × (t.client.rebac_breaker ≡ s.client.rebac_breaker)
        × (t.client.abac_breaker ≡ s.client.abac_breaker)
  unfolding authorize
  authorize_cached p q s d expires_at e fresh =
      rw (e, consult)
        (rw (lt→ltb (up.monotonic s.world) expires_at fresh) (refl, refl, refl, refl, refl))

  check_rebac-audits :
      (urn : Text) (q : Query) (s : Session W) → (check_rebac up urn q s).1.audits ≡ s.audits
  unfolding check_rebac
  check_rebac-audits urn q s = refl

  check_abac-audits :
      (p : Principal) (r : String) (s : Session W) → (check_abac up p r s).1.audits ≡ s.audits
  unfolding check_abac
  check_abac-audits p r s = refl

  restrict-audits :
      (p : Principal) (q : Query) (s : Session W)
      → let (r, t) = restrict up p q s in t.audits ≡ s.audits ++ audit_of p q false r
  unfolding restrict
  restrict-audits p q s = ground (arith, check_abac-audits p (attributes q) s, append-nil s.audits)

  authorize_uncached-audits :
      (p : Principal) (q : Query) (s : Session W)
      → let (r, t) = authorize_uncached up p q s in t.audits ≡ s.audits ++ audit_of p q false r
  unfolding authorize_uncached
  authorize_uncached-audits p q s =
      let s1 : Session W = (check_rebac up p.urn q s).1 in
      let own = check_rebac-audits p.urn q s in
      elim (Option-cases p.on_behalf_of) [
        | inl alone ↦ ground (arith, alone, own, restrict-audits p q s1, append-nil s.audits)
        | inr (m, e) ↦ ground (
          arith,
          e,
          own,
          check_rebac-audits m q s1,
          restrict-audits p q (check_rebac up m q s1).1,
          append-nil s.audits,
        )
      ]

  remember_answer-audits :
      (k : Key) (now : ℕ) (r : Outcome Failure Decision) (s : Session W)
      → (remember_answer up k now (r, s)).1.audits ≡ s.audits
  unfolding remember_answer remember
  remember_answer-audits k now (returned d) s = ground arith
  remember_answer-audits k now (raised f) s = refl

  ask_upstream-audits :
      (p : Principal) (q : Query) (now : ℕ) (s : Session W)
      → let (r, t) = ask_upstream up p q now s in t.audits ≡ s.audits ++ audit_of p q false r
  unfolding ask_upstream
  ask_upstream-audits p q now s =
      let (r, t) = authorize_uncached up p q s in
      rw
        (
          remember_answer-audits (cache_key p q) now r t,
          answer-remember_answer (cache_key p q) now r t,
        )
        (authorize_uncached-audits p q s)

  consult-audits :
      (p : Principal) (q : Query) (now : ℕ) (found : Option (Decision × ℕ)) (s : Session W)
      → let (r, t) = consult up p q now found s in
        t.audits ≡ s.audits ++ audit_of p q (is_hit now found) r
  unfolding consult
  consult-audits p q now none s = ask_upstream-audits p q now s
  consult-audits p q now (some (d, at)) s =
      let popped : Session W = with_cache up (pop (cache_key p q) s.client.decision_cache) s in
      elim (Bool-cases (ltb now at)) [
        | inl fresh ↦ rw fresh
        | inr stale ↦ rw stale (ask_upstream-audits p q now popped)
      ]

  -- Every decision that `authorize` returns, cached or not, leaves exactly one audit record, with
  -- the decision's outcome and reason and a mark if it came from the cache; an exception leaves
  -- none.
  pub authorize-audits :
      (p : Principal) (q : Query) (s : Session W)
      → let (r, t) = authorize up p q s in
        let hit = is_hit (up.monotonic s.world) (get (cache_key p q) s.client.decision_cache) in
        t.audits ≡ s.audits ++ audit_of p q hit r
  unfolding authorize
  authorize-audits p q s = consult-audits p q (up.monotonic s.world) _ s
