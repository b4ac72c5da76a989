-- ===== src/Authz/Client/Denials.antt =====
-- libs/holon_common/authz.py: what `authorize` keeps in the denial cache, and what a cached denial
-- costs.
use holon.Prelude.{ℕ, ◌+◌, ◌≤◌, ◌≡◌, Option, none, some, length, arith}
use holon.Prelude.Exec.{Outcome, returned, raised}
use holon.Authz.Cache.{Decision, Key, put, pop, move_to_end}
use holon.Authz.Cache.Laws.{
  AllDenied, pop-AllDenied, put-AllDenied, move_to_end-AllDenied, evict-AllDenied, length-evict,
  length-pop-le, length-move_to_end,
}
use holon.Authz.Client.{
  Principal, Failure, Upstream, PermissionClient, Query, Session, cache_key, check_rebac,
  check_abac, authorize_uncached, authorize, ask_upstream, consult, with_cache, remember,
  remember_answer,
}

-- Only denials are cached, and no more of them than the maximum.
pub record IsValid (c : PermissionClient) : Type 0 where
  pub denials : AllDenied c.decision_cache
  pub bounded : length c.decision_cache ≤ c.denial_cache_max

module _ {W : Type 0} (up : Upstream W) where
  -- The checks themselves leave the cache and its bound alone.
  authorize_uncached-cache :
      (p : Principal) (q : Query) (s : Session W)
      → let t = (authorize_uncached up p q s).1 in
        (t.client.decision_cache ≡ s.client.decision_cache)
        × (t.client.denial_cache_max ≡ s.client.denial_cache_max)
  unfolding authorize_uncached check_rebac check_abac
  authorize_uncached-cache p q s = ground arith

  authorize_uncached-IsValid :
      (p : Principal) (q : Query) (s : Session W)
      → IsValid s.client
      → IsValid (authorize_uncached up p q s).1.client
  authorize_uncached-IsValid p q s v =
      let (same, max) = authorize_uncached-cache p q s in
      record { denials = rw same v.denials; bounded = rw (same, max) v.bounded }

  remember-IsValid :
      (k : Key) (now : ℕ) (d : Decision) (s : Session W)
      → IsValid s.client
      → IsValid (remember up k now d s).client
  unfolding remember
  remember-IsValid k now d s v =
      let c = put k d (now + s.client.decision_cache_ttl) s.client.decision_cache in
      ground (
        arith,
        put-AllDenied k d (now + s.client.decision_cache_ttl) s.client.decision_cache,
        move_to_end-AllDenied k c,
        evict-AllDenied s.client.denial_cache_max (move_to_end k c),
        length-evict s.client.denial_cache_max (move_to_end k c),
      )

  remember_answer-IsValid :
      (k : Key) (now : ℕ) (r : Outcome Failure Decision) (s : Session W)
      → IsValid s.client
      → IsValid (remember_answer up k now (r, s)).1.client
  unfolding remember_answer
  remember_answer-IsValid k now (returned d) s v = remember-IsValid k now d s v
  remember_answer-IsValid k now (raised f) s v = v

  ask_upstream-IsValid :
      (p : Principal) (q : Query) (now : ℕ) (s : Session W)
      → IsValid s.client
      → IsValid (ask_upstream up p q now s).1.client
  unfolding ask_upstream
  ask_upstream-IsValid p q now s v =
      remember_answer-IsValid (cache_key p q) now _ _ (authorize_uncached-IsValid p q s v)

  consult-IsValid :
      (p : Principal) (q : Query) (now : ℕ) (found : Option (Decision × ℕ)) (s : Session W)
      → IsValid s.client
      → IsValid (consult up p q now found s).1.client
  unfolding consult
  consult-IsValid p q now none s v = ask_upstream-IsValid p q now s v
  consult-IsValid p q now (some (d, expires_at)) s v =
      let k = cache_key p q in
      let c = s.client.decision_cache in
      let popped : Session W = with_cache up (pop k c) s in
      let popped_IsValid : IsValid popped.client = record {
        denials = pop-AllDenied k c v.denials;
        bounded = omega (arith, length-pop-le k c, v.bounded);
      } in
      ground (
        arith,
        move_to_end-AllDenied k c v.denials,
        length-move_to_end k c,
        ask_upstream-IsValid p q now popped popped_IsValid,
      )

  -- Whatever `authorize` returns or raises, the cache holds denials only, at most as many as its
  -- maximum, if it did before.
  pub authorize-IsValid :
      (p : Principal) (q : Query) (s : Session W)
      → IsValid s.client
      → IsValid (authorize up p q s).1.client
  unfolding authorize
  authorize-IsValid p q s v = consult-IsValid p q (up.monotonic s.world) _ s v
