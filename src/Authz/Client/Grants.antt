-- ===== src/Authz/Client/Grants.antt =====
-- libs/holon_common/authz.py: what stands behind a decision that allows.
use holon.Prelude.{
  ◌≡◌, refl, ap, inl, inr, Bool, true, Option, none, some, String, arith, eq_iff, Option-cases,
}
use holon.Prelude.Text.{Text}
use holon.Prelude.Exec.{returned, Exec}
use holon.Resilience.Breaker.{Answer, value, error, open_error, type_error}
use holon.Resilience.Breaker.Invariant.{call-value}
use holon.SpicedbId.{spicedb_object_id}
use holon.Authz.Cache.{Decision}
use holon.Authz.Client.{
  Principal, HttpError, Upstream, upstream_failure, is_exception, Query, Session, attributes, judge,
  has_permission, policy_result, check_rebac, check_abac, authorize_uncached,
}

judge-true :
    {A : Type 0} (read : A → Bool) (answer : Answer HttpError A)
    → judge read answer ≡ returned true
    → (a : A) × (answer ≡ value a) × (read a ≡ true)
judge-true read (value a) h = (a, refl, cc)
judge-true read (error e) h = absurd (cc)
judge-true read open_error h = absurd (cc)
judge-true read type_error h = absurd (cc)

has_permission-eq :
    (o : Option String) → has_permission o ≡ true → o ≡ some "PERMISSIONSHIP_HAS_PERMISSION"
has_permission-eq none h = absurd (cc)
has_permission-eq (some t) h = ap some ((eq_iff t "PERMISSIONSHIP_HAS_PERMISSION").0 h)

policy_result-eq : (o : Option Bool) → policy_result o ≡ true → o ≡ some true
policy_result-eq o h = ground arith

module _ {W : Type 0} (up : Upstream W) where
  -- The request that `check_rebac` sends.
  abbrev pub ask : Text → Query → Exec HttpError W (Option String)
  ask urn q =
      up.check_permission (spicedb_object_id urn) q.resource_type (spicedb_object_id q.resource_urn)
        q.permission

  -- SpiceDB, asked in the world `w`, grants the permission.
  abbrev pub Grants : Text → Query → W → Type 0
  Grants urn q w = (ask urn q w).0 ≡ returned (some "PERMISSIONSHIP_HAS_PERMISSION")

  -- OPA, asked in the world `w`, does not restrict the resource.
  abbrev pub Permits : Principal → Query → W → Type 0
  Permits p q w = (up.allow p.country (attributes q) w).0 ≡ returned (some true)

  check_rebac-Grants :
      (urn : Text) (q : Query) (s : Session W)
      → (check_rebac up urn q s).0 ≡ returned true
      → Grants urn q s.world × ((check_rebac up urn q s).1.world ≡ (ask urn q s.world).1)
  unfolding check_rebac
  check_rebac-Grants urn q s h =
      let fn : Exec HttpError W (Option String) = ask urn q in
      let w : W = s.world in
      let (a, answered, granted) = judge-true has_permission _ h in
      let (ran, after) =
        call-value s.client.rebac_breaker fn is_exception (some upstream_failure) (up.monotonic w)
          (up.monotonic (fn w).1) w a answered in
      (rw (← has_permission-eq a granted) ran, after)

  check_abac-Permits :
      (p : Principal) (q : Query) (s : Session W)
      → (check_abac up p (attributes q) s).0 ≡ returned true
      → Permits p q s.world
  unfolding check_abac
  check_abac-Permits p q s h =
      let fn : Exec HttpError W (Option Bool) = up.allow p.country (attributes q) in
      let w : W = s.world in
      let (a, answered, allowed) = judge-true policy_result _ h in
      let (ran, _) =
        call-value s.client.abac_breaker fn is_exception (some upstream_failure) (up.monotonic w)
          (up.monotonic (fn w).1) w a answered in
      rw (← policy_result-eq a allowed) ran

  abbrev BackedFor : Option Text → Principal → Query → W → Type 0
  BackedFor none p q w = Permits p q w
  BackedFor (some mandant) p q w = Grants mandant q w × Permits p q (ask mandant q w).1

  -- The actor is granted, its mandant too if it has one, and the policy permits, each asked in the
  -- world that the request before it left.
  abbrev pub IsBacked : Principal → Query → W → Type 0
  IsBacked p q w = Grants p.urn q w × BackedFor p.on_behalf_of p q (ask p.urn q w).1

  pub authorize_uncached-IsBacked :
      (p : Principal) (q : Query) (s : Session W) (d : Decision)
      → (authorize_uncached up p q s).0 ≡ returned d
      → d.allowed ≡ true
      → IsBacked p q s.world
  unfolding authorize_uncached
  authorize_uncached-IsBacked p q s d h a =
      let s1 : Session W = (check_rebac up p.urn q s).1 in
      elim (Option-cases p.on_behalf_of) [
        | inl alone ↦ ground (arith, alone, check_rebac-Grants p.urn q s, check_abac-Permits p q s1)
        | inr (m, e) ↦ ground (
          arith,
          e,
          check_rebac-Grants p.urn q s,
          check_rebac-Grants m q s1,
          check_abac-Permits p q (check_rebac up m q s1).1,
        )
      ]
