-- ===== src/Authz/Examples.antt =====
-- A permission client over concrete engines, and the theorems on it at concrete inputs.
use holon.Prelude.{ℕ, ◌+◌, ◌≡◌, refl, true, false, none, some, [], ◌∷◌, arith, if◌then◌else◌}
use holon.Prelude.Text.{codes, text_eq}
use holon.Prelude.Exec.{returned}
use holon.SpicedbId.{spicedb_object_id}
use holon.Authz.Cache.{Decision, get, key_eq, pop, put, move_to_end, evict, rebac_denied, granted}
use holon.Authz.Client.{
  Principal, Upstream, init, Query, Session, cache_key, check_rebac, check_abac, authorize_uncached,
  authorize,
}
use holon.Authz.Client.Grants.{IsBacked}
use holon.Authz.Client.Denials.{IsValid, authorize-IsValid}
use holon.Authz.Client.Decide.{authorize-IsBacked, is_hit, audit_of, authorize-audits}
use holon.Resilience.Breaker

-- The world is the clock; jane and the agent are granted everything, nobody else anything.
abbrev engines : Upstream ℕ
engines = record {
  check_permission = λ subject rtype resource permission now. (
    returned (
        if text_eq subject (codes "jane")
        then some "PERMISSIONSHIP_HAS_PERMISSION"
        else if text_eq subject (codes "agent")
        then some "PERMISSIONSHIP_HAS_PERMISSION"
        else none),
    now + 1,
  );
  allow = λ country resource now. (returned (some true), now + 1);
  monotonic = λ now. now;
}

abbrev agent : Principal
agent = record {
  urn = codes "agent";
  kind = "agent";
  tenant_id = "acme";
  display_name = "Agent";
  on_behalf_of = some (codes "jane");
  country = none;
  jti = none;
}

abbrev eve : Principal
eve = record agent { urn = codes "eve"; on_behalf_of = none }

abbrev query : Query
query = record {
  resource_type = "dataset";
  resource_urn = codes "orders";
  permission = "read";
  resource_attributes = none;
}

abbrev start : Session ℕ
start = record { client = init 5; audits = []; world = 100 }

abbrev denied : Decision
denied = record { allowed = false; reason = rebac_denied (codes "eve") "read" (codes "orders") }

-- A client that holds eve's denial until time 105.
abbrev cached : Session ℕ
cached = record start {
  client = record (init 5) { decision_cache = (cache_key eve query, denied, 105) ∷ [] };
}

cached-IsValid : IsValid cached.client
cached-IsValid = record { denials = (refl, tt); bounded = omega arith }

start-IsValid : IsValid start.client
start-IsValid = record { denials = tt; bounded = omega arith }

denial_is_cached :
    (authorize engines eve query start).1.client.decision_cache ≡ cached.client.decision_cache
unfolding authorize authorize_uncached check_rebac cache_key Breaker.call Breaker.init
    spicedb_object_id get key_eq put move_to_end pop evict
denial_is_cached = refl

abbrev agent_granted : Decision
agent_granted = record { allowed = true; reason = granted (codes "agent") "read" (codes "orders") }

agent_allowed : (authorize engines agent query start).0 ≡ returned agent_granted
unfolding authorize authorize_uncached check_rebac check_abac cache_key Breaker.call Breaker.init
    spicedb_object_id get key_eq put move_to_end pop evict
agent_allowed = refl

authorize-IsValid_example : IsValid (authorize engines eve query start).1.client
authorize-IsValid_example = authorize-IsValid engines eve query start start-IsValid

authorize-IsBacked_example : IsBacked engines agent query 100
authorize-IsBacked_example =
    authorize-IsBacked engines agent query start agent_granted start-IsValid agent_allowed refl

authorize-audits_example :
    let (r, t) = authorize engines eve query cached in
    t.audits
    ≡ audit_of eve query (is_hit 100 (get (cache_key eve query) cached.client.decision_cache)) r
authorize-audits_example = authorize-audits engines eve query cached
