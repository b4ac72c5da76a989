-- ===== src/Authz/Client.antt =====
-- libs/holon_common/authz.py: check_rebac, check_abac, authorize, _authorize_uncached,
-- _audit_decision and invalidate_principal of PermissionClient; class Principal of auth.py.
pub mod Grants
pub mod Denials
pub mod Decide
pub mod Invalidate
use holon.Prelude.{
  ℕ, ◌+◌, ◌≤◌, Bool, true, false, not, ◌||◌, Option, none, some, String, List, [], ◌∷◌, ◌++◌,
  length, filter, str_eq, ltb, leb, ◌==◌, if◌then◌else◌,
}
use holon.Prelude.Text.{Text, text_eq}
use holon.Prelude.Exec.{Outcome, returned, raised, Exec, pure, raise, gets, modify, ◌>>=◌, ◌>>◌}
use holon.Resilience.Breaker.{CircuitBreaker, Answer, value, error, open_error, type_error, call}
use holon.Resilience.Breaker
use holon.SpicedbId.{spicedb_object_id}
use holon.Authz.Cache.{
  Reason, rebac_denied, mandant_denied, abac_denied, granted, Decision, Key, DecisionCache, get,
  pop, put, move_to_end, evict,
}

pub record Principal : Type 0 where
  pub urn : Text
  pub kind : String
  pub tenant_id : String
  pub display_name : String
  pub on_behalf_of : Option Text
  pub country : Option String
  pub jti : Option String

-- What a request can raise: an HTTP status, a failure of the transport, or the CancelledError of the
-- task
pub data HttpError : Type 0 where
  status_error : ℕ → HttpError
  transport_error : HttpError
  cancelled : HttpError

-- `_upstream_failure`, which is asked about Exceptions only
unfoldable pub upstream_failure : HttpError → Bool
upstream_failure (status_error status) = (status == 429) || leb 500 status
upstream_failure transport_error = true
upstream_failure cancelled = true

-- A CancelledError is no Exception.
abbrev pub is_exception : HttpError → Bool
is_exception (status_error status) = true
is_exception transport_error = true
is_exception cancelled = false

-- What a check can raise: the HTTP error, CircuitBreakerOpenError, or a fault of the breaker.
pub data Failure : Type 0 where
  http : HttpError → Failure
  circuit_open breaker_fault : Failure

-- The two engines and the clock, over the state `W` of the world outside the process: the
-- permissionship that SpiceDB's check returns for a subject id and a resource id, the result of
-- OPA's `allow`, and `time.monotonic()`.
pub record Upstream (W : Type 0) : Type 0 where
  pub check_permission : Text → String → Text → String → Exec HttpError W (Option String)
  pub allow : Option String → String → Exec HttpError W (Option Bool)
  pub monotonic : W → ℕ

pub record PermissionClient : Type 0 where
  pub rebac_breaker : CircuitBreaker
  pub abac_breaker : CircuitBreaker
  pub decision_cache_ttl : ℕ
  pub denial_cache_max : ℕ
  pub decision_cache : DecisionCache

-- `__init__`, with the time to live that it is given
abbrev pub init : ℕ → PermissionClient
init ttl = record {
  rebac_breaker = Breaker.init 5 30;
  abac_breaker = Breaker.init 5 30;
  decision_cache_ttl = ttl;
  denial_cache_max = 10_000;
  decision_cache = [];
}

-- What one call asks for. The attributes are the JSON text of the dict, if there is one.
pub record Query : Type 0 where
  pub resource_type : String
  pub resource_urn : Text
  pub permission : String
  pub resource_attributes : Option String

-- An audit record of `emit_audit`: `allowed` is the outcome.
pub record Audit : Type 0 where
  pub allowed : Bool
  pub actor_urn : Text
  pub asked : Query
  pub reason : Reason
  pub cache_hit : Bool

pub record Session (W : Type 0) : Type 0 where
  pub client : PermissionClient
  pub audits : List Audit
  pub world : W

-- `resource_attributes or {}`
abbrev pub attributes : Query → String
attributes q = elim q.resource_attributes [ none ↦ "{}" | some text ↦ text ]

unfoldable pub cache_key : Principal → Query → Key
cache_key p q = record {
  urn = p.urn;
  on_behalf_of = p.on_behalf_of;
  country = p.country;
  resource_type = q.resource_type;
  resource_urn = q.resource_urn;
  permission = q.permission;
  attributes = attributes q;
}

-- What a check makes of the breaker's answer: it reads the response, or raises what was raised.
abbrev pub judge : {A : Type 0} → (A → Bool) → Answer HttpError A → Outcome Failure Bool
judge read (value a) = returned (read a)
judge read (error e) = raised (http e)
judge read open_error = raised circuit_open
judge read type_error = raised breaker_fault

-- `response.json().get("permissionship") == "PERMISSIONSHIP_HAS_PERMISSION"`
abbrev pub has_permission : Option String → Bool
has_permission none = false
has_permission (some permissionship) = str_eq permissionship "PERMISSIONSHIP_HAS_PERMISSION"

-- `response.json().get("result", False)`
abbrev pub policy_result : Option Bool → Bool
policy_result none = false
policy_result (some result) = result

abbrev pub audit : Decision → Principal → Query → Bool → Audit
audit d p q hit = record {
  allowed = d.allowed;
  actor_urn = p.urn;
  asked = q;
  reason = d.reason;
  cache_hit = hit;
}

module _ {W : Type 0} (up : Upstream W) where
  abbrev guarded :
      {A : Type 0}
      → CircuitBreaker
      → Exec HttpError W A
      → W
      → Answer HttpError A × CircuitBreaker × W
  guarded b fn w =
      call b fn is_exception (some upstream_failure) (up.monotonic w) (up.monotonic (fn w).1) w

  unfoldable pub check_rebac : Text → Query → Exec Failure (Session W) Bool
  unfolding upstream_failure
  check_rebac principal_urn q s =
      let ask =
        up.check_permission (spicedb_object_id principal_urn) q.resource_type
          (spicedb_object_id q.resource_urn) q.permission in
      let (answer, b, w) = guarded s.client.rebac_breaker ask s.world in
      (
        judge has_permission answer,
        record s { client = record (s.client) { rebac_breaker = b }; world = w },
      )

  unfoldable pub check_abac : Principal → String → Exec Failure (Session W) Bool
  unfolding upstream_failure
  check_abac p resource s =
      let (answer, b, w) = guarded s.client.abac_breaker (up.allow p.country resource) s.world in
      (
        judge policy_result answer,
        record s { client = record (s.client) { abac_breaker = b }; world = w },
      )

  audit_decision : Decision → Principal → Query → Bool → Exec Failure (Session W) Decision
  audit_decision d p q hit s = (returned d, record s { audits = s.audits ++ audit d p q hit ∷ [] })

  abbrev deny : Reason → Decision
  deny why = record { allowed = false; reason = why }

  -- The part of `_authorize_uncached` after the relational grants.
  restrict : Principal → Query → Exec Failure (Session W) Decision
  unfolding audit_decision
  restrict p q = do
    allowed_by_policy ← check_abac p (attributes q)
    if allowed_by_policy
        then audit_decision
            (record { allowed = true; reason = granted p.urn q.permission q.resource_urn }) p q
            false
        else audit_decision (deny (abac_denied q.permission q.resource_urn)) p q false

  unfoldable pub authorize_uncached : Principal → Query → Exec Failure (Session W) Decision
  unfolding restrict
  authorize_uncached p q = do
    own ← check_rebac p.urn q
    if not own
        then audit_decision (deny (rebac_denied p.urn q.permission q.resource_urn)) p q false
        else elim p.on_behalf_of [
          | none ↦ restrict p q
          | some mandant ↦ (do
            theirs ← check_rebac mandant q
            if theirs
                then restrict p q
                else audit_decision
                    (deny (mandant_denied p.urn mandant q.permission q.resource_urn)) p q false)
        ]

  abbrev with_cache : DecisionCache → Session W → Session W
  with_cache c s = record s { client = record (s.client) { decision_cache = c } }

  -- A denial is stored, as the newest entry, and the oldest are dropped past the maximum.
  unfoldable pub remember : Key → ℕ → Decision → Session W → Session W
  remember k now d s =
      if d.allowed
      then s
      else with_cache
          (evict s.client.denial_cache_max
            (move_to_end k (put k d (now + s.client.decision_cache_ttl) s.client.decision_cache)))
          s

  -- What follows the await: an exception goes on, a decision is remembered.
  remember_answer :
      Key → ℕ → Outcome Failure Decision × Session W → Outcome Failure Decision × Session W
  unfolding remember
  remember_answer k now (returned d, s) = (returned d, remember k now d s)
  remember_answer k now (raised f, s) = (raised f, s)

  ask_upstream : Principal → Query → ℕ → Exec Failure (Session W) Decision
  unfolding remember_answer cache_key
  ask_upstream p q now s = remember_answer (cache_key p q) now (authorize_uncached p q s)

  -- `authorize` from the entry that the cache has for the key.
  consult : Principal → Query → ℕ → Option (Decision × ℕ) → Exec Failure (Session W) Decision
  unfolding ask_upstream audit_decision cache_key
  consult p q now none s = ask_upstream p q now s
  consult p q now (some (d, expires_at)) s =
      let k = cache_key p q in
      let c = s.client.decision_cache in
      if ltb now expires_at
      then audit_decision d p q true (with_cache (move_to_end k c) s)
      else ask_upstream p q now (with_cache (pop k c) s)

  unfoldable pub authorize : Principal → Query → Exec Failure (Session W) Decision
  unfolding consult
  authorize p q s =
      consult p q (up.monotonic s.world) (get (cache_key p q) s.client.decision_cache) s

-- `principal_urn in (key[0], key[1])`
unfoldable pub concerns : Text → Key → Bool
concerns principal_urn k =
    text_eq k.urn principal_urn
    || elim k.on_behalf_of [ none ↦ false | some m ↦ text_eq m principal_urn ]

-- `for key in stale_keys: cache.pop(key, None)`
pop_each : List Key → DecisionCache → DecisionCache
pop_each [] c = c
pop_each (k ∷ ks) c = pop_each ks (pop k c)

stale_keys : Text → DecisionCache → List Key
stale_keys principal_urn [] = []
stale_keys principal_urn ((k, d, at) ∷ c) =
    if concerns principal_urn k then k ∷ stale_keys principal_urn c else stale_keys principal_urn c

unfoldable pub invalidate_principal : Text → PermissionClient → ℕ × PermissionClient
unfolding stale_keys pop_each
invalidate_principal principal_urn c =
    let stale = stale_keys principal_urn c.decision_cache in
    (length stale, record c { decision_cache = pop_each stale c.decision_cache })

unfoldable pub clear_cache : PermissionClient → PermissionClient
clear_cache c = record c { decision_cache = [] }
