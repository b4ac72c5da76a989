-- ===== src/ConnectorSafety/Isolation.antt =====
-- libs/holon_common/connector_safety.py: no secret is within the reach of two tenants.
use mathlib.Core.Path.{subst}
use holon.Prelude.{
  ◌≡◌, refl, sym, ◌∙◌, true, false, not, Option, none, some, List, [], ◌∷◌, ◌++◌, append_assoc,
  Bool-cases, inl, inr, arith,
}
use holon.Prelude.Text.{split, Text, codes, text_eq, text_eq_iff}
use holon.ConnectorSafety.{
  no_tenant, not_tenant_scoped, malformed, accepted, guard_then, after_prefix, starts_with,
  partition, has_char,
}
use holon.ConnectorSafety.Prefixes.{
  guard_then-accepted, after_prefix-append, starts_with-append, starts_with-has_char,
  prefix_unique_after, append_cancel,
}
use holon.ConnectorSafety.Refs.{
  connectors_prefix, assert_vault_ref, is_k8s_name, assert_k8s_ref, is_aws_name, assert_aws_ref,
  Scheme, env, vault, k8s, aws, other, remove_env, by_scheme, scheme_and_rest,
  assert_connector_secret_ref, vault_parts, k8s_parts, aws_parts, is_namespace, assert_secret_key,
}
use holon.ConnectorSafety.EnvRefs.{is_empty}
use holon.ConnectorSafety.EnvIsolation.{IsTenantId, not_has_char, env-isolates}

vault_parts-starts :
    (t : Text) (parts : Text × Option Text)
    → vault_parts t parts ≡ accepted
    → starts_with (connectors_prefix t) parts.0 ≡ true
vault_parts-starts t (path, none) h = absurd (cc)
vault_parts-starts t (path, some key) h = ground (arith, h)

vault-isolates :
    (t u body : Text)
    → IsTenantId t
    → IsTenantId u
    → assert_vault_ref t body ≡ accepted
    → assert_vault_ref u body ≡ accepted
    → t ≡ u
unfolding assert_vault_ref
vault-isolates t u body kt ku ht hu =
    prefix_unique_after (codes "connectors/") 47 t u (partition 35 body).0
      (not_has_char 47 t refl kt) (not_has_char 47 u refl ku)
      (vault_parts-starts t (partition 35 body) ht) (vault_parts-starts u (partition 35 body) hu)

-- A name with no suffix does not begin with another name and a dot.
dotted :
    (n t u name : Text)
    → has_char 46 t ≡ false
    → name ≡ n ++ t
    → starts_with (n ++ u ++ (46 ∷ [])) name ≡ true
    → ⊥
dotted n t u name k e h =
    let a = starts_with-append n (u ++ (46 ∷ [])) (n ++ t) (
      subst (λ q. starts_with q (n ++ t) ≡ true) (append_assoc n u (46 ∷ []))
        (subst (λ q. starts_with (n ++ u ++ (46 ∷ [])) q ≡ true) e h)) in
    let same : a.0 ≡ t = cc (a.1, after_prefix-append n t) in
    cc
      (k, starts_with-has_char 46 u t (subst (λ q. starts_with (u ++ (46 ∷ [])) q ≡ true) same a.2))

-- The name of a Kubernetes secret belongs to one tenant.
k8s_name-isolates :
    (t u name : Text)
    → IsTenantId t
    → IsTenantId u
    → is_k8s_name t name ≡ true
    → is_k8s_name u name ≡ true
    → t ≡ u
k8s_name-isolates t u name kt ku ht hu =
    let n = codes "holon-connector-" in
    let dot = λ (x : Text) (k : IsTenantId x). not_has_char 46 x refl k in
    elim (Bool-cases (text_eq name (n ++ t))) [
      | inl is_t ↦ elim (Bool-cases (text_eq name (n ++ u))) [
        | inl is_u ↦
            append_cancel n t u
              (sym ((text_eq_iff name (n ++ t)).0 is_t) ∙ (text_eq_iff name (n ++ u)).0 is_u)
        | inr not_u ↦ absurd (
            dotted n t u name (dot t kt) ((text_eq_iff name (n ++ t)).0 is_t)
              (ground (arith, hu, not_u)))
      ]
      | inr not_t ↦ elim (Bool-cases (text_eq name (n ++ u))) [
        | inl is_u ↦ absurd (
            dotted n u t name (dot u ku) ((text_eq_iff name (n ++ u)).0 is_u)
              (ground (arith, ht, not_t)))
        | inr not_u ↦
            prefix_unique_after n 46 t u name (dot t kt) (dot u ku) (ground (arith, ht, not_t))
              (ground (arith, hu, not_u))
      ]
    ]

k8s_parts-name : (t a b c : Text) → k8s_parts t (a ∷ b ∷ c ∷ []) ≡ accepted → is_k8s_name t b ≡ true
k8s_parts-name t a b c h =
    (guard_then-accepted (is_k8s_name t b) not_tenant_scoped (assert_secret_key c)
      (guard_then-accepted (is_namespace a) malformed
        (guard_then (is_k8s_name t b) not_tenant_scoped (assert_secret_key c)) h).1).0

k8s_parts-isolates :
    (t u : Text) (parts : List Text)
    → IsTenantId t
    → IsTenantId u
    → k8s_parts t parts ≡ accepted
    → k8s_parts u parts ≡ accepted
    → t ≡ u
k8s_parts-isolates t u [] kt ku ht hu = absurd (cc)
k8s_parts-isolates t u (a ∷ []) kt ku ht hu = absurd (cc)
k8s_parts-isolates t u (a ∷ b ∷ []) kt ku ht hu = absurd (cc)
k8s_parts-isolates t u (a ∷ b ∷ c ∷ []) kt ku ht hu =
    k8s_name-isolates t u b kt ku (k8s_parts-name t a b c ht) (k8s_parts-name u a b c hu)
k8s_parts-isolates t u (a ∷ b ∷ c ∷ d ∷ r) kt ku ht hu = absurd (cc)

aws_parts-name :
    (t : Text) (parts : Text × Option Text)
    → aws_parts t parts ≡ accepted
    → is_aws_name t parts.0 ≡ true
aws_parts-name t (secret_id, key) h = ground (arith, h)

-- The two forms of a name of AWS differ in their first letter.
other_place :
    (u t name : Text)
    → name ≡ codes "holon-connector-" ++ t
    → starts_with (connectors_prefix u) name ≡ true
    → ⊥
unfolding after_prefix
other_place u t name e h = absurd (cc (subst (λ q. starts_with (connectors_prefix u) q ≡ true) e h))

aws_name-isolates :
    (t u name : Text)
    → IsTenantId t
    → IsTenantId u
    → is_aws_name t name ≡ true
    → is_aws_name u name ≡ true
    → t ≡ u
aws_name-isolates t u name kt ku ht hu =
    let n = codes "holon-connector-" in
    let slash = λ (x : Text) (k : IsTenantId x). not_has_char 47 x refl k in
    elim (Bool-cases (text_eq name (n ++ t))) [
      | inl is_t ↦ elim (Bool-cases (text_eq name (n ++ u))) [
        | inl is_u ↦
            append_cancel n t u
              (sym ((text_eq_iff name (n ++ t)).0 is_t) ∙ (text_eq_iff name (n ++ u)).0 is_u)
        | inr not_u ↦
            absurd (
              other_place u t name ((text_eq_iff name (n ++ t)).0 is_t) (ground (arith, hu, not_u)))
      ]
      | inr not_t ↦ elim (Bool-cases (text_eq name (n ++ u))) [
        | inl is_u ↦
            absurd (
              other_place t u name ((text_eq_iff name (n ++ u)).0 is_u) (ground (arith, ht, not_t)))
        | inr not_u ↦
            prefix_unique_after (codes "connectors/") 47 t u name (slash t kt) (slash u ku)
              (ground (arith, ht, not_t)) (ground (arith, hu, not_u))
      ]
    ]

aws-isolates :
    (t u body : Text)
    → IsTenantId t
    → IsTenantId u
    → assert_aws_ref t body ≡ accepted
    → assert_aws_ref u body ≡ accepted
    → t ≡ u
unfolding assert_aws_ref
aws-isolates t u body kt ku ht hu =
    let parts = partition 124 body in
    aws_name-isolates t u parts.0 kt ku (aws_parts-name t parts ht) (aws_parts-name u parts hu)

k8s-isolates :
    (t u body : Text)
    → IsTenantId t
    → IsTenantId u
    → assert_k8s_ref t body ≡ accepted
    → assert_k8s_ref u body ≡ accepted
    → t ≡ u
unfolding assert_k8s_ref
k8s-isolates t u body kt ku ht hu = k8s_parts-isolates t u (split 47 body) kt ku ht hu

by_scheme-isolates :
    (t u rest : Text) (scheme : Scheme)
    → IsTenantId t
    → IsTenantId u
    → by_scheme true t scheme rest ≡ accepted
    → by_scheme true u scheme rest ≡ accepted
    → t ≡ u
by_scheme-isolates t u rest env kt ku ht hu = env-isolates t u (remove_env rest) kt ku ht hu
by_scheme-isolates t u rest vault kt ku ht hu =
    vault-isolates t u rest kt ku
      (guard_then-accepted (not (is_empty t)) no_tenant (assert_vault_ref t rest) ht).1
      (guard_then-accepted (not (is_empty u)) no_tenant (assert_vault_ref u rest) hu).1
by_scheme-isolates t u rest k8s kt ku ht hu =
    k8s-isolates t u rest kt ku
      (guard_then-accepted (not (is_empty t)) no_tenant (assert_k8s_ref t rest) ht).1
      (guard_then-accepted (not (is_empty u)) no_tenant (assert_k8s_ref u rest) hu).1
by_scheme-isolates t u rest aws kt ku ht hu =
    aws-isolates t u rest kt ku
      (guard_then-accepted (not (is_empty t)) no_tenant (assert_aws_ref t rest) ht).1
      (guard_then-accepted (not (is_empty u)) no_tenant (assert_aws_ref u rest) hu).1
by_scheme-isolates t u rest other kt ku ht hu = absurd (cc)

-- In production a reference to a secret that is not empty is accepted for one tenant at most, among
-- tenants whose ids are of lower case letters, digits and hyphens: whether it names an environment
-- variable, a Vault path, a Kubernetes secret or one of AWS.
pub assert_connector_secret_ref-isolates :
    (t u ref : Text)
    → IsTenantId t
    → IsTenantId u
    → is_empty ref ≡ false
    → assert_connector_secret_ref true t (some ref) ≡ accepted
    → assert_connector_secret_ref true u (some ref) ≡ accepted
    → t ≡ u
unfolding assert_connector_secret_ref
assert_connector_secret_ref-isolates t u [] kt ku e ht hu = absurd (cc)
assert_connector_secret_ref-isolates t u (c ∷ ref) kt ku e ht hu =
    let at = scheme_and_rest (partition 58 (c ∷ ref)) in
    by_scheme-isolates t u at.1 at.0 kt ku ht hu
