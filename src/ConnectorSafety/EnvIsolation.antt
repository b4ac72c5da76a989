-- ===== src/ConnectorSafety/EnvIsolation.antt =====
-- libs/holon_common/connector_safety.py: no environment variable is within the reach of two tenants.
use holon.Prelude.{
  ℕ, ◌≡◌, refl, sym, ap, ◌∙◌, Bool, true, false, not, ◌&&◌, ◌||◌, Option, none, some, [], ◌∷◌, All,
  leb, ◌==◌, Bool-cases, Option-cases, inl, inr, arith,
}
use holon.Prelude.Text.{strip, lstrip, rstrip_where, is_space, Text, text_eq, text_eq_iff}
use holon.ConnectorSafety.{no_tenant, no_name, accepted, guard_then, upper, has_char}
use holon.ConnectorSafety.Prefixes.{guard_then-accepted}
use holon.ConnectorSafety.EnvRefs.{
  dashes_to_underscores, tenant_env_slug, env_name_tenant, assert_env_secret_name, env_secret_for,
  is_empty,
}

abbrev pub is_tenant_char : ℕ → Bool
is_tenant_char c = (leb 97 c && leb c 122) || (leb 48 c && leb c 57) || (c == 45)

-- A tenant id is of lower case letters, digits and hyphens.
abbrev pub IsTenantId : Text → Type 0
IsTenantId t = All (λ c. is_tenant_char c ≡ true) t

pub not_has_char :
    (c : ℕ) (t : Text) → is_tenant_char c ≡ false → IsTenantId t → has_char c t ≡ false
not_has_char c [] h k = refl
not_has_char c (d ∷ t) h k = ground (arith, h, k.0, not_has_char c t h k.1)

lstrip-IsTenantId : (t : Text) → IsTenantId t → lstrip t ≡ t
unfolding lstrip
lstrip-IsTenantId [] k = refl
lstrip-IsTenantId (c ∷ t) k = ground (arith, k.0)

rstrip-IsTenantId : (t : Text) → IsTenantId t → rstrip_where is_space t ≡ t
unfolding rstrip_where
rstrip-IsTenantId [] k = refl
rstrip-IsTenantId (c ∷ []) k = ground (arith, k.0)
rstrip-IsTenantId (c ∷ d ∷ t) k = rw (rstrip-IsTenantId (d ∷ t) k.1) refl

strip-IsTenantId : (t : Text) → IsTenantId t → strip t ≡ t
unfolding strip
strip-IsTenantId t k = rw (lstrip-IsTenantId t k) (rstrip-IsTenantId t k)

-- On tenant ids, the segment of the environment's names tells them apart.
slug-injective :
    (t u : Text)
    → IsTenantId t
    → IsTenantId u
    → dashes_to_underscores (upper t) ≡ dashes_to_underscores (upper u)
    → t ≡ u
unfolding dashes_to_underscores upper
slug-injective [] [] kt ku h = refl
slug-injective [] (d ∷ u) kt ku h = absurd (cc)
slug-injective (c ∷ t) [] kt ku h = absurd (cc)
slug-injective (c ∷ t) (d ∷ u) kt ku h = ground (arith, kt.0, ku.0, h, slug-injective t u kt.1 ku.1)

-- In production the name of a variable carries the tenant's segment.
env_secret_for-group :
    (name upper_name : Text) (slug : Option Text)
    → env_secret_for true name upper_name slug ≡ accepted
    → env_name_tenant upper_name ≡ slug
env_secret_for-group name upper_name none h = absurd (cc)
env_secret_for-group name upper_name (some slug) h =
    elim (Option-cases (env_name_tenant upper_name)) [
      | inl missing ↦ absurd (cc (sym (rw missing at h)))
      | inr (group, found) ↦ rw found (elim (Bool-cases (text_eq group slug)) [
        | inl same ↦ ap some ((text_eq_iff group slug).0 same)
        | inr differ ↦ absurd (cc (sym (rw (found, differ) at h)))
      ])
    ]

some_slug :
    (t : Text) (slug : Text)
    → tenant_env_slug t ≡ some slug
    → slug ≡ dashes_to_underscores (upper (strip t))
unfolding tenant_env_slug
some_slug t slug h = ground (arith, h)

env_secret_for-some :
    (name upper_name : Text) (slug : Option Text)
    → env_secret_for true name upper_name slug ≡ accepted
    → (x : Text) × (slug ≡ some x)
env_secret_for-some name upper_name none h = absurd (cc)
env_secret_for-some name upper_name (some x) h = (x, refl)

env_checked :
    (t name : Text)
    → assert_env_secret_name true t name ≡ accepted
    → env_secret_for true name (upper (strip name)) (tenant_env_slug t) ≡ accepted
unfolding assert_env_secret_name
env_checked t name h =
    let outer =
      guard_then-accepted (not (is_empty (strip t))) no_tenant
        (guard_then (not (is_empty (upper (strip name)))) no_name
          (env_secret_for true name (upper (strip name)) (tenant_env_slug t)))
        h in
    (guard_then-accepted (not (is_empty (upper (strip name)))) no_name
      (env_secret_for true name (upper (strip name)) (tenant_env_slug t)) outer.1).1

pub env-isolates :
    (t u name : Text)
    → IsTenantId t
    → IsTenantId u
    → assert_env_secret_name true t name ≡ accepted
    → assert_env_secret_name true u name ≡ accepted
    → t ≡ u
env-isolates t u name kt ku ht hu =
    let up = upper (strip name) in
    let ct = env_checked t name ht in
    let cu = env_checked u name hu in
    let st = env_secret_for-some name up (tenant_env_slug t) ct in
    let su = env_secret_for-some name up (tenant_env_slug u) cu in
    let same : st.0 ≡ su.0 = cc (
      env_secret_for-group name up (tenant_env_slug t) ct,
      env_secret_for-group name up (tenant_env_slug u) cu,
      st.1,
      su.1,
    ) in
    let path = λ (x : Text) (k : IsTenantId x).
      ap (λ q. dashes_to_underscores (upper q)) (strip-IsTenantId x k) in
    slug-injective t u kt ku
      (sym (path t kt) ∙ sym (some_slug t st.0 st.1) ∙ same ∙ some_slug u su.0 su.1 ∙ path u ku)
