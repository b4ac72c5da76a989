-- ===== src/ConnectorSafety/EnvRefs.antt =====
-- libs/holon_common/connector_safety.py: the guard of the names of environment variables.
use holon.Prelude.{
  ℕ, Bool, true, false, not, ◌&&◌, ◌||◌, Option, none, some, List, [], ◌∷◌, any, leb, ◌==◌,
  if◌then◌else◌,
}
use holon.Prelude.Text.{strip, rstrip_where, Text, codes, text_eq}
use holon.ConnectorSafety.{
  no_tenant, no_name, tenant_unfit, platform_secret, not_tenant_scoped, Verdict, accepted, refused,
  guard_then, upper, after_prefix, starts_with,
}

abbrev pub underscore : ℕ
underscore = 95

abbrev pub is_upper_or_digit : ℕ → Bool
is_upper_or_digit c = (leb 65 c && leb c 90) || (leb 48 c && leb c 57)

-- `replace("-", "_")`
unfoldable pub dashes_to_underscores : Text → Text
dashes_to_underscores [] = []
dashes_to_underscores (c ∷ s) = (if c == 45 then underscore else c) ∷ dashes_to_underscores s

-- `[A-Z0-9]+(?:_[A-Z0-9]+)*` after a character that was an underscore (or the start) or was not
slug_from : Bool → Text → Bool
slug_from at_start [] = not at_start
slug_from at_start (c ∷ s) =
    if c == underscore
    then not at_start && slug_from true s
    else is_upper_or_digit c && slug_from false s

-- `_TENANT_ENV_SLUG_RE`
unfoldable pub is_slug : Text → Bool
unfolding slug_from
is_slug s = slug_from true s

-- `_tenant_env_slug`
unfoldable pub tenant_env_slug : Text → Option Text
unfolding is_slug
tenant_env_slug tenant_id =
    let slug = dashes_to_underscores (upper (strip tenant_id)) in
    if is_slug slug then some slug else none

abbrev all_key_chars : Text → Bool
all_key_chars [] = true
all_key_chars (c ∷ s) = (is_upper_or_digit c || (c == underscore)) && all_key_chars s

-- `[A-Z0-9][A-Z0-9_]*`
abbrev is_env_key : Text → Bool
is_env_key [] = false
is_env_key (c ∷ s) = is_upper_or_digit c && all_key_chars s

-- Before the first "__", and after it. A slug has none, so that the group of the pattern ends there.
unfoldable pub before_double : Text → Option (Text × Text)
before_double [] = none
before_double (c ∷ []) = none
before_double (c ∷ d ∷ s) =
    let rest = before_double (d ∷ s) in
    if (c == underscore) && (d == underscore)
    then some ([], s)
    else elim rest [ none ↦ none | some (before, after) ↦ some (c ∷ before, after) ]

abbrev pub env_group : Option (Text × Text) → Option Text
env_group none = none
env_group (some (group, key)) = if is_slug group && is_env_key key then some group else none

abbrev in_env_name : Option Text → Option Text
in_env_name none = none
in_env_name (some rest) = env_group (before_double rest)

-- Group 1 of `_TENANT_ENV_NAME_RE`, where it matches
unfoldable pub env_name_tenant : Text → Option Text
unfolding before_double
env_name_tenant name = in_env_name (after_prefix (codes "HOLON_CONN_") name)

-- `_BLOCKED_ENV_PREFIXES`
abbrev blocked_env_prefixes : List Text
blocked_env_prefixes =
    codes "HOLON_JWT"
    ∷ codes "HOLON_SPICEDB"
    ∷ codes "HOLON_BOOTSTRAP"
    ∷ codes "HOLON_SCIM"
    ∷ codes "HOLON_OIDC"
    ∷ codes "HOLON_SAML"
    ∷ codes "HOLON_METRICS"
    ∷ codes "HOLON_DB"
    ∷ codes "HOLON_SOURCE"
    ∷ codes "HOLON_MONGO"
    ∷ codes "HOLON_S3"
    ∷ codes "HOLON_ICEBERG"
    ∷ codes "HOLON_KAFKA"
    ∷ codes "HOLON_OPENSEARCH"
    ∷ codes "HOLON_QDRANT"
    ∷ codes "HOLON_IDENTITY"
    ∷ codes "HOLON_CONNECTIVITY"
    ∷ codes "HOLON_KNOWLEDGE"
    ∷ codes "HOLON_EXPERIENCE"
    ∷ codes "HOLON_AUTOMATION"
    ∷ codes "HOLON_INTELLIGENCE"
    ∷ codes "POSTGRES"
    ∷ codes "DATABASE"
    ∷ codes "MONGO"
    ∷ codes "MYSQL"
    ∷ codes "REDIS"
    ∷ codes "AWS_SECRET"
    ∷ codes "AWS_ACCESS"
    ∷ codes "MINIO"
    ∷ codes "OPENSEARCH"
    ∷ codes "ANTHROPIC"
    ∷ codes "VOYAGE"
    ∷ codes "VAULT_"
    ∷ codes "K8S_"
    ∷ []

-- `_assert_not_platform_secret_name`: does it pass?
unfoldable pub is_not_platform_secret : Text → Bool
unfolding rstrip_where
is_not_platform_secret name = not (
    any
      (λ pre.
        text_eq (upper name) (rstrip_where (λ c. c == underscore) pre)
        || starts_with pre (upper name))
      blocked_env_prefixes)

abbrev pub is_empty : Text → Bool
is_empty [] = true
is_empty (c ∷ s) = false

abbrev pub names_tenant : Option Text → Text → Bool
names_tenant none slug = false
names_tenant (some group) slug = text_eq group slug

abbrev pub env_secret_for : Bool → Text → Text → Option Text → Verdict
env_secret_for production name upper_name none = refused tenant_unfit
env_secret_for production name upper_name (some slug) =
    if names_tenant (env_name_tenant upper_name) slug
    then accepted
    else guard_then (not production) not_tenant_scoped (
        guard_then (is_not_platform_secret name) platform_secret
          (guard_then (not (starts_with (codes "HOLON_") upper_name)) not_tenant_scoped accepted))

-- `_assert_env_secret_name`
unfoldable pub assert_env_secret_name : Bool → Text → Text → Verdict
unfolding env_name_tenant tenant_env_slug is_not_platform_secret
assert_env_secret_name production tenant_id name =
    guard_then (not (is_empty (strip tenant_id))) no_tenant (
      guard_then (not (is_empty (upper (strip name)))) no_name
        (env_secret_for production name (upper (strip name)) (tenant_env_slug tenant_id)))
