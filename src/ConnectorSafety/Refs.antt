-- ===== src/ConnectorSafety/Refs.antt =====
-- libs/holon_common/connector_safety.py: the guards of `secret_ref`, up to `resolve_connector_secret`.
-- `is_production` is an argument, the secret store a parameter.
use holon.Prelude.{
  ℕ, Bool, true, false, not, ◌&&◌, ◌||◌, Option, none, some, List, [], ◌∷◌, ◌++◌, any, length, leb,
  ◌==◌, if◌then◌else◌,
}
use holon.Prelude.Text.{split, rstrip_where, Text, codes, text_eq}
use holon.ConnectorSafety.{
  SafetyError, no_tenant, platform_secret, not_tenant_scoped, not_plain_key, malformed,
  unsupported_scheme, Verdict, accepted, refused, guard_then, after_prefix, starts_with, partition,
}
use holon.ConnectorSafety.EnvRefs.{
  underscore, is_upper_or_digit, is_not_platform_secret, is_empty, assert_env_secret_name,
}

abbrev is_key_char : ℕ → Bool
is_key_char c =
    is_upper_or_digit c || (leb 97 c && leb c 122) || (c == 46) || (c == underscore) || (c == 45)

-- `[…]*$`: up to the end, or to a last newline
abbrev chars_to_end : Text → Bool
chars_to_end [] = true
chars_to_end (c ∷ s) = ((c == 10) && is_empty s) || (is_key_char c && chars_to_end s)

-- `_SECRET_KEY_RE`
unfoldable pub is_secret_key : Text → Bool
is_secret_key [] = false
is_secret_key (c ∷ s) = is_key_char c && chars_to_end s

abbrev is_dots : Text → Bool
is_dots s = text_eq s (codes ".") || text_eq s (codes "..")

-- `_assert_secret_key`
unfoldable pub assert_secret_key : Text → Verdict
unfolding is_secret_key is_not_platform_secret
assert_secret_key key =
    guard_then (is_secret_key key && not (is_dots key)) not_plain_key
      (guard_then (is_not_platform_secret key) platform_secret accepted)

abbrev has_bad_segment : List Text → Bool
has_bad_segment segments = any (λ s. is_empty s || is_dots s) segments

-- `connectors/<tenant>/`
abbrev pub connectors_prefix : Text → Text
connectors_prefix tenant_id = codes "connectors/" ++ tenant_id ++ (47 ∷ [])

abbrev pub vault_parts : Text → Text × Option Text → Verdict
vault_parts tenant_id (path, none) = refused malformed
vault_parts tenant_id (path, some key) =
    guard_then
      (starts_with (connectors_prefix tenant_id) path && not (has_bad_segment (split 47 path)))
      not_tenant_scoped (assert_secret_key key)

-- `_assert_vault_ref`
unfoldable pub assert_vault_ref : Text → Text → Verdict
unfolding split
assert_vault_ref tenant_id body = vault_parts tenant_id (partition 35 body)

-- A character of a namespace: in the middle, or at its ends
abbrev is_label_end : ℕ → Bool
is_label_end c = (leb 97 c && leb c 122) || (leb 48 c && leb c 57)

-- The last character must not be a hyphen; a newline may follow it.
abbrev label_rest : Text → Bool
label_rest [] = true
label_rest (c ∷ []) = is_label_end c || (c == 10)
label_rest (c ∷ d ∷ s) =
    let rest = label_rest (d ∷ s) in
    if (d == 10) && is_empty s then is_label_end c else (is_label_end c || (c == 45)) && rest

abbrev strip_newline : Text → Text
strip_newline s = rstrip_where (λ c. c == 10) s

-- `_K8S_NAMESPACE_RE`
unfoldable pub is_namespace : Text → Bool
unfolding rstrip_where
is_namespace [] = false
is_namespace (c ∷ s) = is_label_end c && label_rest s && leb (length (strip_newline (c ∷ s))) 63

-- `holon-connector-<tenant>`
abbrev pub connector_secret_name : Text → Text
connector_secret_name tenant_id = codes "holon-connector-" ++ tenant_id

abbrev pub is_k8s_name : Text → Text → Bool
is_k8s_name tenant_id name =
    text_eq name (connector_secret_name tenant_id)
    || (starts_with (connector_secret_name tenant_id ++ (46 ∷ [])) name && is_secret_key name)

abbrev pub k8s_parts : Text → List Text → Verdict
k8s_parts tenant_id (namespace ∷ name ∷ key ∷ []) =
    guard_then (is_namespace namespace) malformed
      (guard_then (is_k8s_name tenant_id name) not_tenant_scoped (assert_secret_key key))
k8s_parts tenant_id _ = refused malformed

-- `_assert_k8s_ref`
unfoldable pub assert_k8s_ref : Text → Text → Verdict
unfolding split is_namespace is_secret_key
assert_k8s_ref tenant_id body = k8s_parts tenant_id (split 47 body)

abbrev aws_key : Option Text → Verdict
aws_key none = accepted
aws_key (some key) = assert_secret_key key

abbrev pub is_aws_name : Text → Text → Bool
is_aws_name tenant_id secret_id =
    text_eq secret_id (connector_secret_name tenant_id)
    || starts_with (connectors_prefix tenant_id) secret_id

abbrev pub aws_parts : Text → Text × Option Text → Verdict
aws_parts tenant_id (secret_id, key) =
    guard_then (not (starts_with (codes "arn:") secret_id)) not_tenant_scoped (
      guard_then (is_aws_name tenant_id secret_id && not (has_bad_segment (split 47 secret_id)))
        not_tenant_scoped (aws_key key))

-- `_assert_aws_ref`
unfoldable pub assert_aws_ref : Text → Text → Verdict
unfolding split
assert_aws_ref tenant_id body = aws_parts tenant_id (partition 124 body)

pub data Scheme : Type 0 where
  env : Scheme
  vault : Scheme
  k8s : Scheme
  aws : Scheme
  other : Scheme

abbrev pub scheme_of : Text → Scheme
scheme_of s =
    if text_eq s (codes "env")
    then env
    else if text_eq s (codes "vault")
    then vault
    else if text_eq s (codes "k8s")
    then k8s
    else if text_eq s (codes "aws")
    then aws
    else other

-- `rest.removeprefix("env:")`
abbrev pub remove_env : Text → Text
remove_env rest = elim (after_prefix (codes "env:") rest) [ none ↦ rest | some name ↦ name ]

abbrev pub by_scheme : Bool → Text → Scheme → Text → Verdict
by_scheme production tenant_id env rest =
    assert_env_secret_name production tenant_id (remove_env rest)
by_scheme production tenant_id vault rest =
    guard_then (not (is_empty tenant_id)) no_tenant (assert_vault_ref tenant_id rest)
by_scheme production tenant_id k8s rest =
    guard_then (not (is_empty tenant_id)) no_tenant (assert_k8s_ref tenant_id rest)
by_scheme production tenant_id aws rest =
    guard_then (not (is_empty tenant_id)) no_tenant (assert_aws_ref tenant_id rest)
by_scheme production tenant_id other rest = refused unsupported_scheme

-- The scheme and the rest; a ref without a colon is one of the environment.
abbrev pub scheme_and_rest : Text × Option Text → Scheme × Text
scheme_and_rest (ref, none) = (env, ref)
scheme_and_rest (scheme, some rest) = (scheme_of scheme, rest)

-- `assert_connector_secret_ref`
unfoldable pub assert_connector_secret_ref : Bool → Text → Option Text → Verdict
unfolding partition
assert_connector_secret_ref production tenant_id none = accepted
assert_connector_secret_ref production tenant_id (some []) = accepted
assert_connector_secret_ref production tenant_id (some (c ∷ ref)) =
    let (scheme, rest) = scheme_and_rest (partition 58 (c ∷ ref)) in
    by_scheme production tenant_id scheme rest

-- `resolve_connector_secret`: the refusal, or what the store of secrets gives, if there is a ref
pub data Resolved : Type 0 where
  no_ref : Resolved
  refusal : SafetyError → Resolved
  secret : Text → Resolved

abbrev resolve_checked : (Text → Text) → Text → Verdict → Resolved
resolve_checked get_secret ref accepted = secret (get_secret ref)
resolve_checked get_secret ref (refused e) = refusal e

unfoldable pub resolve_connector_secret : (Text → Text) → Bool → Text → Option Text → Resolved
resolve_connector_secret get_secret production tenant_id none = no_ref
resolve_connector_secret get_secret production tenant_id (some []) = no_ref
resolve_connector_secret get_secret production tenant_id (some (c ∷ ref)) =
    resolve_checked get_secret (c ∷ ref)
      (assert_connector_secret_ref production tenant_id (some (c ∷ ref)))
