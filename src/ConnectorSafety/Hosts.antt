-- ===== src/ConnectorSafety/Hosts.antt =====
-- libs/holon_common/connector_safety.py: hosts. An address is what `ipaddress` says of it; the parsing of
-- literals, the host names in the URLs of the platform's services, and DNS are parameters. The state
-- counts the lookups, since DNS may give another answer each time.
use holon.Prelude.{
  ℕ, ◌+◌, Bool, false, not, ◌&&◌, ◌||◌, Option, none, some, List, [], ◌∷◌, ◌++◌, any, map, filter,
  ◌==◌, if◌then◌else◌,
}
use holon.Prelude.Text.{strip, lstrip, rstrip_where, split, Text, codes, text_eq}
use holon.Prelude.Exec.{returned, raised, Exec, pure, raise, raise_if, ◌>>=◌, ◌>>◌}
use holon.ConnectorSafety.{
  SafetyError, host_required, host_not_allowed, host_unresolved, blocked_address, answer_changed,
  lower,
}
use holon.ConnectorSafety.EnvRefs.{is_empty}

pub record Ip : Type 0 where
  pub text : Text
  pub is_loopback : Bool
  pub is_link_local : Bool
  pub is_multicast : Bool
  pub is_unspecified : Bool
  pub is_private : Bool
  pub is_reserved : Bool

-- An IPv4 address, or an IPv6 address with `ipv4_mapped`
pub data Address : Type 0 where
  v4 : Ip → Address
  v6 : Ip → Option Ip → Address

pub record Network : Type 0 where
  pub service_hosts : List Text
  pub allowed_hosts : Text
  pub ip_address : Text → Option Address
  pub getaddrinfo : ℕ → Text → Option (List (Option Address))

-- `_hostname`
unfoldable pub hostname : Text → Text
unfolding strip lstrip rstrip_where lower
hostname host = rstrip_where (λ c. c == 46) (lower (strip host))

-- `_BLOCKED_HOSTS`
abbrev platform_hosts : List Text
platform_hosts =
    codes "spicedb"
    ∷ codes "opa"
    ∷ codes "minio"
    ∷ codes "opensearch"
    ∷ codes "qdrant"
    ∷ codes "redpanda"
    ∷ codes "iceberg-rest"
    ∷ codes "identity"
    ∷ codes "connectivity"
    ∷ codes "knowledge"
    ∷ codes "experience"
    ∷ codes "automation"
    ∷ codes "intelligence"
    ∷ codes "metadata.google.internal"
    ∷ codes "metadata.google.com"
    ∷ codes "instance-data"
    ∷ []

-- `_unwrap_ip`
abbrev pub unwrap_ip : Address → Ip
unwrap_ip (v4 ip) = ip
unwrap_ip (v6 ip none) = ip
unwrap_ip (v6 ip (some mapped)) = mapped

-- `_is_blocked_ip` of an address that is unwrapped
unfoldable pub is_blocked_ip : Bool → Ip → Bool
is_blocked_ip allow_private ip =
    ip.is_loopback
    || ip.is_link_local
    || ip.is_multicast
    || ip.is_unspecified
    || (not allow_private && (ip.is_private || ip.is_reserved))

abbrev pub listed : Text → List Text → Bool
listed name names = any (λ n. text_eq n name) names

-- The addresses that are some: those that `ip_address` reads
abbrev pub read_addresses : List (Option Address) → List Ip
read_addresses [] = []
read_addresses (none ∷ infos) = read_addresses infos
read_addresses (some a ∷ infos) = unwrap_ip a ∷ read_addresses infos

abbrev texts_of : List Ip → List Text
texts_of [] = []
texts_of (ip ∷ ips) = ip.text ∷ texts_of ips

module _ (net : Network) where
  -- `_allowed_hosts`
  unfoldable pub is_allowed : Text → Bool
  unfolding split hostname filter
  is_allowed name =
      listed name
        (map hostname (filter (λ part. not (is_empty (strip part))) (split 44 net.allowed_hosts)))

  -- `_blocked_hosts`
  unfoldable pub blocked_hosts : List Text
  unfolding hostname
  blocked_hosts = platform_hosts ++ map hostname net.service_hosts

  -- The suffix `.internal`, from some place on
  abbrev is_internal : Text → Bool
  is_internal [] = false
  is_internal (c ∷ s) = text_eq (c ∷ s) (codes ".internal") || is_internal s

  abbrev pub is_refused_name : Text → Bool
  is_refused_name name = listed name blocked_hosts || is_internal name

  abbrev answer_of : Option (List (Option Address)) → Option (Ip × List Ip)
  answer_of none = none
  answer_of (some infos) = elim (read_addresses infos) [ [] ↦ none | ip ∷ ips ↦ some (ip, ips) ]

  -- `_resolve_ips`: the addresses of the n-th lookup, of which there is one at least
  unfoldable pub answer : ℕ → Text → Option (Ip × List Ip)
  unfolding hostname
  answer n host = answer_of (net.getaddrinfo n (hostname host))

  unfoldable pub resolve_ips : Text → Exec SafetyError ℕ (Ip × List Ip)
  unfolding answer
  resolve_ips host n = elim (answer n host) [
    | none ↦ (raised host_unresolved, n + 1)
    | some ips ↦ (returned ips, n + 1)
  ]

  abbrev found_texts : Option (Ip × List Ip) → List Text
  found_texts none = []
  found_texts (some (ip, ips)) = ip.text ∷ texts_of ips

  -- The loop of `_platform_blocked_ips`, in which a host that is not resolved is left out
  unfoldable pub blocked_ips_of : List Text → ℕ → List Text × ℕ
  unfolding answer
  blocked_ips_of [] n = ([], n)
  blocked_ips_of (host ∷ hosts) n =
      let (rest, last) = blocked_ips_of hosts (n + 1) in (found_texts (answer n host) ++ rest, last)

  unfoldable pub platform_blocked_ips : ℕ → List Text × ℕ
  unfolding blocked_ips_of blocked_hosts
  platform_blocked_ips n = blocked_ips_of blocked_hosts n

  -- One address of `_answers_blocked`
  abbrev pub is_refused_ip : Bool → List Text → Ip → Bool
  is_refused_ip allow_private platform_ips ip =
      is_blocked_ip allow_private ip || listed ip.text platform_ips

  -- `_answers_blocked`
  abbrev pub answers_blocked : Bool → List Text → Ip × List Ip → Bool
  answers_blocked allow_private platform_ips (ip, ips) =
      is_refused_ip allow_private platform_ips ip
      || any (is_refused_ip allow_private platform_ips) ips

  -- A literal is checked, and is the address.
  abbrev pub pin_literal : Bool → List Text → Ip → Exec SafetyError ℕ Text
  pin_literal allow_private platform_ips ip =
      if is_refused_ip allow_private platform_ips ip then raise blocked_address else pure ip.text

  -- The address of a clean answer
  unfoldable pub and_again :
      Bool → List Text → Ip × List Ip → Ip × List Ip → Exec SafetyError ℕ Text
  and_again allow_private platform_ips first second =
      if answers_blocked allow_private platform_ips second
      then raise answer_changed
      else pure first.0.text

  unfoldable pub then_again : Bool → List Text → Text → Ip × List Ip → Exec SafetyError ℕ Text
  then_again allow_private platform_ips name first =
      if answers_blocked allow_private platform_ips first
      then raise blocked_address
      else resolve_ips name >>= and_again allow_private platform_ips first

  -- A name is looked up twice.
  unfoldable pub pin_name : Bool → List Text → Text → Exec SafetyError ℕ Text
  pin_name allow_private platform_ips name =
      resolve_ips name >>= then_again allow_private platform_ips name

  -- `name.strip("[]")`
  abbrev is_bracket : ℕ → Bool
  is_bracket c = (c == 91) || (c == 93)

  abbrev lstrip_brackets : Text → Text
  lstrip_brackets [] = []
  lstrip_brackets (c ∷ s) = let rest = lstrip_brackets s in if is_bracket c then rest else c ∷ s

  unfoldable pub bare : Text → Text
  unfolding rstrip_where
  bare name = rstrip_where is_bracket (lstrip_brackets name)

  abbrev pub pin_address : Bool → List Text → Text → Option Address → Exec SafetyError ℕ Text
  pin_address allow_private platform_ips name none = pin_name allow_private platform_ips name
  pin_address allow_private platform_ips name (some a) =
      pin_literal allow_private platform_ips (unwrap_ip a)

  unfoldable pub pin_checked : Text → List Text → Exec SafetyError ℕ Text
  unfolding pin_name
  pin_checked name platform_ips =
      pin_address (is_allowed name) platform_ips name (net.ip_address (bare name))

  -- The platform's addresses, and the lookups that they take
  abbrev pub look_up_platform : Exec SafetyError ℕ (List Text)
  look_up_platform n = let (ips, m) = platform_blocked_ips n in (returned ips, m)

  abbrev pub check_name : Text → Exec SafetyError ℕ (Unit {0})
  check_name name =
      raise_if (is_empty name) host_required >> raise_if (is_refused_name name) host_not_allowed

  -- `pin_connector_host`
  unfoldable pub pin_connector_host : Text → Exec SafetyError ℕ Text
  unfolding pin_checked
  pin_connector_host host = do
    _ ← check_name (hostname host)
    look_up_platform >>= pin_checked (hostname host)

  unfoldable pub check_answer : Bool → List Text → Text → Exec SafetyError ℕ (Unit {0})
  check_answer allow_private platform_ips name = resolve_ips name >>= λ ips.
      raise_if (answers_blocked allow_private platform_ips ips) blocked_address

  unfoldable pub check_target : Bool → Text → List Text → Exec SafetyError ℕ (Unit {0})
  check_target resolve name platform_ips = elim (net.ip_address (bare name)) [
    | none ↦ if resolve then check_answer (is_allowed name) platform_ips name else pure tt
    | some a ↦ raise_if (is_refused_ip (is_allowed name) platform_ips (unwrap_ip a)) blocked_address
  ]

  -- `assert_connector_host`
  unfoldable pub assert_connector_host : Bool → Text → Exec SafetyError ℕ (Unit {0})
  unfolding check_target
  assert_connector_host resolve host = do
    _ ← check_name (hostname host)
    (if resolve then look_up_platform else pure []) >>= check_target resolve (hostname host)
