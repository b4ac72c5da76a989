-- ===== src/ConnectorSafety/Examples.antt =====
-- References of the tenant `acme`, its topics, and a host that DNS answers in two ways.
use holon.Prelude.{◌≡◌, refl, true, false, Option, none, some, [], ◌∷◌, ◌==◌, filter, if◌then◌else◌}
use holon.Prelude.Text.{strip, lstrip, rstrip_where, split, Text, codes, text_eq}
use holon.Prelude.Exec.{returned, raised}
use holon.ConnectorSafety.{
  accepted, refused, not_tenant_scoped, reserved_topic, answer_changed, upper, lower, after_prefix,
  partition,
}
use holon.ConnectorSafety.Refs.{
  is_secret_key, assert_secret_key, assert_vault_ref, is_namespace, assert_k8s_ref,
  assert_connector_secret_ref,
}
use holon.ConnectorSafety.EnvRefs.{
  dashes_to_underscores, is_slug, tenant_env_slug, before_double, env_name_tenant,
  assert_env_secret_name, is_not_platform_secret,
}
use holon.ConnectorSafety.Topics.{
  is_platform_topic, is_configured, assert_kafka_topic, assert_kafka_topic-isolates,
}
use holon.ConnectorSafety.Isolation.{assert_connector_secret_ref-isolates}
use holon.ConnectorSafety.EnvIsolation.{IsTenantId}
use holon.ConnectorSafety.Hosts.{
  Ip, v4, Network, hostname, is_blocked_ip, is_allowed, is_refused_name, blocked_hosts, answer,
  resolve_ips, blocked_ips_of, platform_blocked_ips, and_again, then_again, pin_name, pin_checked,
  bare, pin_connector_host,
}
use holon.ConnectorSafety.Pinned.{IsChecked, pin_connector_host-IsChecked}

abbrev acme : Text
acme = codes "acme"

acme-IsTenantId : IsTenantId acme
acme-IsTenantId = (refl, (refl, (refl, (refl, tt))))

env_ref :
    assert_connector_secret_ref true acme (some (codes "HOLON_CONN_ACME__ERP_PASSWORD")) ≡ accepted
unfolding assert_connector_secret_ref partition assert_env_secret_name strip lstrip rstrip_where
    upper after_prefix env_name_tenant before_double is_slug tenant_env_slug dashes_to_underscores
env_ref = refl

peer_ref :
    assert_connector_secret_ref true acme (some (codes "env:HOLON_CONN_ACME_CORP__PW"))
    ≡ refused not_tenant_scoped
unfolding assert_connector_secret_ref partition assert_env_secret_name strip lstrip rstrip_where
    upper after_prefix env_name_tenant before_double is_slug tenant_env_slug dashes_to_underscores
peer_ref = refl

vault_ref :
    assert_connector_secret_ref true acme (some (codes "vault:connectors/acme/db#pw")) ≡ accepted
unfolding assert_connector_secret_ref partition assert_vault_ref split after_prefix
    assert_secret_key is_secret_key is_not_platform_secret upper rstrip_where
vault_ref = refl

k8s_ref :
    assert_connector_secret_ref true acme (some (codes "k8s:apps/holon-connector-acme.erp/pw"))
    ≡ accepted
unfolding assert_connector_secret_ref partition assert_k8s_ref split is_namespace after_prefix
    assert_secret_key is_secret_key is_not_platform_secret upper rstrip_where
k8s_ref = refl

peer_k8s_ref :
    assert_connector_secret_ref true acme (some (codes "k8s:apps/holon-connector-acme-corp/pw"))
    ≡ refused not_tenant_scoped
unfolding assert_connector_secret_ref partition assert_k8s_ref split is_namespace after_prefix
    assert_secret_key is_secret_key is_not_platform_secret upper rstrip_where
peer_k8s_ref = refl

assert_connector_secret_ref-isolates_example : acme ≡ acme
assert_connector_secret_ref-isolates_example =
    assert_connector_secret_ref-isolates acme acme (codes "vault:connectors/acme/db#pw")
      acme-IsTenantId acme-IsTenantId refl vault_ref vault_ref

topic : assert_kafka_topic [] acme (codes " acme.orders") ≡ accepted
unfolding assert_kafka_topic strip lstrip rstrip_where after_prefix
topic = refl

platform_topic :
    assert_kafka_topic [] (codes "holon") (codes "holon.events") ≡ refused reserved_topic
unfolding assert_kafka_topic strip lstrip rstrip_where after_prefix
platform_topic = refl

assert_kafka_topic-isolates_example :
    (strip acme ≡ strip acme)
    × (is_platform_topic (strip (codes " acme.orders")) ≡ false)
    × (is_configured (strip []) (strip (codes " acme.orders")) ≡ false)
unfolding strip lstrip rstrip_where
assert_kafka_topic-isolates_example =
    assert_kafka_topic-isolates [] acme acme (codes " acme.orders") refl refl topic topic

abbrev remote : Ip
remote = record {
  text = codes "93.184.216.34";
  is_loopback = false;
  is_link_local = false;
  is_multicast = false;
  is_unspecified = false;
  is_private = false;
  is_reserved = false;
}

abbrev loopback : Ip
loopback = record remote { text = codes "127.0.0.1"; is_loopback = true }

-- After the 16 names of the platform, lookup 16 is the first of the host.
abbrev network : Option Ip → Network
network second = record {
  service_hosts = [];
  allowed_hosts = codes "lan.example, db.example";
  ip_address = λ t. none;
  getaddrinfo = λ n name.
      if text_eq name (codes "erp.example")
      then some (
          (elim second [
            | none ↦ some (v4 remote)
            | some ip ↦ if n == 17 then some (v4 ip) else some (v4 remote)
          ])
          ∷ [])
      else none;
}

pinned :
    pin_connector_host (network none) (codes " ERP.example.") 0
    ≡ (returned (codes "93.184.216.34"), 18)
unfolding pin_connector_host pin_checked pin_name then_again and_again resolve_ips answer hostname
    strip lstrip rstrip_where lower platform_blocked_ips blocked_ips_of blocked_hosts is_allowed
    split filter bare is_blocked_ip
pinned = refl

rebound :
    (pin_connector_host (network (some loopback)) (codes "erp.example") 0).0 ≡ raised answer_changed
unfolding pin_connector_host pin_checked pin_name then_again and_again resolve_ips answer hostname
    strip lstrip rstrip_where lower platform_blocked_ips blocked_ips_of blocked_hosts is_allowed
    split filter bare is_blocked_ip
rebound = refl

pin_connector_host-IsChecked_example :
    let net = network none in
    let host = codes " ERP.example." in
    let (platform_ips, m) = platform_blocked_ips net 0 in
    (is_refused_name net (hostname host) ≡ false)
    × IsChecked net
        (is_allowed net (hostname host))
        platform_ips
        (hostname host)
        m
        (codes "93.184.216.34")
pin_connector_host-IsChecked_example =
    pin_connector_host-IsChecked (network none) (codes " ERP.example.") (codes "93.184.216.34") 0 18
      pinned
